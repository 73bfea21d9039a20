-- ===== src/Shell.antt =====
-- The shell on the serial line: its paths.
pub mod Path
pub mod Tests
