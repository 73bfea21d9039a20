-- ===== src/Log.antt =====
-- The log on the board: the file names and the order of the files.
pub mod Decimal
pub mod File
pub mod Ring
pub mod Tests
