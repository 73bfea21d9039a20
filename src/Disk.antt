-- ===== src/Disk.antt =====
-- The on-disk primitives of the snapshot file system: its checksum and its codecs.
pub mod Crc
pub mod Format
pub mod Header
pub mod Record
pub mod Wear
pub mod Placement
pub mod Tests
