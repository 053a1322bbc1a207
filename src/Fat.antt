-- ===== src/Fat.antt =====
-- tp4/src: a reader of FAT32 archives.
mod Tests
pub mod Path
pub mod Block
pub mod File
pub mod Name
pub mod Find
