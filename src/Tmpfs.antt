-- ===== src/Tmpfs.antt =====
-- The file system in memory, kernel/src/fs/tmpfs.c.
pub mod File
pub mod Tree
mod Tests
