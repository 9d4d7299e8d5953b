-- ===== src/Vfs.antt =====
-- The virtual file system, kernel/filesystem/VFS.c: normal paths, the cache of resolved paths, the
-- mounts, and the resolution of a path over them.
pub mod Result
pub mod Path
pub mod Text
pub mod State
pub mod Cache
pub mod Resolve
pub mod Mounts
pub mod Handles
pub mod Listing
pub mod Entries
pub mod Tests
pub mod Examples
