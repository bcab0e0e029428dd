-- ===== src/Fs.antt =====
-- The file systems of kernel/src/fs.
pub mod Tmpfs
pub mod Vfs
pub mod Initrd
pub mod Exec
