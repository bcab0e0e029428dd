-- ===== src/Libk.antt =====
-- The kernel's C library, kernel/src/libk.
pub mod Memory
pub mod Bytes
pub mod Strings
pub mod Printk
