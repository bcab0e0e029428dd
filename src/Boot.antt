-- ===== src/Boot.antt =====
-- The start-up code of kernel/src/boot.
pub mod Cmdline
