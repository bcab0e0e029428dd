-- ===== src/Tests.antt =====
-- Runs of the theorems at concrete inputs.
pub mod Data
pub mod Memory
pub mod Printk
pub mod Lists
pub mod Sched
pub mod Spinlock
pub mod Slab
pub mod Buddy
pub mod Vmalloc
pub mod Console
pub mod Glyph
pub mod Cmdline
pub mod Mapper
pub mod Dlist
pub mod Hashmap
pub mod Tmpfs
pub mod Vfs
pub mod Initrd
pub mod Exec
