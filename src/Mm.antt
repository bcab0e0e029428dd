-- ===== src/Mm.antt =====
-- Memory management: kernel/src/mm.
pub mod Buddy
pub mod Vmalloc
pub mod Bump
pub mod Mapper
pub mod Pages
pub mod Mempool
pub mod Slab
