-- ===== src/Dsa.antt =====
-- The linked lists of kernel/src/dsa/list.c.
pub mod Links
pub mod ListHead
pub mod Dlist
pub mod Hashmap
