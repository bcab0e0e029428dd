-- ===== src/Smp.antt =====
-- Scheduling and locks: kernel/src/smp and kernel/src/arch/x86-64/spinlock.c.
pub mod Sched
pub mod Spinlock
