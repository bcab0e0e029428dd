-- ===== src/Drivers.antt =====
-- Device drivers: kernel/src/drivers.
pub mod Console
pub mod Glyph
