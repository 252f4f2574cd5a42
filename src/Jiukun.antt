-- ===== src/Jiukun.antt =====
-- The memory library jiukun/.
pub mod Buddy
pub mod Pages
pub mod Slab
