-- ===== src/Encode.antt =====
-- The encoding library encode/.
pub mod Base64
