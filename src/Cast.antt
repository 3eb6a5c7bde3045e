-- ===== src/Cast.antt =====
-- The cast host's state (skeleton_media/cast).
pub mod Releases
pub mod Monitor
