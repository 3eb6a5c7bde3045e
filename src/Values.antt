-- ===== src/Values.antt =====
-- The value types of skeleton_media/video_understanding/models.py: `Fields` models the tests on single
-- fields, `Evidence` the small types, `Record` requests and records, and `Receipts` the public receipt.
pub mod Fields
pub mod Evidence
pub mod Record
pub mod Receipts
mod Tests
