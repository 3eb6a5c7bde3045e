-- ===== src/Queue.antt =====
-- The durable job queue (skeleton_media/video_understanding/queue.py). `Records` models
-- `QueueRecord`, `Files` the queue's directories and `Operations` the methods of `FileQueue`; the
-- other children hold the proofs.
pub mod Records
pub mod Files
pub mod Operations
