-- ===== src/Transcript.antt =====
-- Transcripts (skeleton_media/video_understanding/transcript.py). `Cover` models the covered time,
-- `Segments` the segments and their normalization, `Quality` the assessment of a transcript, `Parse` and
-- `Formats` the parsers, `Captions` the rolling captions, `Compare` the comparison with a second source.
pub mod Cover
pub mod Segments
pub mod Quality
pub mod Parse
pub mod Formats
pub mod Captions
pub mod Compare
mod Tests
