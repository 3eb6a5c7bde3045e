-- ===== src/Artifacts.antt =====
-- The artifacts of a processed video: paths, manifests and the private store
-- (video_understanding/manifest.py and artifact_store.py).
pub mod Paths
pub mod Manifest
pub mod Items
pub mod Store
mod Tests
