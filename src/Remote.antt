-- ===== src/Remote.antt =====
-- The phone remote (skeleton_media/home_edge/adaptive_remote.py). `Contract` holds the closed
-- button lists and the mapping, `Broker` the input broker `Modes` the mode controller, and `Layouts` the rendered layouts; the children of
-- these hold the proofs.
pub mod Contract
pub mod Broker
pub mod Modes
pub mod Layouts
