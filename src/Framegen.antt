-- ===== src/Framegen.antt =====
-- Frame generation policy: the headers of src/framegen. Each child models one part of it.
pub mod Cadence
pub mod Gap
pub mod Policy
pub mod Ladder
pub mod Timestamp
pub mod Grid
pub mod Anchor
pub mod Chain
pub mod Bidir
pub mod Floats
pub mod Temporal
pub mod Causal
pub mod Lead
pub mod Commit
pub mod Shed
pub mod QueryRing
pub mod Slots
pub mod NetProfile
pub mod Metrics
