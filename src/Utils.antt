-- ===== src/Utils.antt =====
-- Utilities: the headers of src/Utils.
pub mod Algorithm
mod Examples
