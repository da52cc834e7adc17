-- ===== src/Vulkan.antt =====
-- The renderer (src/rendervulkan.cpp).
pub mod Barriers
pub mod Submission
mod Examples
