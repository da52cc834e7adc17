-- ===== src/Vblank.antt =====
-- The vertical-blank timer: src/vblankmanager.cpp, src/vblankmanager.hpp and src/refresh_rate.h.
pub mod Refresh
pub mod Schedule
pub mod Timer
mod Examples
