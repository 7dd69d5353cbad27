-- ===== src/Power.antt =====
-- The power locks: src/core/media/power/state_controller.cpp.
pub mod Display
pub mod Cookies
pub mod Releases
pub mod System
pub mod SystemLock
