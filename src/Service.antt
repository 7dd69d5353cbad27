-- ===== src/Service.antt =====
-- The service: src/core/media/service_implementation.cpp and service_skeleton.cpp.
pub mod State
pub mod Pausing
pub mod Observers
pub mod Paused
pub mod ResumeKey
pub mod Sessions
pub mod Exported
pub mod Exclusive
pub mod Playing
pub mod Mirror
pub mod Created
pub mod Permissions
