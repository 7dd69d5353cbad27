-- ===== src/Apparmor.antt =====
-- Who may open what: src/core/media/apparmor/ubuntu.cpp.
pub mod Uri
pub mod UriLaws
pub mod Context
pub mod Authenticator
pub mod Laws
pub mod Policy
