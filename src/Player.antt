-- ===== src/Player.antt =====
-- `PlayerImplementation::Private`: src/core/media/player_implementation.cpp.
pub mod Wakelocks
pub mod Balance
pub mod Held
pub mod Glue
pub mod Actions
pub mod Advancing
pub mod Opening
pub mod Skipping
pub mod Leaving
pub mod Failing
pub mod Requests
pub mod Permitted
