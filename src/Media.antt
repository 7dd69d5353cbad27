-- ===== src/Media.antt =====
-- The enumerations of include/core/media/player.h and src/core/media/engine.h.

pub data PlaybackStatus : Type 0 where
  null ready playing paused stopped : PlaybackStatus

pub data LoopStatus : Type 0 where
  none track playlist : LoopStatus

pub data AudioStreamRole : Type 0 where
  alarm alert multimedia phone : AudioStreamRole

pub data Lifetime : Type 0 where
  normal resumable : Lifetime

pub data PlayerError : Type 0 where
  no_error resource_error format_error network_error access_denied_error : PlayerError
  service_missing_error : PlayerError

pub data EngineState : Type 0 where
  no_media ready busy playing paused stopped : EngineState
