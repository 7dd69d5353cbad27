-- ===== src/Service/State.antt =====
-- What `ServiceImplementation` keeps, the players it holds pointers to, and the calls it makes.
use media_hub.Prelude.{Bool, true, false, List, [], ◌∷◌, ◌++◌, if◌then◌else◌, ◌==◌, ◌^◌, ◌-◌}
use media_hub.Media.{PlaybackStatus, AudioStreamRole, Lifetime}
use media_hub.PlayerStore.{PlayerStore, PlayerKey, PlayerPtr}

-- The properties of a player that the service reads.
pub record PlayerObject : Type 0 where
  pub playback_status : PlaybackStatus
  pub audio_stream_role : AudioStreamRole
  pub is_audio_source : Bool
  pub lifetime : Lifetime

-- What a player makes of pause() and play().
pub record Controls : Type 0 where
  pub on_pause : PlayerObject → PlayerObject
  pub on_play : PlayerObject → PlayerObject

pub data OutputState : Type 0 where
  earpiece speaker external : OutputState

-- The calls that leave the service.
pub data Call : Type 0 where
  pause : PlayerPtr → Call
  play : PlayerPtr → Call
  acquire_display : Call
  release_display : Call

pub record State : Type 0 where
  pub store : PlayerStore
  pub objects : PlayerPtr → PlayerObject
  pub paused_sessions : List (PlayerKey × Bool)
  pub resume_key : PlayerKey
  pub audio_output_state : OutputState
  pub calls : List Call

-- `std::numeric_limits<std::uint32_t>::max()`.
abbrev pub max_key : PlayerKey
max_key = 2 ^ 32 - 1

abbrev pub is_playing : PlaybackStatus → Bool
is_playing PlaybackStatus.playing = true
is_playing _ = false

abbrev pub is_paused : PlaybackStatus → Bool
is_paused PlaybackStatus.paused = true
is_paused _ = false

abbrev pub is_multimedia : AudioStreamRole → Bool
is_multimedia AudioStreamRole.multimedia = true
is_multimedia _ = false

abbrev pub is_normal : Lifetime → Bool
is_normal Lifetime.normal = true
is_normal _ = false

-- The object behind one pointer changes.
abbrev pub set_object :
    PlayerPtr → PlayerObject → (PlayerPtr → PlayerObject) → PlayerPtr → PlayerObject
set_object p o h q = if q == p then o else h q

unfoldable pub call_pause : Controls → PlayerPtr → State → State
call_pause c p s = record s {
  objects = set_object p (c.on_pause (s.objects p)) s.objects;
  calls = s.calls ++ Call.pause p ∷ [];
}

-- `engine->play()`, the end of the player's `play()`.
unfoldable pub call_play : Controls → PlayerPtr → State → State
call_play c p s = record s {
  objects = set_object p (c.on_play (s.objects p)) s.objects;
  calls = s.calls ++ Call.play p ∷ [];
}
