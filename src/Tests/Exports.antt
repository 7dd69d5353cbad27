-- ===== src/Tests/Exports.antt =====
-- The exported player at concrete inputs: two sessions, of which the first is made current.
use media_hub.Prelude.{
  ◌≡◌, refl, true, false, some, none, List, [], ◌∷◌, All, lookup, ℕ_discrete, ◌++◌,
}
use media_hub.Media.{PlaybackStatus, AudioStreamRole, Lifetime, LoopStatus}
use media_hub.PlayerStore.{PlayerStore, PlayerPtr}
use media_hub.Service.State.{PlayerObject, Controls, State, OutputState, Call, max_key}
use media_hub.Service.Pausing.{pause_other_sessions, play_session}
use media_hub.Service.Exported.{Facts, Exported, Change}
use media_hub.Service.Exclusive.{IsPausing, IsQuiet, pause_other_sessions_correct}
use media_hub.Service.Playing.{IsBeside, play_session_correct}

abbrev both : PlayerStore
both = record { map = (0, 10) ∷ (1, 11) ∷ []; current_player = none }

abbrev singer : PlayerObject
singer = record {
  playback_status = PlaybackStatus.playing;
  audio_stream_role = AudioStreamRole.multimedia;
  is_audio_source = true;
  lifetime = Lifetime.normal;
}

abbrev controls : Controls
controls = record {
  on_pause = λ o. record o { playback_status = PlaybackStatus.paused };
  on_play = λ o. record o { playback_status = PlaybackStatus.playing };
}

abbrev concert : State
concert = record {
  store = both;
  objects = λ p. singer;
  paused_sessions = [];
  resume_key = max_key;
  audio_output_state = OutputState.speaker;
  calls = [];
}

pauses : IsPausing controls
pauses o = (refl, refl)

pause_other_sessions_correct_example :
    let t = pause_other_sessions controls 0 concert in
    All (IsQuiet 0 t.objects) both.map
    × ((p : PlayerPtr) → (t.objects p).audio_stream_role ≡ AudioStreamRole.multimedia)
    × (t.store ≡ both)
unfolding lookup ℕ_discrete
pause_other_sessions_correct_example =
    pause_other_sessions_correct controls pauses 0 10 concert refl refl

play_session_correct_example :
    let t = play_session controls 0 10 concert in
    let u = pause_other_sessions controls 0 concert in
    All (IsBeside 0 10 t.objects) both.map
    × (t.objects 10 ≡ controls.on_play (u.objects 10))
    × (t.store ≡ record both { current_player = some 10 })
    × (t.calls ≡ u.calls ++ Call.play 10 ∷ [])
unfolding lookup ℕ_discrete
play_session_correct_example = play_session_correct controls pauses 0 10 concert refl refl

abbrev facts : Facts
facts = record {
  key = 0;
  loop_status = LoopStatus.none;
  duration = 0;
  position = 0;
  can_play = true;
  can_pause = true;
  can_go_previous = false;
  can_go_next = false;
}

abbrev stage : Exported
stage = record {
  service = concert;
  facts = λ p. facts;
  can_control = false;
  playback_status = PlaybackStatus.null;
  loop_status = LoopStatus.none;
  duration = 0;
  position = 0;
  can_play = false;
  can_pause = false;
  can_go_previous = false;
  can_go_next = false;
  connected = [];
  commands = [];
}

abbrev changes : List (PlayerPtr × Change)
changes = (10, Change.duration 5) ∷ (11, Change.can_play false) ∷ (10, Change.can_go_next true) ∷ []

-- The second player was the exported one before.
abbrev revisited : Exported
revisited = record stage { connected = (1, 11) ∷ [] }
