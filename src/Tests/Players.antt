-- ===== src/Tests/Players.antt =====
-- Two playing sessions at concrete inputs, and their store.
use media_hub.Prelude.{◌≡◌, refl, true, false, some, none, [], ◌∷◌, lookup, ℕ_discrete}
use media_hub.Media.{PlaybackStatus, AudioStreamRole, Lifetime}
use media_hub.PlayerStore.{PlayerStore, player_for_key}
use media_hub.PlayerStore.Lookup.{CurrentIsKnown}
use media_hub.Service.State.{PlayerObject, Controls, State, OutputState, max_key}
use media_hub.Service.Observers.{Event, step}
use media_hub.Service.ResumeKey.{resume_key_never_set}

abbrev both : PlayerStore
both = record { map = (0, 10) ∷ (1, 11) ∷ []; current_player = some 10 }

both-CurrentIsKnown : CurrentIsKnown both
unfolding lookup ℕ_discrete
both-CurrentIsKnown p e = (0, e)

abbrev singer : PlayerObject
singer = record {
  playback_status = PlaybackStatus.playing;
  audio_stream_role = AudioStreamRole.multimedia;
  is_audio_source = true;
  lifetime = Lifetime.normal;
}

abbrev controls : Controls
controls = record {
  on_pause = λ o. record o { playback_status = PlaybackStatus.paused };
  on_play = λ o. record o { playback_status = PlaybackStatus.playing };
}

abbrev concert : State
concert = record {
  store = both;
  objects = λ p. singer;
  paused_sessions = [];
  resume_key = max_key;
  audio_output_state = OutputState.speaker;
  calls = [];
}

resume_key_never_set_example :
    ((e : Event) → (step controls e concert).resume_key ≡ max_key)
    × (player_for_key max_key both ≡ none
        → step controls (Event.warning_active false) concert ≡ concert)
resume_key_never_set_example = resume_key_never_set controls concert refl
