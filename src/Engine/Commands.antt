-- ===== src/Engine/Commands.antt =====
-- What the engine's commands leave.
use media_hub.Prelude.{◌≡◌, refl, Bool, Bool-cases, true, false, inl, inr, ◌∷◌, if◌then◌else◌}
use media_hub.Media.{EngineState, PlaybackStatus}
use media_hub.Engine.{GstState, Output, State, play, stop, pause, is_stopped}

stopped_state : (e : EngineState) → is_stopped e ≡ true → e ≡ EngineState.stopped
stopped_state EngineState.stopped h = refl
stopped_state EngineState.no_media h = cc
stopped_state EngineState.ready h = cc
stopped_state EngineState.busy h = cc
stopped_state EngineState.playing h = cc
stopped_state EngineState.paused h = cc

-- When the pipeline accepts, stop() leaves the engine stopped and succeeds; a second stop() after
-- it succeeds without a call of the pipeline or a signal, whatever the pipeline would answer; and
-- play() after it calls the pipeline again. A refused play() or pause() leaves the engine's state
-- and sends no signal.
pub stop_correct :
    (later : Bool) (s : State)
    → let t = (stop true s).1 in
      ((stop true s).0 ≡ true)
      × (t.state ≡ EngineState.stopped)
      × (stop later t ≡ (true, t))
      × ((play later t).1.output ≡ (
          if later
          then Output.playback_status_changed PlaybackStatus.playing
            ∷ Output.set_state GstState.playing
            ∷ t.output
          else Output.set_state GstState.playing ∷ t.output))
      × ((play false s).1 ≡ record s { output = Output.set_state GstState.playing ∷ s.output })
      × ((pause false s).1 ≡ record s { output = Output.set_state GstState.paused ∷ s.output })
unfolding stop play pause
stop_correct later s = elim (Bool-cases (is_stopped s.state)) [
  | inl e ↦ rw e (refl, stopped_state s.state e, rw e refl, output later s, refl, refl)
  | inr n ↦ rw n (refl, refl, refl, output later _, refl, refl)
]
  where
    output :
        (b : Bool) (t : State)
        → (if b
            then record t {
              state = EngineState.playing;
              output =
                  Output.playback_status_changed PlaybackStatus.playing
                  ∷ Output.set_state GstState.playing
                  ∷ t.output;
            }
            else record t { output = Output.set_state GstState.playing ∷ t.output }).output
          ≡ (if b
              then Output.playback_status_changed PlaybackStatus.playing
                ∷ Output.set_state GstState.playing
                ∷ t.output
              else Output.set_state GstState.playing ∷ t.output)
    output true t = refl
    output false t = refl
