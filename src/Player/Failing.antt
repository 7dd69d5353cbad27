-- ===== src/Player/Failing.antt =====
-- What an error of the pipeline does to the player: gstreamer::Engine's handler and, by the signal of the playbin's reset, the player's own.
use media_hub.Prelude.{
  ◌≡◌, ◌≢◌, refl, ap, ◌∙◌, ◌⊎◌, inl, inr, Bool, true, false, Option, none, some, List, [], ◌∷◌,
  ◌++◌, codes,
}
use media_hub.Media.{EngineState, PlaybackStatus, PlayerError}
use media_hub.Engine
use media_hub.Engine.{
  GError, GstState, Output as EngineOutput, from_gst_error, on_playbin_error,
  on_playbin_state_changed, put_out,
}
use media_hub.Engine.Errors.{Reports, errors_reset_and_report}
use media_hub.Player.Glue.{Player, Pipeline, with_engine, stop_unless, is_idle}
use media_hub.Player.Actions.{on_client_disconnected}
use media_hub.Player.Opening.{after_reset, emptied, stop_unless_lem}
use media_hub.Player.Leaving.{cleared, told, told-IsSame, on_client_disconnected_lem}

abbrev engine_or : Engine.State → Option Player → Engine.State
engine_or e none = e
engine_or e (some t) = t.engine

-- What the player's handler of the client's going makes of the engine.
unfoldable pub handled : Pipeline → Bool → Player → Engine.State → Engine.State
handled p is_current s e =
    engine_or e (on_client_disconnected p is_current (record s { engine = e }))

-- An engine that plays or is paused is stopped, if the pipeline can be.
abbrev pub stopped_state : Bool → Bool → EngineState → EngineState
stopped_state true stops e = e
stopped_state false true e = EngineState.stopped
stopped_state false false e = e

abbrev pub stop_calls : Bool → Bool → List EngineOutput
stop_calls true stops = []
stop_calls false true =
    EngineOutput.playback_status_changed PlaybackStatus.stopped
    ∷ EngineOutput.set_state GstState.null
    ∷ []
stop_calls false false = EngineOutput.set_state GstState.null ∷ []

handled_lem :
    (p : Pipeline) (is_current : Bool) (s : Player) (e : Engine.State)
    → handled p is_current s e ≡ (after_reset p (cleared (record s { engine = e }))).engine
unfolding handled
handled_lem p is_current s e =
    ap (engine_or e) (on_client_disconnected_lem p is_current (record s { engine = e }))
    ∙ (told-IsSame is_current (after_reset p (cleared (record s { engine = e })))).1

abbrev in_state : EngineState → List EngineOutput → Engine.State
in_state e out = record { state = e; output = out }

engine_stop_lem :
    (stops : Bool) (e : EngineState) (out : List EngineOutput)
    → is_idle e ≡ false
    → (Engine.stop stops (in_state e out)).1
      ≡ in_state (stopped_state false stops e) (stop_calls false stops ++ out)
unfolding Engine.stop
engine_stop_lem true EngineState.no_media out h = refl
engine_stop_lem false EngineState.no_media out h = refl
engine_stop_lem true EngineState.busy out h = refl
engine_stop_lem false EngineState.busy out h = refl
engine_stop_lem true EngineState.playing out h = refl
engine_stop_lem false EngineState.playing out h = refl
engine_stop_lem true EngineState.paused out h = refl
engine_stop_lem false EngineState.paused out h = refl
engine_stop_lem stops EngineState.ready out h = absurd (cc)
engine_stop_lem stops EngineState.stopped out h = absurd (cc)

stop_lem :
    (p : Pipeline) (s : Player) (b : Bool) (e : EngineState) (out : List EngineOutput)
    → is_idle e ≡ b
    → s.engine ≡ in_state e out
    → (stop_unless b p s).engine
      ≡ in_state (stopped_state b p.stops e) (stop_calls b p.stops ++ out)
unfolding with_engine
stop_lem p s true e out h q = q
stop_lem p s false e out h q =
    ap (λ x. (Engine.stop p.stops x).1) q ∙ engine_stop_lem p.stops e out h

-- The engine behind an error, and what it did since.
abbrev pub failed : Pipeline → PlayerError → Engine.State → Engine.State
failed p e s =
    in_state (stopped_state (is_idle s.state) p.stops s.state)
      (EngineOutput.error e ∷ stop_calls (is_idle s.state) p.stops ++ EngineOutput.reset ∷ s.output)

handled_engine :
    (p : Pipeline) (is_current : Bool) (s : Player) (e : PlayerError) (x : Engine.State)
    → put_out (EngineOutput.error e) (handled p is_current s (put_out EngineOutput.reset x))
      ≡ failed p e x
handled_engine p is_current s e x =
    let y = put_out EngineOutput.reset x in
    ap (put_out (EngineOutput.error e)) (
      handled_lem p is_current s y
      ∙ stop_lem p _ (is_idle x.state) x.state (EngineOutput.reset ∷ x.output) refl refl)

-- With the handlers of the player connected, an error of the pipeline that stands for none changes nothing. For any other one the engine resets the playbin; by the signal of this reset the player takes its client for gone: it empties the track list and stops an engine that is neither ready nor stopped, if the pipeline can be stopped; and at last the error is reported. The same holds for a pause of a pipeline
-- that can play none of its streams, with a format error and without the report of a pause.
pub playbin_errors_correct :
    (p : Pipeline) (is_current : Bool) (g : GError) (s : Player)
    → (((from_gst_error g ≡ PlayerError.no_error)
          × (on_playbin_error (handled p is_current s) g s.engine ≡ s.engine))
        ⊎ ((from_gst_error g ≢ PlayerError.no_error)
            × (on_playbin_error (handled p is_current s) g s.engine
                ≡ failed p (from_gst_error g) s.engine)))
      × (on_playbin_state_changed
            (handled p is_current s)
            false
            GstState.paused
            (codes "playbin")
            s.engine
          ≡ failed p PlayerError.format_error s.engine)
      × ((t : Player) × ((on_client_disconnected p is_current
                (record s { engine = put_out EngineOutput.reset s.engine })
              ≡ some t)
            × (t.list.tracks ≡ [])))
playbin_errors_correct p is_current g s =
    let (r, _, q) = errors_reset_and_report (handled p is_current s) g s.engine in
    let x : Player = record s { engine = put_out EngineOutput.reset s.engine } in
    (
      go r,
      q ∙ handled_engine p is_current s PlayerError.format_error s.engine,
      (
        told is_current (after_reset p (cleared x)),
        (
          on_client_disconnected_lem p is_current x,
          ap (λ l. l.tracks)
              ((told-IsSame is_current (after_reset p (cleared x))).0
                ∙ (stop_unless_lem (is_idle x.engine.state) p
                    (record (cleared x) { list = emptied x.list })).0),
        ),
      ),
    )
  where
    go :
        Reports
          (handled p is_current s)
          (from_gst_error g)
          s.engine
          (on_playbin_error (handled p is_current s) g s.engine)
        → ((from_gst_error g ≡ PlayerError.no_error)
            × (on_playbin_error (handled p is_current s) g s.engine ≡ s.engine))
          ⊎ ((from_gst_error g ≢ PlayerError.no_error)
              × (on_playbin_error (handled p is_current s) g s.engine
                  ≡ failed p (from_gst_error g) s.engine))
    go (inl a) = inl a
    go (inr (n, e)) = inr (n, e ∙ handled_engine p is_current s (from_gst_error g) s.engine)
