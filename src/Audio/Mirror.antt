-- ===== src/Audio/Mirror.antt =====
-- The external state and the state of the one output: src/core/media/audio/pulse_audio_output_observer.cpp.
use media_hub.Prelude.{
  ◌≡◌, refl, sym, ap, subst, Bool, true, false, Bool-cases, inl, inr, Option, none, some, List, [],
  ◌∷◌, Text, text_eq, if◌then◌else◌, ◌==◌, arith,
}
use media_hub.Service.State.{OutputState}
use media_hub.Audio.{
  SinkInfo, Pattern, Monitored, Output, Query, query_from_server, State, call, assign, assign_each,
  same_state, created,
}
use media_hub.Audio.Callbacks.{
  on_context_ready, on_context_failed, on_sink_event_with_index, on_query_for_active_sink_finished,
  state_after, on_query_for_primary_sink_finished, on_query_for_server_info_finished,
  context_notification_cb, ContextState, Callback, dispatch, run,
}

-- The observer has one output, whose state the external state is.
abbrev pub IsMirror : Pattern → State → Type 0
IsMirror pattern s = s.outputs ≡ record { pattern = pattern; state = s.external_output_state } ∷ []

same_state_eq : (a b : OutputState) → same_state a b ≡ true → a ≡ b
unfolding same_state
same_state_eq OutputState.earpiece OutputState.earpiece e = refl
same_state_eq OutputState.earpiece OutputState.speaker e = absurd (cc)
same_state_eq OutputState.earpiece OutputState.external e = absurd (cc)
same_state_eq OutputState.speaker OutputState.earpiece e = absurd (cc)
same_state_eq OutputState.speaker OutputState.speaker e = refl
same_state_eq OutputState.speaker OutputState.external e = absurd (cc)
same_state_eq OutputState.external OutputState.earpiece e = absurd (cc)
same_state_eq OutputState.external OutputState.speaker e = absurd (cc)
same_state_eq OutputState.external OutputState.external e = refl

takes_new : (old new : OutputState) → (if same_state old new then old else new) ≡ new
takes_new old new = go (same_state old new) refl
  where
    go : (b : Bool) → same_state old new ≡ b → (if b then old else new) ≡ new
    go true e = same_state_eq old new e
    go false e = refl

-- The external state after an assignment is what the function says of the one output.
pub external-assign :
    (f : Monitored → OutputState) (pattern : Pattern) (s : State)
    → IsMirror pattern s
    → (assign f s).external_output_state
      ≡ f (record { pattern = pattern; state = s.external_output_state })
unfolding assign_each
external-assign f pattern s h =
    subst
      (λ outputs.
        (assign_each f outputs s.external_output_state).1
        ≡ f (record { pattern = pattern; state = s.external_output_state }))
      (sym h)
      (takes_new s.external_output_state
        (f (record { pattern = pattern; state = s.external_output_state })))

assign-IsMirror :
    (f : Monitored → OutputState) (pattern : Pattern) (s : State)
    → IsMirror pattern s
    → IsMirror pattern (assign f s)
unfolding assign_each
assign-IsMirror f pattern s h =
    subst
      (λ outputs.
        let r = assign_each f outputs s.external_output_state in
        r.0 ≡ record { pattern = pattern; state = r.1 } ∷ [])
      (sym h)
      (ap (λ state. record { pattern = pattern; state = state } ∷ [])
        (sym (
          takes_new s.external_output_state
            (f (record { pattern = pattern; state = s.external_output_state })))))

pub ready-IsMirror :
    (pattern : Pattern) (s : State) → IsMirror pattern s → IsMirror pattern (on_context_ready s)
unfolding on_context_ready
ready-IsMirror pattern s h = go (text_eq s.config_sink query_from_server)
  where
    go :
        (b : Bool)
        → IsMirror pattern (
            if b
            then call Output.get_server_info
                (call Output.subscribe_to_events (call Output.connected_to_pulse_audio s))
            else call Output.get_server_info (
                call
                  (Output.get_index_of_sink_by_name s.config_sink Query.primary_sink)
                  (record (call Output.subscribe_to_events
                    (call Output.connected_to_pulse_audio s)) { sink = s.config_sink })))
    go true = h
    go false = h

pub active-IsMirror :
    (pattern : Pattern) (info : SinkInfo) (s : State)
    → IsMirror pattern s
    → IsMirror pattern (on_query_for_active_sink_finished info s)
unfolding on_query_for_active_sink_finished
active-IsMirror pattern info s h = elim (Bool-cases (s.active_index == info.index)) [
  | inl a ↦ rw a h
  | inr a ↦ elim (Bool-cases (info.index == s.primary_sink_index)) [
    | inl b ↦ rw (a, b) h
    | inr b ↦
        rw (a, b)
          (assign-IsMirror (λ o. OutputState.external) pattern
            (record s { active_index = info.index; active_name = info.name }) h)
  ]
]

pub primary-IsMirror :
    (pattern : Pattern) (info : SinkInfo) (s : State)
    → IsMirror pattern s
    → IsMirror pattern (on_query_for_primary_sink_finished info s)
unfolding on_query_for_primary_sink_finished
primary-IsMirror pattern info s h = assign-IsMirror (state_after info s) pattern s h

pub server-IsMirror :
    (pattern : Pattern) (name : Option Text) (s : State)
    → IsMirror pattern s
    → IsMirror pattern (on_query_for_server_info_finished name s)
unfolding on_query_for_server_info_finished
server-IsMirror pattern none s h = h
server-IsMirror pattern (some name) s h = ground arith

dispatch-IsMirror :
    (pattern : Pattern) (c : Callback) (s : State)
    → IsMirror pattern s
    → IsMirror pattern (dispatch c s)
unfolding dispatch context_notification_cb on_context_failed on_sink_event_with_index
dispatch-IsMirror pattern (Callback.context_notification false c) s h = h
dispatch-IsMirror pattern (Callback.context_notification true ContextState.ready) s h =
    ready-IsMirror pattern s h
dispatch-IsMirror pattern (Callback.context_notification true ContextState.failed) s h = h
dispatch-IsMirror pattern (Callback.context_notification true ContextState.other) s h = h
dispatch-IsMirror pattern (Callback.context_subscription true true index) s h = h
dispatch-IsMirror pattern (Callback.context_subscription true false index) s h = h
dispatch-IsMirror pattern (Callback.context_subscription false b index) s h = h
dispatch-IsMirror pattern (Callback.active_sink true (some info)) s h =
    active-IsMirror pattern info s h
dispatch-IsMirror pattern (Callback.active_sink true none) s h = h
dispatch-IsMirror pattern (Callback.active_sink false o) s h = h
dispatch-IsMirror pattern (Callback.primary_sink true (some info)) s h =
    primary-IsMirror pattern info s h
dispatch-IsMirror pattern (Callback.primary_sink true none) s h = h
dispatch-IsMirror pattern (Callback.primary_sink false o) s h = h
dispatch-IsMirror pattern (Callback.server_info true (some name)) s h =
    server-IsMirror pattern name s h
dispatch-IsMirror pattern (Callback.server_info true none) s h = h
dispatch-IsMirror pattern (Callback.server_info false o) s h = h

run-IsMirror :
    (pattern : Pattern) (cs : List Callback) (s : State)
    → IsMirror pattern s
    → IsMirror pattern (run cs s)
unfolding run
run-IsMirror pattern [] s h = h
run-IsMirror pattern (c ∷ cs) s h =
    run-IsMirror pattern cs (dispatch c s) (dispatch-IsMirror pattern c s h)

-- An observer of one pattern shows the state of its output as the external state after every run of callbacks, in any order.
pub external_state-IsMirror :
    (sink : Text) (pattern : Pattern) (cs : List Callback)
    → let s = run cs (created (record { sink = sink; output_port_patterns = pattern ∷ [] })) in
      s.outputs ≡ record { pattern = pattern; state = s.external_output_state } ∷ []
unfolding created
external_state-IsMirror sink pattern cs = run-IsMirror pattern cs _ refl
