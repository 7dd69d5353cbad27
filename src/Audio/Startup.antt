-- ===== src/Audio/Startup.antt =====
-- What the observer says when its first queries are answered.
use media_hub.Prelude.{
  ℕ, ◌≡◌, refl, ap, ◌∙◌, Bool, true, false, Bool-cases, inl, inr, some, List, [], ◌∷◌, Text,
  if◌then◌else◌, ◌==◌, arith,
}
use media_hub.Service.State.{OutputState}
use media_hub.Audio.{
  SinkInfo, Pattern, State, no_index, created, is_port_available_on_sink, query_from_server,
}
use media_hub.Audio.Callbacks.{
  on_context_ready, on_query_for_active_sink_finished, state_after, state_on,
  on_query_for_primary_sink_finished, on_query_for_server_info_finished, context_notification_cb,
  ContextState, Callback, dispatch, run,
}
use media_hub.Audio.Mirror.{
  IsMirror, external-assign, ready-IsMirror, primary-IsMirror, active-IsMirror, server-IsMirror,
}

-- What an answer on a sink does to the sinks and to the external state of one output.
external-primary :
    (info : SinkInfo) (pattern : Pattern) (s : State)
    → IsMirror pattern s
    → (on_query_for_primary_sink_finished info s).external_output_state ≡ (
        if s.active_index == info.index
        then (if is_port_available_on_sink info.ports pattern
            then OutputState.earpiece
            else (if info.index == s.primary_sink_index
                then OutputState.speaker
                else OutputState.external))
        else s.external_output_state)
unfolding on_query_for_primary_sink_finished state_after state_on
external-primary info pattern s h = external-assign (state_after info s) pattern s h

external-active :
    (info : SinkInfo) (pattern : Pattern) (s : State)
    → IsMirror pattern s
    → s.active_index == info.index ≡ false
    → let t = on_query_for_active_sink_finished info s in
      (t.active_index ≡ info.index)
      × (t.primary_sink_index ≡ s.primary_sink_index)
      × (t.external_output_state ≡ (
          if info.index == s.primary_sink_index
          then s.external_output_state
          else OutputState.external))
unfolding on_query_for_active_sink_finished
external-active info pattern s h n =
    let t : State = record s { active_index = info.index; active_name = info.name } in
    let e = external-assign (λ o. OutputState.external) pattern t h in
    elim (Bool-cases (info.index == s.primary_sink_index)) [
      | inl p ↦ rw (n, p) (refl, refl, refl)
      | inr p ↦ rw (n, p) (refl, refl, e)
    ]

-- An observer of one output at two sinks and an external state.
abbrev IsAt : Pattern → ℕ → ℕ → OutputState → State → Type 0
IsAt pattern active primary state s =
    IsMirror pattern s
    × (s.active_index ≡ active)
    × (s.primary_sink_index ≡ primary)
    × (s.external_output_state ≡ state)

ready-IsAt :
    (pattern : Pattern) (a p : ℕ) (e : OutputState) (s : State)
    → IsAt pattern a p e s
    → IsAt pattern a p e (on_context_ready s)
unfolding on_context_ready
ready-IsAt pattern a p e s (m, ha, hp, he) =
    let n = ready-IsMirror pattern s m in (n, ground arith, ground arith, ground arith)

server-IsAt :
    (pattern : Pattern) (a p : ℕ) (e : OutputState) (name : Text) (s : State)
    → IsAt pattern a p e s
    → IsAt pattern a p e (on_query_for_server_info_finished (some name) s)
unfolding on_query_for_server_info_finished
server-IsAt pattern a p e name s (m, ha, hp, he) =
    let n = server-IsMirror pattern (some name) s m in (n, ground arith, ground arith, ground arith)

active-IsAt :
    (pattern : Pattern) (a p : ℕ) (e : OutputState) (info : SinkInfo) (s : State)
    → a == info.index ≡ false
    → IsAt pattern a p e s
    → IsAt pattern info.index p
        (if info.index == p then e else OutputState.external)
        (on_query_for_active_sink_finished info s)
active-IsAt pattern a p e info s n (m, ha, hp, he) =
    let (ea, ep, ee) = external-active info pattern s m (ap (λ k. k == info.index) ha ∙ n) in
    (
      active-IsMirror pattern info s m,
      ea,
      ep ∙ hp,
      ee
          ∙ ap (λ k. if info.index == k then s.external_output_state else OutputState.external) hp
          ∙ ap (λ o. if info.index == p then o else OutputState.external) he,
    )

abbrev state_of : SinkInfo → Pattern → ℕ → ℕ → OutputState → OutputState
state_of info pattern a p e =
    if a == info.index
    then (if is_port_available_on_sink info.ports pattern
        then OutputState.earpiece
        else (if info.index == p then OutputState.speaker else OutputState.external))
    else e

primary-IsAt :
    (pattern : Pattern) (a p : ℕ) (e : OutputState) (info : SinkInfo) (s : State)
    → IsAt pattern a p e s
    → IsAt pattern a
        (if p == no_index then info.index else p)
        (state_of info pattern a p e)
        (on_query_for_primary_sink_finished info s)
unfolding on_query_for_primary_sink_finished
primary-IsAt pattern a p e info s (m, ha, hp, he) = (
  primary-IsMirror pattern info s m,
  ha,
  ap (λ k. if k == no_index then info.index else k) hp,
  external-primary info pattern s m
      ∙ ap (λ k. state_of info pattern k s.primary_sink_index s.external_output_state) ha
      ∙ ap (λ k. state_of info pattern a k s.external_output_state) hp
      ∙ ap (λ o. state_of info pattern a p o) he,
)

abbrev observer : Text → Pattern → State
observer sink pattern = created (record { sink = sink; output_port_patterns = pattern ∷ [] })

created-IsAt :
    (sink : Text) (pattern : Pattern)
    → IsAt pattern no_index no_index OutputState.speaker (observer sink pattern)
unfolding created
created-IsAt sink pattern = (refl, refl, refl, refl)

abbrev pub answers : SinkInfo → SinkInfo → List Callback
answers primary active =
    Callback.context_notification true ContextState.ready
    ∷ Callback.primary_sink true (some primary)
    ∷ Callback.server_info true (some (some active.name))
    ∷ Callback.active_sink true (some active)
    ∷ Callback.primary_sink true (some primary)
    ∷ []

settled :
    (available : Bool) (active primary : ℕ) (e : OutputState)
    → (if active == primary
        then (if available
            then OutputState.earpiece
            else (if primary == primary then OutputState.speaker else OutputState.external))
        else (if active == primary then e else OutputState.external))
      ≡ (if active == primary
          then (if available then OutputState.earpiece else OutputState.speaker)
          else OutputState.external)
settled available active primary e = ground arith

-- An observer of one pattern and a named sink, whose queries are answered in their order, says "external" where the active sink is another than the named one, and else "earpiece" where a port of the pattern is available and "speaker" where none is; the active sink has an index.
pub startup_correct :
    (sink : Text) (pattern : Pattern) (primary active : SinkInfo)
    → no_index == active.index ≡ false
    → (run (answers primary active) (
        created
          (record { sink = sink; output_port_patterns = pattern ∷ [] }))).external_output_state
      ≡ (if active.index == primary.index
          then (if is_port_available_on_sink primary.ports pattern
              then OutputState.earpiece
              else OutputState.speaker)
          else OutputState.external)
unfolding run dispatch context_notification_cb
startup_correct sink pattern primary active n =
    let s0 = observer sink pattern in
    let s1 = on_context_ready s0 in
    let s2 = on_query_for_primary_sink_finished primary s1 in
    let s3 = on_query_for_server_info_finished (some active.name) s2 in
    let s4 = on_query_for_active_sink_finished active s3 in
    let i1 =
      ready-IsAt pattern no_index no_index OutputState.speaker s0 (created-IsAt sink pattern) in
    let i2 = primary-IsAt pattern no_index no_index OutputState.speaker primary s1 i1 in
    let e2 = state_of primary pattern no_index no_index OutputState.speaker in
    let i3 = server-IsAt pattern no_index primary.index e2 active.name s2 i2 in
    let i4 = active-IsAt pattern no_index primary.index e2 active s3 n i3 in
    let e4 = if active.index == primary.index then e2 else OutputState.external in
    let (_, _, _, e5) = primary-IsAt pattern active.index primary.index e4 primary s4 i4 in
    e5 ∙ settled (is_port_available_on_sink primary.ports pattern) active.index primary.index e2

same_index : (n : ℕ) → (if n == no_index then n else n) ≡ n
same_index n = ground arith

settled_again :
    (available : Bool) (index : ℕ) (e : OutputState)
    → (if index == index
        then (if available
            then OutputState.earpiece
            else (if index == index then OutputState.speaker else OutputState.external))
        else e)
      ≡ (if available then OutputState.earpiece else OutputState.speaker)
settled_again available index e = ground arith

-- The answers where the sink is queried from the server. PulseAudio takes the index of a primary sink that is not known, -1, for its default sink.
abbrev pub server_answers : SinkInfo → List Callback
server_answers info =
    Callback.context_notification true ContextState.ready
    ∷ Callback.server_info true (some (some info.name))
    ∷ Callback.active_sink true (some info)
    ∷ Callback.primary_sink true (some info)
    ∷ Callback.primary_sink true (some info)
    ∷ []

-- Where the sink is queried from the server and the three queries about the default sink are answered in their order, this sink is the active and the primary one, and an observer of one pattern says "earpiece" where a port of the pattern is available on it and "speaker" where none is.
pub server_query_correct :
    (pattern : Pattern) (info : SinkInfo)
    → no_index == info.index ≡ false
    → let s =
        run
          (server_answers info)
          (created (record { sink = query_from_server; output_port_patterns = pattern ∷ [] })) in
      (s.primary_sink_index ≡ info.index)
      × (s.active_index ≡ info.index)
      × (s.external_output_state ≡ (
          if is_port_available_on_sink info.ports pattern
          then OutputState.earpiece
          else OutputState.speaker))
unfolding run dispatch context_notification_cb
server_query_correct pattern info n =
    let s0 = observer query_from_server pattern in
    let s1 = on_context_ready s0 in
    let s2 = on_query_for_server_info_finished (some info.name) s1 in
    let s3 = on_query_for_active_sink_finished info s2 in
    let s4 = on_query_for_primary_sink_finished info s3 in
    let i1 =
      ready-IsAt pattern no_index no_index OutputState.speaker s0
        (created-IsAt query_from_server pattern) in
    let i2 = server-IsAt pattern no_index no_index OutputState.speaker info.name s1 i1 in
    let i3 = active-IsAt pattern no_index no_index OutputState.speaker info s2 n i2 in
    let e3 = if info.index == no_index then OutputState.speaker else OutputState.external in
    let i4 = primary-IsAt pattern info.index no_index e3 info s3 i3 in
    let e4 = state_of info pattern info.index no_index e3 in
    let (_, a5, p5, e5) = primary-IsAt pattern info.index info.index e4 info s4 i4 in
    (
      p5 ∙ same_index info.index,
      a5,
      e5 ∙ settled_again (is_port_available_on_sink info.ports pattern) info.index e4,
    )
