-- ===== src/Audio/Primary.antt =====
-- The primary sink: src/core/media/audio/pulse_audio_output_observer.cpp.
use media_hub.Prelude.{
  ◌≡◌, ◌≢◌, refl, sym, ◌∙◌, true, false, Option, none, some, List, [], ◌∷◌, Text, arith,
}
use media_hub.Audio.{SinkInfo, State, no_index}
use media_hub.Audio.Callbacks.{
  on_context_ready, on_context_failed, on_sink_event_with_index, on_query_for_active_sink_finished,
  on_query_for_primary_sink_finished, on_query_for_server_info_finished, context_notification_cb,
  ContextState, Callback, dispatch, run,
}

-- The primary sink that a state has is the one that another had, unless that one had none.
abbrev IsKept : State → State → Type 0
IsKept s t = s.primary_sink_index ≢ no_index → t.primary_sink_index ≡ s.primary_sink_index

ready-IsKept : (s : State) → IsKept s (on_context_ready s)
unfolding on_context_ready
ready-IsKept s n = ground arith

active-IsKept : (info : SinkInfo) (s : State) → IsKept s (on_query_for_active_sink_finished info s)
unfolding on_query_for_active_sink_finished
active-IsKept info s n = ground arith

primary-IsKept :
    (info : SinkInfo) (s : State) → IsKept s (on_query_for_primary_sink_finished info s)
unfolding on_query_for_primary_sink_finished
primary-IsKept info s n = ground arith

server-IsKept :
    (name : Option Text) (s : State) → IsKept s (on_query_for_server_info_finished name s)
unfolding on_query_for_server_info_finished
server-IsKept none s n = refl
server-IsKept (some name) s n = ground arith

dispatch-IsKept : (c : Callback) (s : State) → IsKept s (dispatch c s)
unfolding dispatch context_notification_cb on_context_failed on_sink_event_with_index
dispatch-IsKept (Callback.context_notification false c) s n = refl
dispatch-IsKept (Callback.context_notification true ContextState.ready) s n = ready-IsKept s n
dispatch-IsKept (Callback.context_notification true ContextState.failed) s n = refl
dispatch-IsKept (Callback.context_notification true ContextState.other) s n = refl
dispatch-IsKept (Callback.context_subscription true true index) s n = refl
dispatch-IsKept (Callback.context_subscription true false index) s n = refl
dispatch-IsKept (Callback.context_subscription false b index) s n = refl
dispatch-IsKept (Callback.active_sink true (some info)) s n = active-IsKept info s n
dispatch-IsKept (Callback.active_sink true none) s n = refl
dispatch-IsKept (Callback.active_sink false o) s n = refl
dispatch-IsKept (Callback.primary_sink true (some info)) s n = primary-IsKept info s n
dispatch-IsKept (Callback.primary_sink true none) s n = refl
dispatch-IsKept (Callback.primary_sink false o) s n = refl
dispatch-IsKept (Callback.server_info true (some name)) s n = server-IsKept name s n
dispatch-IsKept (Callback.server_info true none) s n = refl
dispatch-IsKept (Callback.server_info false o) s n = refl

-- Once a primary sink is known, no run of callbacks, in any order, replaces it.
pub primary_stays :
    (cs : List Callback) (s : State)
    → s.primary_sink_index ≢ no_index
    → (run cs s).primary_sink_index ≡ s.primary_sink_index
unfolding run
primary_stays [] s n = refl
primary_stays (c ∷ cs) s n =
    let e = dispatch-IsKept c s n in primary_stays cs (dispatch c s) (λ q. n (sym e ∙ q)) ∙ e
