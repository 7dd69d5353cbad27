-- ===== src/Audio/Callbacks.antt =====
-- What PulseAudio's answers do: src/core/media/audio/pulse_audio_output_observer.cpp.
use media_hub.Prelude.{
  ℕ, Bool, true, false, ◌||◌, Option, none, some, List, [], ◌∷◌, ◌++◌, Text, text_eq, if◌then◌else◌,
  ◌==◌,
}
use media_hub.Service.State.{OutputState}
use media_hub.Audio.{
  PortInfo, SinkInfo, Port, Monitored, Query, Output, State, no_index, call, assign,
  query_from_server, is_port_available_on_sink, is_usable,
}

unfoldable pub on_context_ready : State → State
on_context_ready s =
    let t = call Output.subscribe_to_events (call Output.connected_to_pulse_audio s) in
    if text_eq s.config_sink query_from_server
    then call Output.get_server_info t
    else call Output.get_server_info (
        call (Output.get_index_of_sink_by_name s.config_sink Query.primary_sink)
          (record t { sink = s.config_sink }))

unfoldable pub on_context_failed : State → State
on_context_failed s = call Output.connect_async s

unfoldable pub on_sink_event_with_index : ℕ → State → State
on_sink_event_with_index index s =
    call Output.get_server_info (call (Output.sink_event_with_index index) s)

abbrev constant : OutputState → Monitored → OutputState
constant state o = state

unfoldable pub on_query_for_active_sink_finished : SinkInfo → State → State
on_query_for_active_sink_finished info s =
    if s.active_index == info.index
    then s
    else (let t = record s { active_index = info.index; active_name = info.name } in
        if info.index == s.primary_sink_index then t else assign (constant OutputState.external) t)

-- The state of an output by the ports of the active sink.
unfoldable pub state_on : SinkInfo → ℕ → Monitored → OutputState
state_on info primary o =
    if is_port_available_on_sink info.ports o.pattern
    then OutputState.earpiece
    else (if info.index == primary then OutputState.speaker else OutputState.external)

unfoldable pub state_after : SinkInfo → State → Monitored → OutputState
unfolding state_on
state_after info s o =
    if s.active_index == info.index then state_on info s.primary_sink_index o else o.state

unfoldable pub is_monitored_by : Text → List Monitored → Bool
is_monitored_by name [] = false
is_monitored_by name (o ∷ os) = o.pattern name || is_monitored_by name os

-- Ports are ordered and told apart by their names.
unfoldable pub has_port : Text → List Port → Bool
has_port name [] = false
has_port name (p ∷ ps) = text_eq p.name name || has_port name ps

unfoldable pub collect_ports : List PortInfo → List Monitored → List Port → List Port
unfolding has_port is_monitored_by is_usable
collect_ports [] outputs known = known
collect_ports (p ∷ ps) outputs known = collect_ports ps outputs (
    if has_port p.name known
    then known
    else known
      ++ (record {
        name = p.name;
        description = p.description;
        is_available = is_usable p.available;
        is_monitored = is_monitored_by p.name outputs;
      }
          ∷ []))

unfoldable pub on_query_for_primary_sink_finished : SinkInfo → State → State
unfolding state_after collect_ports
on_query_for_primary_sink_finished info s =
    let t = assign (state_after info s) s in
    let ports = collect_ports info.ports t.outputs [] in
    call (Output.query_for_sink_info_finished info.name info.index ports) (record t {
      known_ports = ports;
      primary_sink_index =
          if t.primary_sink_index == no_index then info.index else t.primary_sink_index;
    })

abbrev query_active : Text → State → State
query_active name s =
    if text_eq name s.active_name
    then s
    else call (Output.get_index_of_sink_by_name name Query.active_sink) s

abbrev take_default : Text → State → State
take_default name s =
    if text_eq s.sink s.config_sink
    then s
    else (let t = call (Output.query_for_default_sink_finished name) s in
        call (Output.get_index_of_sink_by_name name Query.primary_sink)
          (record t { sink = name; config_sink = name }))

-- The argument is the name of the default sink.
unfoldable pub on_query_for_server_info_finished : Option Text → State → State
on_query_for_server_info_finished none s = call Output.query_for_default_sink_failed s
on_query_for_server_info_finished (some name) s =
    let t = query_active name s in
    take_default name
      (call (Output.get_sink_info_by_index t.primary_sink_index Query.primary_sink) t)

pub data ContextState : Type 0 where
  ready failed other : ContextState

-- A callback: whether it is of this context, and what it carries. The answers on a sink come one
-- by one, and the end of the list, which has no sink, at last.
pub data Callback : Type 0 where
  context_notification : Bool → ContextState → Callback
  context_subscription : Bool → Bool → ℕ → Callback
  active_sink : Bool → Option SinkInfo → Callback
  primary_sink : Bool → Option SinkInfo → Callback
  server_info : Bool → Option (Option Text) → Callback

unfoldable pub context_notification_cb : ContextState → State → State
unfolding on_context_ready on_context_failed
context_notification_cb ContextState.ready s = on_context_ready s
context_notification_cb ContextState.failed s = on_context_failed s
context_notification_cb ContextState.other s = s

unfoldable pub dispatch : Callback → State → State
unfolding context_notification_cb on_sink_event_with_index on_query_for_active_sink_finished
    on_query_for_primary_sink_finished on_query_for_server_info_finished
dispatch (Callback.context_notification false c) s = s
dispatch (Callback.context_notification true c) s = context_notification_cb c s
dispatch (Callback.context_subscription true true index) s = on_sink_event_with_index index s
dispatch (Callback.context_subscription _ _ index) s = s
dispatch (Callback.active_sink true (some info)) s = on_query_for_active_sink_finished info s
dispatch (Callback.active_sink _ _) s = s
dispatch (Callback.primary_sink true (some info)) s = on_query_for_primary_sink_finished info s
dispatch (Callback.primary_sink _ _) s = s
dispatch (Callback.server_info true (some name)) s = on_query_for_server_info_finished name s
dispatch (Callback.server_info _ _) s = s

-- A run of callbacks, in any order.
unfoldable pub run : List Callback → State → State
unfolding dispatch
run [] s = s
run (c ∷ cs) s = run cs (dispatch c s)
