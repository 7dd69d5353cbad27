-- ===== src/Audio.antt =====
-- audio::PulseAudioOutputObserver: src/core/media/audio/pulse_audio_output_observer.cpp. PulseAudio
-- answers by callbacks on its one thread, and only while the context is connected, so that the
-- guards of the namespace pa hold.
use media_hub.Prelude.{
  ℕ, ◌-◌, ◌^◌, ◌≡◌, Bool, true, false, not, ◌&&◌, ◌||◌, Option, none, some, List, [], ◌∷◌, Text,
  codes, text_eq, if◌then◌else◌, ◌==◌,
}
use media_hub.Service.State.{OutputState}
pub mod Callbacks
pub mod Primary
pub mod Mirror
pub mod Startup

-- std::regex_match of the pattern.
abbrev pub Pattern : Type 0
Pattern = Text → Bool

pub data Available : Type 0 where
  unknown no yes : Available

pub record PortInfo : Type 0 where
  pub name : Text
  pub description : Text
  pub available : Available

pub record SinkInfo : Type 0 where
  pub name : Text
  pub index : ℕ
  pub ports : List PortInfo

-- What the reporter is told of a port.
pub record Port : Type 0 where
  pub name : Text
  pub description : Text
  pub is_available : Bool
  pub is_monitored : Bool

pub record Configuration : Type 0 where
  pub sink : Text
  pub output_port_patterns : List Pattern

-- A pattern and the state of its output.
pub record Monitored : Type 0 where
  pub pattern : Pattern
  pub state : OutputState

pub data Query : Type 0 where
  active_sink primary_sink : Query

-- The calls of PulseAudio and of the reporter.
pub data Output : Type 0 where
  connect_async subscribe_to_events get_server_info : Output
  get_index_of_sink_by_name : Text → Query → Output
  get_sink_info_by_index : ℕ → Query → Output
  connected_to_pulse_audio query_for_default_sink_failed : Output
  query_for_default_sink_finished : Text → Output
  query_for_sink_info_finished : Text → ℕ → List Port → Output
  sink_event_with_index : ℕ → Output

-- The indices are 32-bit, and -1 stands by its bits.
abbrev pub no_index : ℕ
no_index = 2 ^ 32 - 1

pub record State : Type 0 where
  pub config_sink : Text
  pub primary_sink_index : ℕ
  pub active_index : ℕ
  pub active_name : Text
  pub outputs : List Monitored
  pub sink : Text
  pub known_ports : List Port
  pub external_output_state : OutputState
  pub calls : List Output  -- the latest first

abbrev pub call : Output → State → State
call o s = record s { calls = o ∷ s.calls }

abbrev pub query_from_server : Text
query_from_server = codes "query.from.server"

unfoldable pub is_usable : Available → Bool
is_usable Available.unknown = false
is_usable Available.no = false
is_usable Available.yes = true

unfoldable pub is_port_available_on_sink : List PortInfo → Pattern → Bool
unfolding is_usable
is_port_available_on_sink [] pattern = false
is_port_available_on_sink (p ∷ ps) pattern =
    is_usable p.available && pattern p.name || is_port_available_on_sink ps pattern

abbrev monitored : Pattern → Monitored
monitored pattern = record { pattern = pattern; state = OutputState.speaker }

abbrev all_monitored : List Pattern → List Monitored
all_monitored [] = []
all_monitored (p ∷ ps) = monitored p ∷ all_monitored ps

unfoldable pub created : Configuration → State
created config = record {
  config_sink = config.sink;
  primary_sink_index = no_index;
  active_index = no_index;
  active_name = [];
  outputs = all_monitored config.output_port_patterns;
  sink = [];
  known_ports = [];
  external_output_state = OutputState.speaker;
  calls = Output.connect_async ∷ [];
}

unfoldable pub same_state : OutputState → OutputState → Bool
same_state OutputState.earpiece OutputState.earpiece = true
same_state OutputState.speaker OutputState.speaker = true
same_state OutputState.external OutputState.external = true
same_state _ _ = false

-- The property of an output hands each change on to the external state.
abbrev handed : OutputState → OutputState → OutputState → OutputState
handed old new outer = if same_state old new then outer else new

-- Each output gets the state that the function says, in their order.
unfoldable pub assign_each :
    (Monitored → OutputState) → List Monitored → OutputState → List Monitored × OutputState
unfolding same_state
assign_each f [] outer = ([], outer)
assign_each f (o ∷ os) outer =
    let rest = assign_each f os (handed o.state (f o) outer) in
    (record o { state = f o } ∷ rest.0, rest.1)

abbrev pub assign : (Monitored → OutputState) → State → State
assign f s =
    let r = assign_each f s.outputs s.external_output_state in
    record s { outputs = r.0; external_output_state = r.1 }
