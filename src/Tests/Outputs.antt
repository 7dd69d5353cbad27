-- ===== src/Tests/Outputs.antt =====
-- The observer of audio outputs at concrete inputs: a speaker with a headphone jack, and a second sink.
use media_hub.Prelude.{◌≡◌, refl, [], ◌∷◌, codes, text_eq}
use media_hub.Service.State.{OutputState}
use media_hub.Audio.{
  Pattern, Available, PortInfo, SinkInfo, State, created, is_port_available_on_sink,
}
use media_hub.Audio.Callbacks.{run}
use media_hub.Audio.Mirror.{external_state-IsMirror}
use media_hub.Audio.Startup.{answers, server_answers, startup_correct, server_query_correct}

abbrev jack : Pattern
jack name = text_eq name (codes "output-wired_headset")

abbrev port : Available → PortInfo
port available = record {
  name = codes "output-wired_headset";
  description = codes "Headset";
  available = available;
}

abbrev onboard : Available → SinkInfo
onboard available = record { name = codes "sink.primary"; index = 1; ports = port available ∷ [] }

abbrev bluetooth : SinkInfo
bluetooth = record { name = codes "sink.bluez"; index = 2; ports = [] }

abbrev started : State
started =
    record (created (record { sink = codes "sink.primary"; output_port_patterns = jack ∷ [] })) {
      primary_sink_index = 1;
    }

startup_correct_example :
    (run (answers (onboard Available.yes) (onboard Available.yes)) (
      created (record {
        sink = codes "sink.primary";
        output_port_patterns = jack ∷ [];
      }))).external_output_state
    ≡ OutputState.earpiece
unfolding is_port_available_on_sink text_eq
startup_correct_example =
    startup_correct (codes "sink.primary") jack (onboard Available.yes) (onboard Available.yes) refl

plays_on_bluetooth :
    (run (answers (onboard Available.yes) bluetooth) (
      created (record {
        sink = codes "sink.primary";
        output_port_patterns = jack ∷ [];
      }))).external_output_state
    ≡ OutputState.external
plays_on_bluetooth =
    startup_correct (codes "sink.primary") jack (onboard Available.yes) bluetooth refl

server_query_correct_example :
    let s =
      run
        (server_answers (onboard Available.no))
        (created (record { sink = codes "query.from.server"; output_port_patterns = jack ∷ [] })) in
    (s.primary_sink_index ≡ 1)
    × (s.active_index ≡ 1)
    × (s.external_output_state ≡ OutputState.speaker)
unfolding is_port_available_on_sink
server_query_correct_example = server_query_correct jack (onboard Available.no) refl

external_state-IsMirror_example :
    let s =
      run
        (answers (onboard Available.yes) bluetooth)
        (created (record { sink = codes "sink.primary"; output_port_patterns = jack ∷ [] })) in
    s.outputs ≡ record { pattern = jack; state = s.external_output_state } ∷ []
external_state-IsMirror_example =
    external_state-IsMirror (codes "sink.primary") jack (answers (onboard Available.yes) bluetooth)
