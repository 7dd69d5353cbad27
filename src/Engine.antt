-- ===== src/Engine.antt =====
-- gstreamer::Engine: src/core/media/gstreamer/engine.cpp. The pipeline's answers are arguments.
use media_hub.Prelude.{
  ℕ, suc, ◌≡◌, Bool, true, false, not, ◌&&◌, List, [], ◌∷◌, Text, codes, text_eq, if◌then◌else◌,
}
use media_hub.Media.{PlaybackStatus, PlayerError, EngineState, AudioStreamRole, Lifetime}
pub mod Errors
pub mod Commands
pub mod Tags

pub data GstState : Type 0 where
  void_pending null ready paused playing : GstState

-- A GError of one of the domains that the code reads, with the codes that it names.
pub data CoreCode : Type 0 where
  failed negotiation missing_plugin other_code : CoreCode

pub data ResourceCode : Type 0 where
  failed not_found open_read open_write read write not_authorized other_code : ResourceCode

pub data StreamCode : Type 0 where
  failed codec_not_found decode other_code : StreamCode

pub data GError : Type 0 where
  core : CoreCode → GError
  resource : ResourceCode → GError
  stream : StreamCode → GError
  other_domain : GError

-- The calls of the pipeline and the signals to the player.
pub data Output : Type 0 where
  set_state : GstState → Output
  reset : Output
  playback_status_changed : PlaybackStatus → Output
  error : PlayerError → Output
  about_to_finish : Output

pub record State : Type 0 where
  pub state : EngineState
  pub output : List Output  -- the latest first

abbrev pub put_out : Output → State → State
put_out o s = record s { output = o ∷ s.output }

unfoldable pub gst_state_to_player_status : GstState → PlaybackStatus
gst_state_to_player_status GstState.playing = PlaybackStatus.playing
gst_state_to_player_status GstState.paused = PlaybackStatus.paused
gst_state_to_player_status GstState.ready = PlaybackStatus.ready
gst_state_to_player_status GstState.null = PlaybackStatus.null
gst_state_to_player_status GstState.void_pending = PlaybackStatus.stopped

abbrev pub is_paused : PlaybackStatus → Bool
is_paused PlaybackStatus.paused = true
is_paused _ = false

-- `playbin.reset()`, which signals that the client is gone: `disconnected` is what the handler of
-- that signal, which is the player's, makes of the engine.
abbrev pub reset_playbin : (State → State) → State → State
reset_playbin disconnected s = disconnected (put_out Output.reset s)

unfoldable pub on_playbin_state_changed : (State → State) → Bool → GstState → Text → State → State
on_playbin_state_changed disconnected can_play_streams new_state source s =
    let status = gst_state_to_player_status new_state in
    if text_eq source (codes "playbin")
    then (if is_paused status && not can_play_streams
        then put_out (Output.error PlayerError.format_error) (reset_playbin disconnected s)
        else put_out (Output.playback_status_changed status) s)
    else s

unfoldable pub from_gst_error : GError → PlayerError
from_gst_error (GError.core CoreCode.failed) = PlayerError.resource_error
from_gst_error (GError.core CoreCode.negotiation) = PlayerError.resource_error
from_gst_error (GError.core CoreCode.missing_plugin) = PlayerError.format_error
from_gst_error (GError.core CoreCode.other_code) = PlayerError.no_error
from_gst_error (GError.resource ResourceCode.failed) = PlayerError.resource_error
from_gst_error (GError.resource ResourceCode.not_found) = PlayerError.resource_error
from_gst_error (GError.resource ResourceCode.open_read) = PlayerError.resource_error
from_gst_error (GError.resource ResourceCode.open_write) = PlayerError.resource_error
from_gst_error (GError.resource ResourceCode.read) = PlayerError.resource_error
from_gst_error (GError.resource ResourceCode.write) = PlayerError.resource_error
from_gst_error (GError.resource ResourceCode.not_authorized) = PlayerError.access_denied_error
from_gst_error (GError.resource ResourceCode.other_code) = PlayerError.no_error
from_gst_error (GError.stream StreamCode.failed) = PlayerError.resource_error
from_gst_error (GError.stream StreamCode.codec_not_found) = PlayerError.no_error
from_gst_error (GError.stream StreamCode.decode) = PlayerError.format_error
from_gst_error (GError.stream StreamCode.other_code) = PlayerError.no_error
from_gst_error GError.other_domain = PlayerError.no_error

abbrev pub is_no_error : PlayerError → Bool
is_no_error PlayerError.no_error = true
is_no_error _ = false

-- The error, and the reset of the pipeline for one that cannot be recovered from.
unfoldable pub from_gst_errorwarning : (State → State) → GError → State → PlayerError × State
from_gst_errorwarning disconnected g s =
    let e = from_gst_error g in (e, if not (is_no_error e) then reset_playbin disconnected s else s)

-- `on_playbin_error`, and `on_playbin_warning`, which is the same.
unfoldable pub on_playbin_error : (State → State) → GError → State → State
on_playbin_error disconnected g s =
    let (e, t) = from_gst_errorwarning disconnected g s in
    if not (is_no_error e) then put_out (Output.error e) t else t

unfoldable pub on_about_to_finish : State → State
on_about_to_finish s = put_out Output.about_to_finish (record s { state = EngineState.ready })

-- A change of the pipeline's state that it accepts or refuses.
abbrev pub try_state : GstState → EngineState → PlaybackStatus → Bool → State → Bool × State
try_state g e p accepted s =
    let t = put_out (Output.set_state g) s in
    (
      accepted,
      if accepted then put_out (Output.playback_status_changed p) (record t { state = e }) else t,
    )

unfoldable pub play : Bool → State → Bool × State
play accepted = try_state GstState.playing EngineState.playing PlaybackStatus.playing accepted

abbrev pub is_stopped : EngineState → Bool
is_stopped EngineState.stopped = true
is_stopped _ = false

unfoldable pub stop : Bool → State → Bool × State
stop accepted s =
    if is_stopped s.state
    then (true, s)
    else try_state GstState.null EngineState.stopped PlaybackStatus.stopped accepted s

unfoldable pub pause : Bool → State → Bool × State
pause accepted = try_state GstState.paused EngineState.paused PlaybackStatus.paused accepted
