-- ===== src/Player/Requests.antt =====
-- player_skeleton.cpp: what a player does with a client's request. The client's context is known
-- when a request to open a uri is carried out.
use media_hub.Prelude.{ℕ, ◌-◌, ◌^◌, Bool, true, false, Option, none, some, if◌then◌else◌, ltb}
use media_hub.Prelude.Int.{ℤ, pos, negsuc}
use media_hub.Media.{PlaybackStatus}
use media_hub.Apparmor.Context.{Context}
use media_hub.Apparmor.Authenticator.{Verdict, authenticate, is_allowed}
use media_hub.UriCheck.{Glib, UriCheck, is_valid_uri, set}
use media_hub.TrackList.State.{UriType}
use media_hub.Playbin.State.{State as PlaybinState}
use media_hub.Playbin.Position.{seek}
use media_hub.Playbin.Messages.{Socket, create_video_sink}
use media_hub.Player.Glue.{Player, Pipeline, ◌then◌}
use media_hub.Player.Actions.{next, previous, play, pause, open_uri, open_uri_extended}

-- No result where the track list reads through a bad iterator.
unfoldable pub handle_next : Pipeline → Player → Option Player
handle_next p s = next p s then λ r. some r.1

unfoldable pub handle_previous : Pipeline → Player → Option Player
handle_previous p s = previous p s then λ r. some r.1

-- `pauses` is the pipeline's answer to a pause.
unfoldable pub handle_play_pause : Pipeline → Bool → Player → Player
handle_play_pause p pauses s = elim s.wakelocks.playback_status [
  | PlaybackStatus.ready ↦ play p s
  | PlaybackStatus.paused ↦ play p s
  | PlaybackStatus.stopped ↦ play p s
  | PlaybackStatus.playing ↦ pause pauses s
  | PlaybackStatus.null ↦ s
]

-- A uint64_t as an int64_t.
abbrev pub to_signed : ℕ → ℤ
to_signed n = if ltb n (2 ^ 63) then pos n else negsuc (2 ^ 64 - 1 - n)

-- The seek's answer is ignored; no result is undefined behaviour.
unfoldable pub handle_seek : Bool → ℕ → PlaybinState → Option PlaybinState
handle_seek accepted ticks s = seek accepted (to_signed ticks) s then λ r. some r.1

pub data SinkReply : Type 0 where
  ok : SinkReply
  out_of_process_buffer_streaming_not_supported : SinkReply

abbrev sink_made : PlaybinState → Option PlaybinState → SinkReply × PlaybinState
sink_made s none = (SinkReply.out_of_process_buffer_streaming_not_supported, s)
sink_made s (some t) = (SinkReply.ok, t)

-- Every exception is caught, and what throws has changed nothing.
unfoldable pub handle_create_video_sink : Socket → PlaybinState → SinkReply × PlaybinState
handle_create_video_sink k s = sink_made s (create_video_sink k s)

pub data OpenReply : Type 0 where
  result : Bool → OpenReply
  uri_not_found : OpenReply
  insufficient_apparmor_permissions : OpenReply

-- A request to open: an answer, the exception of a uri that does not parse, or undefined behaviour.
pub data Opened : Type 0 where
  answered : UriCheck → OpenReply → Player → Opened
  unparsable : Opened
  undefined : Opened

abbrev pub opened : UriCheck → Option (Bool × Player) → Opened
opened k none = Opened.undefined
opened k (some (b, t)) = Opened.answered k (OpenReply.result b) t

abbrev pub open_allowed : UriCheck → Player → Option (Bool × Player) → Option Verdict → Opened
open_allowed k s o none = Opened.unparsable
open_allowed k s o (some v) =
    if is_allowed v
    then opened k o
    else Opened.answered k OpenReply.insufficient_apparmor_permissions s

-- The authenticator is asked only about a uri that is not a missing file.
abbrev pub open_valid : Bool → UriCheck → Player → Option (Bool × Player) → Option Verdict → Opened
open_valid true k s o v = open_allowed k s o v
open_valid false k s o v = Opened.answered k OpenReply.uri_not_found s

unfoldable pub handle_open_uri : Pipeline → Glib → Context → UriType → UriCheck → Player → Opened
handle_open_uri p g c uri k s =
    let l = set g uri k in open_valid (is_valid_uri l) l s (open_uri p uri s) (authenticate c uri)

unfoldable pub handle_open_uri_extended : Glib → Context → UriType → UriCheck → Player → Opened
handle_open_uri_extended g c uri k s =
    let l = set g uri k in
    open_valid (is_valid_uri l) l s (some (open_uri_extended uri s)) (authenticate c uri)
