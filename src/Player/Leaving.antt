-- ===== src/Player/Leaving.antt =====
-- What the going of the client leaves of its player.
use media_hub.Prelude.{
  ℕ, suc, ◌≡◌, refl, Bool, true, false, ◌&&◌, none, some, List, [], arith, if◌then◌else◌,
}
use media_hub.Prelude.Int.{pos}
use media_hub.Media.{PlaybackStatus, EngineState}
use media_hub.Engine
use media_hub.Player.Wakelocks
use media_hub.Player.Wakelocks.{Request, WakelockClear, clear_wakelocks}
use media_hub.TrackList.State.{UriType, null}
use media_hub.TrackList.Cursor.{current}
use media_hub.Player.Glue.{Player, Pipeline, Output, put_out, with_engine}
use media_hub.Player.Actions.{
  on_client_disconnected, open_uri_extended, on_about_to_finish, about_to_finish_handler,
  advance_list, is_current_player, reset_current_player, is_multimedia,
}
use media_hub.Player.Opening.{after_reset, reset_lem}

abbrev pub cleared : Player → Player
cleared s = record s { wakelocks = clear_wakelocks s.wakelocks }

-- The last part of the handler.
abbrev pub told : Bool → Player → Player
told is_current s = put_out Output.client_disconnected (
    if is_multimedia s.audio_stream_role && is_current_player is_current s
    then (reset_current_player s).1
    else s)

pub on_client_disconnected_lem :
    (p : Pipeline) (is_current : Bool) (s : Player)
    → on_client_disconnected p is_current s ≡ some (told is_current (after_reset p (cleared s)))
unfolding on_client_disconnected
on_client_disconnected_lem p is_current s = ground (arith, reset_lem p (cleared s))

-- What a step of the handler leaves alone.
abbrev pub IsSame : Player → Player → Type 0
IsSame s t = (t.list ≡ s.list) × (t.engine ≡ s.engine) × (t.wakelocks ≡ s.wakelocks)

reset_current_player-IsSame : (s : Player) → IsSame s (reset_current_player s).1
unfolding reset_current_player
reset_current_player-IsSame s = ground arith

pub told-IsSame : (is_current : Bool) (s : Player) → IsSame s (told is_current s)
told-IsSame is_current s = go (is_multimedia s.audio_stream_role && is_current_player is_current s)
  where
    go :
        (a : Bool)
        → IsSame s
            (put_out Output.client_disconnected (if a then (reset_current_player s).1 else s))
    go true = reset_current_player-IsSame s
    go false = (refl, refl, refl)

-- A player that plays sound, with a positive count of its lock and no display lock, whose waiting clearings are `ts` and whose last requests are `rs`.
abbrev pub sounding : ℕ → List WakelockClear → List Request → Wakelocks.State
sounding n ts rs = record {
  is_video_source = false;
  playback_status = PlaybackStatus.playing;
  previous_state = EngineState.playing;
  system_wakelock_count = pos (suc n);
  display_wakelock_count = pos 0;
  timers = ts;
  requests = rs;
}

-- Opening a uri with headers adds no track: on a player whose list is empty, that is neither abandoned nor
-- changing tracks, the end of what was opened so is undefined, as the current track is read through the sentinel.
pub open_uri_extended-undefined :
    (p : Pipeline) (uri : UriType) (s : Player)
    → s.list.tracks ≡ []
    → s.list.current_track ≡ null
    → s.doing_abandon ≡ false
    → s.doing_go_to_track ≡ false
    → on_about_to_finish p (open_uri_extended uri s).1 ≡ none
unfolding open_uri_extended on_about_to_finish about_to_finish_handler advance_list with_engine
    current
open_uri_extended-undefined p uri s empty unset alive free = ground arith
