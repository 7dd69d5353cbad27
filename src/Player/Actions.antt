-- ===== src/Player/Actions.antt =====
-- The player's operations and the engine's signals, on the player that Glue puts together. The
-- answers of the pipeline and of the service are arguments.
use media_hub.Prelude.{
  Bool, true, false, ◌&&◌, Option, none, some, [], ◌∷◌, codes, text_eq, if◌then◌else◌,
}
use media_hub.Media.{AudioStreamRole}
use media_hub.Engine
use media_hub.Player.Wakelocks
use media_hub.TrackList.State.{TrackId, UriType, Outcome, done, threw, fault}
use media_hub.TrackList.Cursor.{current}
use media_hub.TrackList.Navigation
use media_hub.TrackList.Editing
use media_hub.TrackList.Editing.{query_uri_for_track, add_track_with_uri_at}
use media_hub.Player.Glue.{
  Player, Pipeline, Output, put_out, with_engine, open_resource, open_if_any, on_list, ◌then◌,
}

unfoldable pub next : Pipeline → Player → Option (TrackId × Player)
unfolding on_list
next p s = on_list p Navigation.next s

unfoldable pub previous : Pipeline → Player → Option (TrackId × Player)
unfolding on_list
previous p s = on_list p Navigation.previous s

-- `TrackList::after_empty_track()`.
abbrev pub after_empty_track : TrackId
after_empty_track = codes "/org/mpris/MediaPlayer2/TrackList/NoTrack"

-- The empty uri only empties the list.
unfoldable pub open_uri : Pipeline → UriType → Player → Option (Bool × Player)
unfolding on_list
open_uri p [] s = on_list p Editing.reset s then λ r. some (true, r.1)
open_uri p (c ∷ cs) s = on_list p Editing.reset s then λ r.
    on_list p (add_track_with_uri_at (c ∷ cs) after_empty_track false)
      (open_resource (c ∷ cs) false r.1)
    then λ q. some (true, q.1)

-- With headers, no track is added; the engine's default is to reset the pipeline.
unfoldable pub open_uri_extended : UriType → Player → Bool × Player
open_uri_extended uri s = (true, open_resource uri true s)

abbrev pub is_multimedia : AudioStreamRole → Bool
is_multimedia AudioStreamRole.multimedia = true
is_multimedia _ = false

unfoldable pub pause_other_players : Player → Bool × Player
pause_other_players s =
    if s.has_service then (true, put_out Output.pause_other_sessions s) else (false, s)

unfoldable pub update_current_player : Player → Bool × Player
update_current_player s =
    if s.has_service then (true, put_out Output.set_current_player s) else (false, s)

unfoldable pub reset_current_player : Player → Bool × Player
reset_current_player s =
    if s.has_service then (true, put_out Output.reset_current_player s) else (false, s)

unfoldable pub play : Pipeline → Player → Player
unfolding with_engine pause_other_players update_current_player
play p s =
    let t =
      if is_multimedia s.audio_stream_role
      then (update_current_player (pause_other_players s).1).1
      else s in
    with_engine (Engine.play p.plays t.engine).1 t

unfoldable pub pause : Bool → Player → Player
unfolding with_engine
pause accepted s = with_engine (Engine.pause accepted s.engine).1 s

unfoldable pub stop : Pipeline → Player → Player
unfolding with_engine
stop p s = with_engine (Engine.stop p.stops s.engine).1 s

-- `is_current`: what the service answers, which is no without a service.
unfoldable pub is_current_player : Bool → Player → Bool
is_current_player is_current s = s.has_service && is_current

-- The signal of the engine: the client has gone.
unfoldable pub on_client_disconnected : Pipeline → Bool → Player → Option Player
unfolding on_list is_current_player reset_current_player
on_client_disconnected p is_current s =
    on_list p Editing.reset (record s { wakelocks = Wakelocks.clear_wakelocks s.wakelocks })
    then λ r. some (
        put_out Output.client_disconnected (
          if is_multimedia r.1.audio_stream_role && is_current_player is_current r.1
          then (reset_current_player r.1).1
          else r.1))

-- `engine->reset()`, which resets the playbin, and that signals the client's going.
unfoldable pub on_client_died : Pipeline → Bool → Player → Option Player
unfolding on_client_disconnected
on_client_died p is_current s = on_client_disconnected p is_current s

unfoldable pub abandon : Pipeline → Bool → Player → Option Player
unfolding on_client_died
abandon p is_current s = on_client_died p is_current (record s { doing_abandon = true })

-- Another client's death, and the death of one that has been abandoned, change nothing.
unfoldable pub on_client_with_key_died : Pipeline → Bool → Bool → Player → Option Player
unfolding on_client_died
on_client_with_key_died p is_current is_own_key s =
    if s.doing_abandon then some s else if is_own_key then on_client_died p is_current s else some s

-- Nothing is opened for the same track.
abbrev pub advance_to : Bool → UriType → Player → Player
advance_to true uri s = s
advance_to false uri s = open_if_any uri false s

abbrev pub with_current : {A : Type 0} → Outcome A → Player → Option (A × Player)
with_current (done a t) s = some (a, record s { list = t })
with_current (threw e t) s = none
with_current fault s = none

-- The tracks' part, with the mutex locked.
unfoldable pub advance_list : Pipeline → Player → Option Player
unfolding on_list
advance_list p s = with_current (current s.list) s then λ before.
    on_list p Navigation.next before.1 then λ r. with_current (current r.1.list) r.1 then λ after.
    some (advance_to (text_eq before.0 after.0) (query_uri_for_track r.1.list r.0) after.1)

unfoldable pub unlock : Player → Player
unlock s = record s { doing_go_to_track = false }

-- `lock()` of a mutex that the thread holds is undefined.
unfoldable pub about_to_finish_handler : Pipeline → Player → Option Player
unfolding advance_list unlock
about_to_finish_handler p s =
    if s.doing_abandon
    then some s
    else if s.doing_go_to_track
    then none
    else advance_list p (put_out Output.about_to_finish (record s { doing_go_to_track = true }))
      then λ t. some (unlock t)

-- The engine first changes its state.
unfoldable pub on_about_to_finish : Pipeline → Player → Option Player
unfolding about_to_finish_handler with_engine
on_about_to_finish p s =
    about_to_finish_handler p (with_engine (Engine.on_about_to_finish s.engine) s)
