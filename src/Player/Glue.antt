-- ===== src/Player/Glue.antt =====
-- A player round its engine and its track list: src/core/media/player_implementation.cpp. The track
-- list's signals are handled in the order in which they were emitted, on the list as the operation
-- leaves it: after its last change an operation only emits, and the handler that runs earlier, that
-- of the list's end, does not read the list.
use media_hub.Prelude.{
  ℕ, suc, Bool, true, false, ◌||◌, Option, none, some, List, [], ◌∷◌, length, ltb, if◌then◌else◌,
  ◌==◌,
}
use media_hub.Media.{PlaybackStatus, LoopStatus, AudioStreamRole, EngineState}
use media_hub.Engine
use media_hub.Player.Wakelocks
use media_hub.TrackList.State.{
  State as ListState, TrackId, UriType, Signal, Outcome, done, threw, fault, M, ◌>>=◌,
}
use media_hub.TrackList.Cursor.{has_next, has_previous}
use media_hub.TrackList.Editing.{query_uri_for_track}

-- The calls of the service, and the signals to the outside.
pub data Output : Type 0 where
  pause_other_sessions : Output
  set_current_player : Output
  reset_current_player : Output
  about_to_finish : Output
  client_disconnected : Output

pub record Player : Type 0 where
  pub list : ListState
  pub engine : Engine.State
  pub wakelocks : Wakelocks.State  -- with the playback status
  pub audio_stream_role : AudioStreamRole
  pub has_service : Bool  -- config.parent.player_service
  pub doing_abandon : Bool
  pub doing_go_to_track : Bool  -- whether the mutex is locked
  pub opened : List (UriType × Bool)  -- engine->open_resource_for_uri, the latest first
  pub can_play : Bool
  pub can_pause : Bool
  pub can_go_previous : Bool
  pub can_go_next : Bool
  pub output : List Output  -- the latest first

-- Whether the pipeline accepts to play and to stop.
pub record Pipeline : Type 0 where
  pub plays : Bool
  pub stops : Bool

abbrev pub put_out : Output → Player → Player
put_out o s = record s { output = o ∷ s.output }

abbrev code_of : EngineState → ℕ
code_of EngineState.no_media = 0
code_of EngineState.ready = 1
code_of EngineState.busy = 2
code_of EngineState.playing = 3
code_of EngineState.paused = 4
code_of EngineState.stopped = 5

abbrev pub same_state : EngineState → EngineState → Bool
same_state a b = code_of a == code_of b

-- The engine after a command; a change of its state reaches the handler of the wakelocks.
unfoldable pub with_engine : Engine.State → Player → Player
with_engine e s = record s {
  engine = e;
  wakelocks =
      if same_state e.state s.engine.state
      then s.wakelocks
      else Wakelocks.state_change e.state s.wakelocks;
}

abbrev pub open_resource : UriType → Bool → Player → Player
open_resource uri do_pipeline_reset s = record s { opened = (uri, do_pipeline_reset) ∷ s.opened }

abbrev pub open_if_any : UriType → Bool → Player → Player
open_if_any [] do_pipeline_reset s = s
open_if_any (c ∷ cs) do_pipeline_reset s = open_resource (c ∷ cs) do_pipeline_reset s

unfoldable pub open_first_track_from_tracklist : TrackId → Player → Player
open_first_track_from_tracklist id s = open_if_any (query_uri_for_track s.list id) false s

abbrev pub loops : LoopStatus → Bool
loops LoopStatus.none = false
loops _ = true

-- What the properties are set to.
pub record Properties : Type 0 where
  pub previous : Bool
  pub next : Bool
  pub any : Bool

unfoldable pub properties : M Properties
properties = do
  p ← has_previous
  n ← has_next
  λ t.
      done
        (record {
          previous = p || loops t.loop_status;
          next = n || loops t.loop_status;
          any = ltb 0 (length t.tracks);
        })
        t

abbrev set_properties : Outcome Properties → Player → Option Player
set_properties (done r t) s = some (record s {
  list = t;
  can_play = r.any;
  can_pause = r.any;
  can_go_previous = r.previous;
  can_go_next = r.next;
})
set_properties (threw e t) s = none
set_properties fault s = none

-- No result where the track list reads through a bad iterator.
unfoldable pub update_mpris_properties : Player → Option Player
unfolding properties
update_mpris_properties s = set_properties (properties s.list) s

abbrev pub is_idle : EngineState → Bool
is_idle EngineState.ready = true
is_idle EngineState.stopped = true
is_idle _ = false

abbrev pub stop_unless : Bool → Pipeline → Player → Player
stop_unless true p s = s
stop_unless false p s = with_engine (Engine.stop p.stops s.engine).1 s

unfoldable pub on_end_of_tracklist : Pipeline → Player → Player
unfolding with_engine
on_end_of_tracklist p s = stop_unless (is_idle s.engine.state) p s

abbrev pub is_playing : PlaybackStatus → Bool
is_playing PlaybackStatus.playing = true
is_playing _ = false

abbrev pub play_if : Bool → Pipeline → Player → Player
play_if true p s = with_engine (Engine.play p.plays s.engine).1 s
play_if false p s = s

-- Nothing where the mutex is locked: the handler of about_to_finish opens the track then.
unfoldable pub on_go_to_track : Pipeline → TrackId → Player → Player
unfolding with_engine
on_go_to_track p id s =
    if s.doing_go_to_track
    then s
    else play_if (is_playing s.wakelocks.playback_status) p
        (open_if_any (query_uri_for_track s.list id) true s)

unfoldable pub on_track_added : TrackId → Player → Option Player
unfolding open_first_track_from_tracklist update_mpris_properties
on_track_added id s =
    update_mpris_properties
      (if length s.list.tracks == 1 then open_first_track_from_tracklist id s else s)

-- All tracks are new ones exactly where the sizes are the same.
unfoldable pub on_tracks_added : List TrackId → Player → Option Player
unfolding open_first_track_from_tracklist update_mpris_properties
on_tracks_added [] s = update_mpris_properties s
on_tracks_added (id ∷ ids) s =
    update_mpris_properties
      (if length s.list.tracks == suc (length ids) then open_first_track_from_tracklist id s else s)

unfoldable pub on_signal : Pipeline → Signal → Player → Option Player
unfolding on_end_of_tracklist on_go_to_track on_track_added on_tracks_added update_mpris_properties
on_signal p (Signal.track_added id) s = on_track_added id s
on_signal p (Signal.tracks_added ids) s = on_tracks_added ids s
on_signal p (Signal.track_moved id to) s = some s
on_signal p (Signal.track_removed id) s = update_mpris_properties s
on_signal p Signal.track_list_reset s = update_mpris_properties s
on_signal p (Signal.track_changed id) s = update_mpris_properties s
on_signal p (Signal.go_to_track id) s = some (on_go_to_track p id s)
on_signal p Signal.end_of_tracklist s = some (on_end_of_tracklist p s)

infixl 5 ◌then◌
abbrev pub ◌then◌ : {A B : Type 0} → Option A → (A → Option B) → Option B
none then f = none
some a then f = f a

-- The signals, the latest first.
unfoldable pub on_signals : Pipeline → List Signal → Player → Option Player
unfolding on_signal
on_signals p [] s = some s
on_signals p (x ∷ earlier) s = on_signals p earlier s then on_signal p x

abbrev pub absorb : {A : Type 0} → Pipeline → Player → Outcome A → Option (A × Player)
absorb p s (done a t) =
    on_signals p t.sent (record s { list = record t { sent = [] } }) then λ u. some (a, u)
absorb p s (threw e t) = none
absorb p s fault = none

-- An operation of the track list, with what its signals set off.
unfoldable pub on_list : {A : Type 0} → Pipeline → M A → Player → Option (A × Player)
unfolding on_signals
on_list p m s = absorb p s (m (record s.list { sent = [] }))
