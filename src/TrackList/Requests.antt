-- ===== src/TrackList/Requests.antt =====
-- track_list_skeleton.cpp: what the list does with a client's request. The client's context is
-- known when a request to add tracks is carried out.
use media_hub.Prelude.{
  ℕ, suc, Bool, true, false, not, ◌&&◌, Option, none, some, List, [], ◌∷◌, length, ◌==◌,
  if◌then◌else◌,
}
use media_hub.Media.{LoopStatus}
use media_hub.Apparmor.Context.{Context}
use media_hub.Apparmor.Authenticator.{Verdict, authenticate, is_allowed}
use media_hub.UriCheck.{Glib, UriCheck, is_valid_uri, set}
use media_hub.TrackList.State.{
  TrackId, UriType, MetaData, Iter, null, at, Signal, Error, State, Outcome, done, threw, fault, M,
  ◌>>=◌, ◌>>◌, pure, get, modify, skip, branch, emit, deref,
}
use media_hub.TrackList.Cursor.{current_iterator, find_track}
use media_hub.TrackList.Editing.{
  query_uri_for_track, query_meta_data_for_track, add_track_with_uri_at, add_tracks_with_uri_at,
  move_track, remove_track, go_to, reset,
}

pub data Reply : Type 0 where
  ok : Reply
  uri : UriType → Reply
  meta_data : MetaData → Reply
  uri_not_found : Reply
  insufficient_permissions : Reply
  track_not_found : Reply
  failed_to_move_track : Reply
  failed_to_find_move_track_source : Reply
  failed_to_find_move_track_dest : Reply

unfoldable pub handle_get_tracks_metadata : TrackId → M Reply
handle_get_tracks_metadata track s = done (Reply.meta_data (query_meta_data_for_track s track)) s

unfoldable pub handle_get_tracks_uri : TrackId → M Reply
handle_get_tracks_uri track s = done (Reply.uri (query_uri_for_track s track)) s

-- A request to add: an answer, or the exception of a uri that does not parse.
pub data Handled : Type 0 where
  answered : UriCheck → Outcome Reply → Handled
  unparsable : Handled

abbrev add_checked : UriType → TrackId → Bool → Bool → Bool → M Reply
add_checked track after make_current valid allowed = branch (not valid) (pure Reply.uri_not_found) (
    branch allowed (do add_track_with_uri_at track after make_current; pure Reply.ok)
      (pure Reply.insufficient_permissions))

abbrev add_authenticated : UriType → TrackId → Bool → UriCheck → State → Option Verdict → Handled
add_authenticated track after make_current k s none = Handled.unparsable
add_authenticated track after make_current k s (some v) =
    Handled.answered k (add_checked track after make_current (is_valid_uri k) (is_allowed v) s)

unfoldable pub handle_add_track_with_uri_at :
    Glib → Context → UriType → TrackId → Bool → UriCheck → State → Handled
handle_add_track_with_uri_at g c track after make_current k s =
    add_authenticated track after make_current (set g track k) s (authenticate c track)

abbrev pub go_on_if : {A : Type 0} → Option Verdict → A → A → A → A
go_on_if none parse_error refused others = parse_error
go_on_if (some v) parse_error refused others = if is_allowed v then others else refused

-- The loop over the uris: the last verdict; none where the last uri read does not parse. It stops
-- at the first uri that is not allowed.
unfoldable pub last_verdict : Context → List UriType → Bool → Option Bool
last_verdict c [] allowed = some allowed
last_verdict c (track ∷ rest) allowed =
    go_on_if (authenticate c track) none (some false) (last_verdict c rest true)

-- What the loop leaves of the shared check.
unfoldable pub last_check : Glib → Context → List UriType → UriCheck → UriCheck
last_check g c [] k = k
last_check g c (track ∷ rest) k =
    let next = set g track k in go_on_if (authenticate c track) next next (last_check g c rest next)

abbrev add_all : List UriType → TrackId → Bool → M Reply
add_all tracks after allowed =
    branch allowed (do add_tracks_with_uri_at tracks after; pure Reply.ok)
      (pure Reply.insufficient_permissions)

abbrev add_all_authenticated : List UriType → TrackId → UriCheck → State → Option Bool → Handled
add_all_authenticated tracks after k s none = Handled.unparsable
add_all_authenticated tracks after k s (some allowed) =
    Handled.answered k (add_all tracks after allowed s)

-- The verdict before the loop is the tuple's default, false. The answer about a uri that is not
-- valid is replaced by the one after the loop.
unfoldable pub handle_add_tracks_with_uri_at :
    Glib → Context → List UriType → TrackId → UriCheck → State → Handled
handle_add_tracks_with_uri_at g c tracks after k s =
    add_all_authenticated tracks after (last_check g c tracks k) s (last_verdict c tracks false)

abbrev moved_reply : Bool → Reply
moved_reply true = Reply.ok
moved_reply false = Reply.failed_to_move_track

-- Every error that `move_track` throws is caught.
abbrev caught : Outcome Bool → Outcome Reply
caught (done b t) = done (moved_reply b) t
caught (threw Error.failed_to_move_track t) = done Reply.failed_to_find_move_track_source t
caught (threw Error.failed_to_find_move_track_source t) =
    done Reply.failed_to_find_move_track_source t
caught (threw Error.failed_to_find_move_track_dest t) = done Reply.failed_to_find_move_track_dest t
caught fault = fault

unfoldable pub handle_move_track : TrackId → TrackId → M Reply
handle_move_track id to s = caught (move_track id to s)

abbrev repeats_list : LoopStatus → Bool
repeats_list LoopStatus.playlist = true
repeats_list _ = false

-- `++current_track`, back to the first track of a list that repeats.
abbrev pub following : State → ℕ → ℕ
following s i = if suc i == length s.tracks && repeats_list s.loop_status then 0 else suc i

-- The track that is current after the current one, at `i`, has gone; none at the end.
unfoldable pub choose_following : ℕ → M TrackId
choose_following i = do
  s ← get
  let j = following s i
  branch (j == length s.tracks)
      (do modify (λ t. record t { current_track = null }); emit Signal.end_of_tracklist; pure [])
      (do modify (λ t. record t { current_track = at j }); deref (at j))

abbrev is_at : ℕ → Iter → Bool
is_at i null = false
is_at i (at j) = i == j

-- The id of the current track; the empty id without one.
abbrev current_id : M TrackId
current_id s = elim s.current_track [ null ↦ done [] s | at j ↦ deref (at j) s ]

unfoldable pub handle_remove_track : TrackId → M Reply
unfolding current_iterator go_to
handle_remove_track track = do
  s ← get
  let i = find_track s track
  branch (i == length s.tracks) (pure Reply.track_not_found) (do
    it ← current_iterator
    let deleting_current = is_at i it
    next ← branch deleting_current (choose_following i) current_id
    modify (λ t. record t { id_after_remove = next })
    remove_track track
    branch (not (length next == 0) && deleting_current) (go_to next) skip
    pure Reply.ok)

-- The cursor stands at the end where the track is unknown.
unfoldable pub handle_go_to : TrackId → M Reply
unfolding go_to
handle_go_to track = do
  modify (λ s. record s { current_track = at (find_track s track) })
  go_to track
  pure Reply.ok

unfoldable pub handle_reset : M Reply
handle_reset = do reset; pure Reply.ok
