-- ===== src/TrackList/Editing.antt =====
-- track_list_implementation.cpp: the functions that change the list.
use media_hub.Prelude.{
  ℕ, ◌+◌, ◌%◌, Bool, true, false, ◌||◌, Option, none, some, List, [], ◌∷◌, ◌++◌, text_dec, find,
  insert_at, erase_at, length, if◌then◌else◌, ◌==◌,
}
use mathlib.Core.Bool.{decide}
use media_hub.TrackList.State.{
  TrackId, UriType, MetaData, null, Signal, Error, State, done, fault, M, ◌>>=◌, ◌>>◌, pure, throw,
  get, modify, skip, branch, emit, make_id, size_max, cached, uncache, recache,
}
use media_hub.TrackList.Cursor.{
  current, find_track, update_current_iterator, reset_current_iterator_if_needed, get_current_track,
  set_current_track,
}

abbrev entry_uri : Option (UriType × MetaData) → UriType
entry_uri none = []
entry_uri (some e) = e.0

abbrev entry_meta_data : Option (UriType × MetaData) → MetaData
entry_meta_data none = []
entry_meta_data (some e) = e.1

unfoldable pub query_uri_for_track : State → TrackId → UriType
query_uri_for_track s id = entry_uri (cached id s.meta_data_cache)

unfoldable pub query_meta_data_for_track : State → TrackId → MetaData
query_meta_data_for_track s id = entry_meta_data (cached id s.meta_data_cache)

-- A new entry has empty metadata; a known one keeps its metadata.
unfoldable pub update_cached_track_metadata : TrackId → UriType → State → State
update_cached_track_metadata id uri s = record s {
  meta_data_cache = elim (cached id s.meta_data_cache) [
    | none ↦ (id, (uri, [])) ∷ s.meta_data_cache
    | some _ ↦ recache id uri s.meta_data_cache
  ];
}

-- `get_shuffled_insert_it`, and the insertion there: anywhere among the shuffled tracks.
unfoldable pub insert_shuffled : TrackId → State → State
insert_shuffled id s =
    if length s.shuffled_tracks == 0 then record s { shuffled_tracks = id ∷ [] } else record s {
      shuffled_tracks =
          insert_at s.shuffled_tracks (s.rand s.drawn % (length s.shuffled_tracks + 1)) id;
      drawn = s.drawn + 1;
    }

unfoldable pub go_to : TrackId → M (Unit {0})
go_to track = do emit (Signal.go_to_track track); emit (Signal.track_changed track)

-- `id` is the text of the counter's old value.
abbrev pub new_id : State → TrackId
new_id s = make_id s.path s.track_counter

abbrev pub count_track : State → State
count_track s = record s { track_counter = (s.track_counter + 1) % size_max }

-- What both ways to add a track do with a new id.
unfoldable pub place_track : TrackId → UriType → TrackId → State → State
unfolding update_cached_track_metadata
place_track id uri position s =
    let t =
      update_cached_track_metadata id uri
        (record s { tracks = insert_at s.tracks (find_track s position) id }) in
    if s.shuffle then insert_shuffled id t else t

unfoldable pub add_track_with_uri_at : UriType → TrackId → Bool → M (Unit {0})
unfolding go_to
add_track_with_uri_at uri position make_current = do
  s ← get
  let id = new_id s
  modify count_track
  current_id ← get_current_track
  modify (place_track id uri position)
  branch make_current (do set_current_track id; go_to id) (set_current_track current_id)
  emit (Signal.track_added id)
  t ← get
  branch (length t.tracks == 1) (emit (Signal.track_changed id)) skip

-- The loop's variables: the list, the ids added so far, and the first track of an empty list.
pub record Adding : Type 0 where
  pub list : State
  pub added : List TrackId
  pub first : TrackId

unfoldable pub add_one : TrackId → UriType → Adding → Adding
add_one position uri a =
    let id = new_id a.list in
    let t = place_track id uri position (count_track a.list) in
    record {
      list = t;
      added = a.added ++ id ∷ [];
      first = if length t.tracks == 1 then id else a.first;
    }

unfoldable pub add_each : TrackId → List UriType → Adding → Adding
add_each position [] a = a
add_each position (uri ∷ uris) a = add_each position uris (add_one position uri a)

unfoldable pub add_tracks_with_uri_at : List UriType → TrackId → M (Unit {0})
add_tracks_with_uri_at uris position = do
  current_id ← get_current_track
  s ← get
  let a = add_each position uris (record { list = s; added = []; first = [] })
  modify (λ _. a.list)
  set_current_track current_id
  emit (Signal.tracks_added a.added)
  branch (length a.first == 0) skip (emit (Signal.track_changed a.first))

-- The update of `move_track`, with the insertion point found beforehand.
unfoldable pub relocate : TrackId → ℕ → TrackId → M Bool
relocate id point current_id = do
  s ← get
  let i = find_track s id
  branch (i == length s.tracks) (throw Error.failed_to_find_move_track_dest)
      (modify (λ t. record t { tracks = insert_at (erase_at t.tracks i) point id }))
  t ← get
  let j = find_track t current_id
  branch (j == length t.tracks) (throw Error.failed_to_move_track) (do
    updated ← update_current_iterator j
    branch updated (pure true) (throw Error.failed_to_move_track))

unfoldable pub move_track : TrackId → TrackId → M Bool
unfolding current relocate text_dec
move_track id to = do
  s ← get
  branch (length id == 0 || length to == 0) (pure false) (
      branch (decide (text_dec id to)) (pure false) (
        branch (length s.tracks == 1) (pure false) (do
          current_id ← current
          t ← get
          let point = find_track t to
          branch (point == length t.tracks) (throw Error.failed_to_find_move_track_source)
              (do relocate id point current_id; emit (Signal.track_moved id to); pure true))))

-- `container.erase(std::find(…))`: at the end it is undefined.
unfoldable pub erase_track : TrackId → M (Unit {0})
erase_track id s =
    let i = find_track s id in
    if i == length s.tracks then fault else done tt (record s { tracks = erase_at s.tracks i })

unfoldable pub erase_shuffled : TrackId → M (Unit {0})
erase_shuffled id s =
    let i = find text_dec id s.shuffled_tracks in
    if i == length s.shuffled_tracks
    then fault
    else done tt (record s { shuffled_tracks = erase_at s.shuffled_tracks i })

unfoldable pub remove_track : TrackId → M (Unit {0})
remove_track id = do
  erase_track id
  reset_current_iterator_if_needed
  modify (λ s. record s { meta_data_cache = uncache id s.meta_data_cache })
  s ← get
  branch s.shuffle (erase_shuffled id) skip
  emit (Signal.track_removed id)
  t ← get
  branch (length t.tracks == 0) (emit Signal.end_of_tracklist) skip

-- `random_shuffle` reorders the tracks in a way that the caller gives.
unfoldable pub set_shuffle : (List TrackId → List TrackId) → Bool → M (Unit {0})
set_shuffle order on s =
    if on
    then done tt (record s { shuffle = true; shuffled_tracks = order s.tracks })
    else done tt (record s { shuffle = false })

unfoldable pub reset : M (Unit {0})
reset = do
  emit Signal.end_of_tracklist
  modify (λ s. record s { current_track = null })
  modify (λ s. record s { tracks = [] })
  emit Signal.track_list_reset
  modify (λ s. record s { track_counter = 0; shuffled_tracks = [] })
