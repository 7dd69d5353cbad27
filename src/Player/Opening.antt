-- ===== src/Player/Opening.antt =====
-- What opening a uri does.
use mathlib.Core.List.{Nodup-nil}
use mathlib.Core.List.Perm
use media_hub.Prelude.{
  insert_at, ◌≢◌, find, text_dec, if_neg, ℕ, ◌≡◌, refl, ap, inl, Bool, true, false, not, ◌||◌, some,
  [], ◌∷◌, length, arith, ltb, if◌then◌else◌, ◌==◌,
}
use media_hub.TrackList.State.{State as ListState, TrackId, UriType, null, Signal, done, make_id}
use media_hub.TrackList.Cursor.{has_next, has_previous}
use media_hub.TrackList.Editing
use media_hub.TrackList.Editing.{
  query_uri_for_track, add_track_with_uri_at, new_id, place_track, count_track,
  update_cached_track_metadata, insert_shuffled,
}
use media_hub.TrackList.Invariant.{IsValid}
use media_hub.TrackList.Adding.{tracks-place, frame-place, query_uri-place}
use media_hub.TrackList.Ids.{make_id-ne-nil}
use media_hub.TrackList.AddTrack.{added, add_track_lem}
use media_hub.Player.Glue.{
  Player, Pipeline, with_engine, open_resource, open_if_any, loops, on_list, on_signals, on_signal,
  properties, update_mpris_properties, on_end_of_tracklist, stop_unless, on_track_added,
  open_first_track_from_tracklist, ◌then◌, is_idle,
}
use media_hub.Player.Actions.{open_uri, after_empty_track}

-- The properties with no current track.
abbrev pub unplaced : Player → Player
unplaced s = record s {
  can_play = ltb 0 (length s.list.tracks);
  can_pause = ltb 0 (length s.list.tracks);
  can_go_previous = loops s.list.loop_status;
  can_go_next =
      (if length s.list.tracks == 0 then false else not (ltb (length s.list.tracks) 2))
      || loops s.list.loop_status;
}

has_previous_null : (l : ListState) → l.current_track ≡ null → has_previous l ≡ done false l
unfolding has_previous
has_previous_null l c = ground arith

has_next_null :
    (l : ListState)
    → l.current_track ≡ null
    → has_next l ≡ done (if length l.tracks == 0 then false else not (ltb (length l.tracks) 2)) l
unfolding has_next
has_next_null l c = ground arith

pub update_null :
    (s : Player) → s.list.current_track ≡ null → update_mpris_properties s ≡ some (unplaced s)
unfolding update_mpris_properties properties
update_null s c = ground (arith, has_previous_null s.list c, has_next_null s.list c)

abbrev pub emptied : ListState → ListState
emptied l = record l {
  tracks = [];
  current_track = null;
  track_counter = 0;
  shuffled_tracks = [];
  sent = [];
}

pub stop_unless_lem :
    (b : Bool) (p : Pipeline) (s : Player)
    → ((stop_unless b p s).list ≡ s.list) × ((stop_unless b p s).opened ≡ s.opened)
unfolding with_engine
stop_unless_lem true p s = (refl, refl)
stop_unless_lem false p s = (refl, refl)

-- A reset of the list stops the engine, unless it is idle.
abbrev pub after_reset : Pipeline → Player → Player
after_reset p s =
    unplaced (stop_unless (is_idle s.engine.state) p (record s { list = emptied s.list }))

pub reset_lem : (p : Pipeline) (s : Player) → on_list p Editing.reset s ≡ some (tt, after_reset p s)
unfolding on_list on_signals on_signal on_end_of_tracklist Editing.reset
reset_lem p s =
    let u = stop_unless (is_idle s.engine.state) p (record s { list = emptied s.list }) in
    let q = update_null u (
      ap (λ l. l.current_track)
        (stop_unless_lem (is_idle s.engine.state) p (record s { list = emptied s.list })).0) in
    ground (arith, q)

emptied-IsValid : (l : ListState) → IsValid (emptied l)
emptied-IsValid l = record {
  in_range = tt;
  issued = tt;
  distinct = Nodup-nil;
  counted = omega arith;
  same_tracks = λ _. Perm.refl [];
}

-- The one track of an emptied list to which a uri is added.
abbrev pub first_id : ListState → TrackId
first_id l = make_id l.path 0

abbrev first_added : UriType → ListState → ListState
first_added uri l = added uri after_empty_track false [] (emptied l)

module _ (uri : UriType) (l : ListState) where
  placed_tracks :
      (place_track (first_id l) uri after_empty_track (count_track (emptied l))).tracks
      ≡ first_id l ∷ []
  unfolding insert_at find
  placed_tracks = tracks-place (first_id l) uri after_empty_track (count_track (emptied l))

  first_tracks : (first_added uri l).tracks ≡ first_id l ∷ []
  unfolding added
  first_tracks = placed_tracks

  first_sent :
      (first_added uri l).sent
      ≡ Signal.track_changed (first_id l) ∷ Signal.track_added (first_id l) ∷ []
  unfolding added
  first_sent =
      let f = frame-place (first_id l) uri after_empty_track (count_track (emptied l)) in
      ground (arith, placed_tracks, f.4)

  first_uri : query_uri_for_track (first_added uri l) (first_id l) ≡ uri
  unfolding added query_uri_for_track
  first_uri = query_uri-place (first_id l) uri after_empty_track (count_track (emptied l))

  nil_missing : find text_dec [] (first_id l ∷ []) ≡ 1
  unfolding find
  nil_missing = rw (if_neg (text_dec (first_id l) []) (make_id-ne-nil l.path 0)) refl

  first_current : (first_added uri l).current_track ≡ null
  unfolding added
  first_current =
      let f = frame-place (first_id l) uri after_empty_track (count_track (emptied l)) in
      ground (arith, placed_tracks, nil_missing, f.1)

abbrev filled : UriType → ListState → Player → Player
filled uri l u =
    unplaced
      (open_resource uri false (record u { list = record (first_added uri l) { sent = [] } }))

module _ (p : Pipeline) (c : ℕ) (cs : UriType) (l : ListState) (u : Player) where
  abbrev found_uri : Player
  found_uri = record u { list = record (first_added (c ∷ cs) l) { sent = [] } }

  open_first_lem :
      open_first_track_from_tracklist (first_id l) found_uri
      ≡ open_resource (c ∷ cs) false found_uri
  unfolding open_first_track_from_tracklist query_uri_for_track
  open_first_lem = ap (λ x. open_if_any x false found_uri) (first_uri (c ∷ cs) l)

  track_added_lem : on_track_added (first_id l) found_uri ≡ some (filled (c ∷ cs) l u)
  unfolding on_track_added
  track_added_lem =
      let q = update_null (open_resource (c ∷ cs) false found_uri) (first_current (c ∷ cs) l) in
      ground (arith, first_tracks (c ∷ cs) l, open_first_lem, q)

  signals_lem :
      on_signals p
        (Signal.track_changed (first_id l) ∷ Signal.track_added (first_id l) ∷ [])
        found_uri
      ≡ some (filled (c ∷ cs) l u)
  unfolding on_signals on_signal
  signals_lem =
      let q = update_null (filled (c ∷ cs) l u) (first_current (c ∷ cs) l) in
      ground (arith, track_added_lem, q)

  add_first_lem :
      on_list p
        (add_track_with_uri_at (c ∷ cs) after_empty_track false)
        (record u { list = emptied l })
      ≡ some (tt, filled (c ∷ cs) l u)
  unfolding on_list
  add_first_lem = ground (
    arith,
    add_track_lem (c ∷ cs) after_empty_track false [] (emptied l) (inl (refl, refl)),
    first_sent (c ∷ cs) l,
    signals_lem,
  )

-- What opening a uri leaves, whatever the list held.
abbrev pub IsOpened : UriType → Player → Player → Type 0
IsOpened uri s t =
    (t.list.tracks ≡ first_id s.list ∷ [])
    × (query_uri_for_track t.list (first_id s.list) ≡ uri)
    × (t.list.current_track ≡ null)
    × (t.can_play ≡ true)
    × (t.opened ≡ (uri, false) ∷ (uri, false) ∷ s.opened)

-- The player to which the track is added.
abbrev ready_to_add : Bool → Pipeline → UriType → Player → Player
ready_to_add b p uri s =
    open_resource uri false (unplaced (stop_unless b p (record s { list = emptied s.list })))

filled-IsOpened :
    (c : ℕ) (cs : UriType) (s u : Player)
    → u.opened ≡ (c ∷ cs, false) ∷ s.opened
    → IsOpened (c ∷ cs) s (filled (c ∷ cs) s.list u)
unfolding query_uri_for_track
filled-IsOpened c cs s u e = (
  first_tracks (c ∷ cs) s.list,
  first_uri (c ∷ cs) s.list,
  first_current (c ∷ cs) s.list,
  ap (λ xs. ltb 0 (length xs)) (first_tracks (c ∷ cs) s.list),
  ap (λ xs. (c ∷ cs, false) ∷ xs) e,
)

-- The track is added to the emptied list, whether the engine was stopped or not.
add_lem :
    (b : Bool) (p : Pipeline) (c : ℕ) (cs : UriType) (s : Player)
    → (t : Player) × (on_list p
          (add_track_with_uri_at (c ∷ cs) after_empty_track false)
          (ready_to_add b p (c ∷ cs) s)
        ≡ some (tt, t))
      × IsOpened (c ∷ cs) s t
unfolding with_engine
add_lem true p c cs s =
    let u = ready_to_add true p (c ∷ cs) s in
    (filled (c ∷ cs) s.list u, add_first_lem p c cs s.list u, filled-IsOpened c cs s u refl)
add_lem false p c cs s =
    let u = ready_to_add false p (c ∷ cs) s in
    (filled (c ∷ cs) s.list u, add_first_lem p c cs s.list u, filled-IsOpened c cs s u refl)

-- Opening a uri that is not empty succeeds whatever the list holds and the engine does: the list then has one
-- track alone, which answers with the uri and is not current, and the player can play; the engine is told to open the uri twice, once
-- for the request and once as the first track of the list.
pub open_uri_correct :
    (p : Pipeline) (uri : UriType) (s : Player)
    → uri ≢ []
    → (t : Player) × (open_uri p uri s ≡ some (true, t)) × IsOpened uri s t
unfolding open_uri
open_uri_correct p [] s h = absurd (h refl)
open_uri_correct p (c ∷ cs) s h =
    let (t, e, q) = add_lem (is_idle s.engine.state) p c cs s in
    (t, ground (arith, reset_lem p s, e), q)
