-- ===== src/TrackList/AddTrack.antt =====
-- `add_track_with_uri_at`: it ends without a fault, and what it leaves.
use mathlib.Core.List.{mem-cons}
use mathlib.Core.List.Perm
use mathlib.Core.Logic.Or
use media_hub.Prelude.{
  ◌+◌, ◌<◌, ◌≡◌, refl, ◌⊎◌, inl, inr, Bool, true, false, ◌∷◌, Mem, length, insert_at,
  insert_at-perm, find-lt_of_mem, text_dec, arith, ◌==◌, if◌then◌else◌,
}
use media_hub.TrackList.State.{TrackId, UriType, Signal, State, done, size_max}
use media_hub.TrackList.Cursor.{find_track}
use media_hub.TrackList.Editing.{
  place_track, new_id, count_track, add_track_with_uri_at, query_uri_for_track,
}
use media_hub.TrackList.Invariant.{IsValid, cursor-IsValid}
use media_hub.TrackList.Adding.{place-IsValid, tracks-place, frame-place, query_uri-place}
use media_hub.TrackList.Current.{
  IsCurrent, get_current_track_lem, focus, set_current_track_lem, focus-InRange, focus-IsCurrent,
  refocus-IsCurrent,
}

abbrev signal_added : TrackId → State → State
signal_added id s = record s {
  sent =
      if length s.tracks == 1
      then Signal.track_changed id ∷ Signal.track_added id ∷ s.sent
      else Signal.track_added id ∷ s.sent;
}

abbrev chosen : Bool → TrackId → TrackId → State → State
chosen true id current_id t =
    let u = focus id t in
    record u { sent = Signal.track_changed id ∷ Signal.go_to_track id ∷ u.sent }
chosen false id current_id t = focus current_id t

-- The state that adding a track leaves.
unfoldable pub added : UriType → TrackId → Bool → TrackId → State → State
added uri position make_current current_id s =
    let id = new_id s in
    signal_added id
      (chosen make_current id current_id (place_track id uri position (count_track s)))

pub add_track_lem :
    (uri : UriType) (position : TrackId) (make_current : Bool) (current_id : TrackId) (s : State)
    → IsCurrent s current_id
    → add_track_with_uri_at uri position make_current s
      ≡ done tt (added uri position make_current current_id s)
unfolding add_track_with_uri_at added
add_track_lem uri position true current_id s c = ground (
  arith,
  get_current_track_lem (count_track s) current_id c,
  set_current_track_lem (new_id s) (place_track (new_id s) uri position (count_track s)),
)
add_track_lem uri position false current_id s c = ground (
  arith,
  get_current_track_lem (count_track s) current_id c,
  set_current_track_lem current_id (place_track (new_id s) uri position (count_track s)),
)

module _ (uri : UriType) (position : TrackId) (current_id : TrackId) (s : State) (v : IsValid s)
    (room : s.track_counter + 1 < size_max) (c : IsCurrent s current_id) where
  placed : State
  placed = place_track (new_id s) uri position (count_track s)

  added-IsValid_lem : (make_current : Bool) → IsValid (added uri position make_current current_id s)
  unfolding added placed
  added-IsValid_lem true =
      let w = place-IsValid uri position s v room in
      cursor-IsValid placed _ _ w (focus-InRange (new_id s) placed w.in_range)
  added-IsValid_lem false =
      let w = place-IsValid uri position s v room in
      cursor-IsValid placed _ _ w (focus-InRange current_id placed w.in_range)

  mem-placed : (a : TrackId) → (a ≡ new_id s) ⊎ Mem a s.tracks → Mem a placed.tracks
  unfolding placed
  mem-placed a m = rw (tracks-place (new_id s) uri position (count_track s)) (
      (Perm.mem_iff (insert_at-perm s.tracks (find_track s position) (new_id s))).1
        (mem-cons.1 (elim m [ inl e ↦ Or.inl e | inr r ↦ Or.inr r ])))

  added-IsCurrent :
      (make_current : Bool)
      → IsCurrent
          (added uri position make_current current_id s)
          (if make_current then new_id s else current_id)
  unfolding added placed
  added-IsCurrent true =
      focus-IsCurrent (new_id s) placed
        (find-lt_of_mem text_dec (new_id s) placed.tracks (mem-placed (new_id s) (inl refl)))
  added-IsCurrent false =
      refocus-IsCurrent s placed current_id c (place-IsValid uri position s v room)
        (frame-place (new_id s) uri position (count_track s)).1 (λ a m. mem-placed a (inr m))

  added-contents :
      (make_current : Bool)
      → let t = added uri position make_current current_id s in
        (t.tracks ≡ insert_at s.tracks (find_track s position) (new_id s))
        × (query_uri_for_track t (new_id s) ≡ uri)
  unfolding added query_uri_for_track
  added-contents true = (
    tracks-place (new_id s) uri position (count_track s),
    query_uri-place (new_id s) uri position (count_track s),
  )
  added-contents false = (
    tracks-place (new_id s) uri position (count_track s),
    query_uri-place (new_id s) uri position (count_track s),
  )

  -- On a valid list whose counter has room, adding a track never fails, keeps the invariant, puts one new id before `position` (or last),
  -- which answers with its uri, and makes it current on request only.
  pub add_track_correct :
      (make_current : Bool)
      → (t : State) × (add_track_with_uri_at uri position make_current s ≡ done tt t)
        × IsValid t
        × (t.tracks ≡ insert_at s.tracks (find_track s position) (new_id s))
        × (query_uri_for_track t (new_id s) ≡ uri)
        × IsCurrent t (if make_current then new_id s else current_id)
  add_track_correct make_current = (
    added uri position make_current current_id s,
    add_track_lem uri position make_current current_id s c,
    added-IsValid_lem make_current,
    (added-contents make_current).0,
    (added-contents make_current).1,
    added-IsCurrent make_current,
  )
