-- ===== src/TrackList/Cursor.antt =====
-- The current track: track_list_skeleton.cpp, `current_iterator` and the functions round it.
use media_hub.Prelude.{
  ℕ, Bool, true, false, not, List, [], ◌∷◌, text_dec, find, length, if◌then◌else◌, ltb, ◌==◌,
}
use media_hub.TrackList.State.{
  TrackId, Iter, null, at, State, done, fault, M, ◌>>=◌, pure, deref, advance,
}

abbrev first_if_empty : Iter → List TrackId → Iter
first_if_empty null (x ∷ xs) = at 0
first_if_empty it _ = it

-- With no current track, the first one becomes current.
unfoldable pub current_iterator : M Iter
current_iterator s =
    let it = first_if_empty s.current_track s.tracks in done it (record s { current_track = it })

unfoldable pub current : M TrackId
unfolding current_iterator
current = do it ← current_iterator; deref it

-- `find` over `tracks`, as an iterator.
abbrev pub find_track : State → TrackId → ℕ
find_track s id = find text_dec id s.tracks

unfoldable pub update_current_iterator : ℕ → M Bool
update_current_iterator i s =
    if i == length s.tracks then done false s else done true (record s { current_track = at i })

unfoldable pub reset_current_iterator_if_needed : M (Unit {0})
reset_current_iterator_if_needed s =
    let i = find_track s s.id_after_remove in
    done tt (record s { current_track = if i == length s.tracks then null else at i })

-- The empty id where there is no current track.
unfoldable pub get_current_track : M TrackId
unfolding current
get_current_track s = elim s.current_track [
  | null ↦ done [] s
  | at _ ↦ if length s.tracks == 0 then done [] s else current s
]

unfoldable pub set_current_track : TrackId → M (Unit {0})
set_current_track id s =
    let i = find_track s id in
    if i == length s.tracks then done tt s else done tt (record s { current_track = at i })

unfoldable pub get_current_shuffled : M ℕ
get_current_shuffled = do id ← current; λ s. done (find text_dec id s.shuffled_tracks) s

has_next_shuffled : M Bool
has_next_shuffled = do
  i ← get_current_shuffled
  λ s. (do j ← advance (length s.shuffled_tracks) i; pure (not (j == length s.shuffled_tracks))) s

-- `std::next(current_iterator())`; the sentinel cannot be advanced.
unfoldable pub next_iterator : M ℕ
unfolding current_iterator advance
next_iterator = do
  it ← current_iterator
  λ s. elim it [ null ↦ fault | at i ↦ advance (length s.tracks) i s ]

has_next_in_order : M Bool
unfolding next_iterator
has_next_in_order = do i ← next_iterator; λ s. done (not (i == length s.tracks)) s

unfoldable pub has_next : M Bool
unfolding has_next_shuffled has_next_in_order
has_next s = if length s.tracks == 0 then done false s else elim s.current_track [
  | null ↦ done (not (ltb (length s.tracks) 2)) s
  | at _ ↦ if s.shuffle then has_next_shuffled s else has_next_in_order s
]

unfoldable pub has_previous : M Bool
has_previous s = elim s.current_track [
  | null ↦ done false s
  | at i ↦
      if length s.tracks == 0
      then done false s
      else if s.shuffle
      then (do j ← get_current_shuffled; pure (not (j == 0))) s
      else done (not (i == 0)) s
]
