-- ===== src/TrackList/Moving.antt =====
-- `move_track`: where it puts the track, and how it fails.
use mathlib.Core.List.Perm
use media_hub.Prelude.{
  ℕ, ◌<◌, ◌≡◌, ◌≢◌, decide_no, refl, inr, true, false, some, List, [], ◌∷◌, Perm, length,
  length-erase_at, insert_at, erase_at, insert_at-perm, erase_at-perm, find, find-lt_of_mem,
  mem_of_get_elem?, mem_of_find-lt, get_elem?, get_elem?-find, All-get_elem?, get_elem?-insert_at,
  text_dec, arith, ◌==◌,
}
use media_hub.TrackList.State.{TrackId, Iter, at, Signal, State, done}
use media_hub.TrackList.Cursor.{find_track, update_current_iterator}
use media_hub.TrackList.Editing.{move_track, relocate}
use media_hub.TrackList.Invariant.{IsValid, IsIssued, InRange}
use media_hub.TrackList.Ids.{nil_unlisted, All-insert_at, All-erase_at}
use media_hub.TrackList.Current.{IsCurrent, current_lem}

pub not_end : {m n : ℕ} → m < n → (m == n) ≡ false
not_end h = ground arith

update_lem :
    (i : ℕ) (s : State)
    → i < length s.tracks
    → update_current_iterator i s ≡ done true (record s { current_track = at i })
unfolding update_current_iterator
update_lem i s h = ground arith

pub length-ne-zero : (a : TrackId) → a ≢ [] → (length a == 0) ≡ false
length-ne-zero [] h = absurd (h refl)
length-ne-zero (x ∷ a) h = ground arith

nonempty :
    (s : State) (a : TrackId)
    → IsValid s
    → find_track s a < length s.tracks
    → (length a == 0) ≡ false
nonempty s [] v h =
    absurd (
      nil_unlisted s.path s.track_counter s.tracks v.issued (mem_of_find-lt text_dec [] s.tracks h))
nonempty s (x ∷ a) v h = ground arith

not_single :
    (xs : List TrackId) (a b : TrackId)
    → a ≢ b
    → find text_dec a xs < length xs
    → find text_dec b xs < length xs
    → (length xs == 1) ≡ false
not_single xs a b ne ha hb =
    ground (arith, get_elem?-find text_dec a xs ha, get_elem?-find text_dec b xs hb)

module _ (s : State) (v : IsValid s) (id to : TrackId) (listed : find_track s id < length s.tracks)
    (target : find_track s to < length s.tracks) where
  -- The list with the track taken out and put back at the index that `to` had.
  pub reordered : List TrackId
  reordered = insert_at (erase_at s.tracks (find_track s id)) (find_track s to) id

  reordered-perm : Perm reordered s.tracks
  unfolding reordered
  reordered-perm =
      Perm.trans (insert_at-perm (erase_at s.tracks (find_track s id)) (find_track s to) id)
        (Perm.symm (erase_at-perm text_dec id s.tracks listed))

  get_elem?-reordered : get_elem? reordered (find_track s to) ≡ some id
  unfolding reordered
  get_elem?-reordered =
      get_elem?-insert_at (erase_at s.tracks (find_track s id)) (find_track s to) id
        (omega (arith, length-erase_at s.tracks (find_track s id) listed))

  reordered-IsValid :
      (it : Iter) (xs : List Signal)
      → InRange (length reordered) it
      → IsValid (record s { tracks = reordered; current_track = it; sent = xs })
  unfolding reordered
  reordered-IsValid it xs h = record {
    in_range = h;
    issued =
        All-insert_at (IsIssued s.path s.track_counter) (erase_at s.tracks (find_track s id))
          (find_track s to) id
          (All-get_elem? (IsIssued s.path s.track_counter) s.tracks (find_track s id) v.issued
            (get_elem?-find text_dec id s.tracks listed))
          (All-erase_at (IsIssued s.path s.track_counter) s.tracks (find_track s id) v.issued);
    distinct = Perm.nodup (Perm.symm reordered-perm) v.distinct;
    counted = v.counted;
    same_tracks = λ on. Perm.trans (v.same_tracks on) (Perm.symm reordered-perm);
  }

  module _ (i : ℕ) (c : TrackId) (e : s.current_track ≡ at i)
      (f : get_elem? s.tracks i ≡ some c) where
    found_again : find text_dec c reordered < length reordered
    found_again =
        find-lt_of_mem text_dec c reordered
          ((Perm.mem_iff reordered-perm).1 (mem_of_get_elem? s.tracks i f))

    relocate_lem :
        relocate id (find_track s to) c s
        ≡ done true
            (record s { tracks = reordered; current_track = at (find text_dec c reordered) })
    unfolding relocate reordered
    relocate_lem =
        rw (not_end listed, not_end found_again)
          (ground (
            arith,
            update_lem (find text_dec c reordered) (record s { tracks = reordered }) found_again,
          ))

    moved : State
    moved = record s {
      tracks = reordered;
      current_track = at (find text_dec c reordered);
      sent = Signal.track_moved id to ∷ s.sent;
    }

    move_track_lem : id ≢ to → move_track id to s ≡ done true moved
    unfolding move_track moved
    move_track_lem ne =
        rw
          (
            nonempty s id v listed,
            nonempty s to v target,
            decide_no (text_dec id to) ne,
            not_single s.tracks id to ne listed target,
          )
          (ground (arith, current_lem s i c e f, relocate_lem))

    -- On a valid list with a current track, moving one listed track to the place of another
    -- succeeds: the moved track then stands at the
    -- index that `to` had, no track is lost or doubled, and the current track stays current.
    pub move_track_correct :
        id ≢ to
        → (t : State) × (move_track id to s ≡ done true t)
          × IsValid t
          × Perm t.tracks s.tracks
          × (get_elem? t.tracks (find_track s to) ≡ some id)
          × IsCurrent t c
          × (t.sent ≡ Signal.track_moved id to ∷ s.sent)
    unfolding moved
    move_track_correct ne = (
      moved,
      move_track_lem ne,
      reordered-IsValid _ _ found_again,
      reordered-perm,
      get_elem?-reordered,
      inr (find text_dec c reordered, refl, get_elem?-find text_dec c reordered found_again),
      refl,
    )
