-- ===== src/TrackList/Invariant.antt =====
-- What holds of a track list between two calls.
use mathlib.Core.List.Perm
use media_hub.Prelude.{
  ℕ, ◌<◌, ◌≡◌, true, List, Perm, Nodup, All, length, get_elem?, some, find, text_dec, Text,
  find-lt_of_mem, mem_of_get_elem?,
}
use media_hub.TrackList.State.{TrackId, Iter, null, at, Signal, State, make_id, size_max}

-- An iterator that may be read, or the sentinel.
abbrev pub InRange : ℕ → Iter → Type 0
InRange n null = Unit
InRange n (at i) = i < n

-- An id that the counter has given out.
abbrev pub IsIssued : Text → ℕ → TrackId → Type 0
IsIssued path n id = (k : ℕ) × (k < n) × (id ≡ make_id path k)

pub record IsValid (s : State) : Type 0 where
  pub in_range : InRange (length s.tracks) s.current_track
  pub issued : All (IsIssued s.path s.track_counter) s.tracks
  pub distinct : Nodup s.tracks
  pub counted : s.track_counter < size_max
  pub same_tracks : s.shuffle ≡ true → Perm s.shuffled_tracks s.tracks

-- Neither the signals sent nor a readable cursor matter to the rest.
pub cursor-IsValid :
    (s : State) (it : Iter) (xs : List Signal)
    → IsValid s
    → InRange (length s.tracks) it
    → IsValid (record s { current_track = it; sent = xs })
cursor-IsValid s it xs v h = record {
  in_range = h;
  issued = v.issued;
  distinct = v.distinct;
  counted = v.counted;
  same_tracks = v.same_tracks;
}

module _ (s : State) (v : IsValid s) (sh : s.shuffle ≡ true) where
  pub listed_of_shuffled :
      (q : ℕ) {x : TrackId}
      → get_elem? s.shuffled_tracks q ≡ some x
      → find text_dec x s.tracks < length s.tracks
  listed_of_shuffled q {x} e =
      find-lt_of_mem text_dec x s.tracks
        ((Perm.mem_iff (v.same_tracks sh)).0 (mem_of_get_elem? s.shuffled_tracks q e))

  pub shuffled_of_listed :
      (i : ℕ) {x : TrackId}
      → get_elem? s.tracks i ≡ some x
      → find text_dec x s.shuffled_tracks < length s.shuffled_tracks
  shuffled_of_listed i {x} e =
      find-lt_of_mem text_dec x s.shuffled_tracks
        ((Perm.mem_iff (v.same_tracks sh)).1 (mem_of_get_elem? s.tracks i e))
