-- ===== src/TrackList/AddTracks.antt =====
-- `add_tracks_with_uri_at` of src/core/media/track_list_implementation.cpp: its loop, and what it leaves.
use media_hub.Prelude.{
  ℕ, zero, suc, ◌+◌, ◌<◌, ◌≤◌, ◌≡◌, ◌≢◌, ◌==◌, if◌then◌else◌, List, [], ◌∷◌, length, splice, Text,
}
use media_hub.TrackList.State.{TrackId, UriType, Signal, State, make_id, size_max}
use media_hub.TrackList.Cursor.{find_track}
use media_hub.TrackList.Editing.{Adding, add_each}
use media_hub.TrackList.Invariant.{IsValid}
use media_hub.TrackList.Current.{IsCurrent, focus}

-- The ids of `k` tracks from counter `n` on.
pub issue : Text → ℕ → ℕ → List TrackId
issue path n zero = []
issue path n (suc k) = make_id path n ∷ issue path (suc n) k

-- A position that is none of the ids to come.
abbrev pub IsOld : Text → ℕ → TrackId → Type 0
IsOld path n position = (k : ℕ) → n ≤ k → make_id path k ≢ position

-- Between two rounds: what was added stands before the position, in order.
record Loop (position : TrackId) (xs : List TrackId) (i : ℕ) (a : Adding) : Type 0 where
  valid : IsValid a.list
  place : i ≤ length xs
  spliced : a.list.tracks ≡ splice xs i a.added
  position_next : find_track a.list position ≡ i + length a.added

module _ (uris : List UriType) (position : TrackId) (current_id : TrackId) (s : State)
    (v : IsValid s) (room : s.track_counter + length uris < size_max)
    (old : IsOld s.path s.track_counter position) (c : IsCurrent s current_id) where
  begin : Adding
  begin = record { list = s; added = []; first = [] }

  finish : Adding
  finish = add_each position uris begin

  abbrev announced : State
  announced =
      let u = focus current_id finish.list in
      record u {
        sent =
            if length finish.first == 0
            then Signal.tracks_added finish.added ∷ u.sent
            else Signal.track_changed finish.first ∷ Signal.tracks_added finish.added ∷ u.sent;
      }
