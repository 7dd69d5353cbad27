-- ===== src/TrackList/GoTo.antt =====
-- The request to go to a track.
use media_hub.Prelude.{
  ℕ, ◌≡◌, ◌<◌, refl, inr, none, List, [], ◌∷◌, length, get_elem?, get_elem?-find, text_dec, arith,
}
use media_hub.TrackList.State.{TrackId, State, at, Signal, done, fault, read}
use media_hub.TrackList.Cursor.{find_track, current}
use media_hub.TrackList.Editing.{go_to}
use media_hub.TrackList.Invariant.{IsValid, cursor-IsValid}
use media_hub.TrackList.Current.{IsCurrent}
use media_hub.TrackList.Requests.{Reply, handle_go_to}

gone_to : TrackId → State → State
gone_to track s = record s {
  current_track = at (find_track s track);
  sent = Signal.track_changed track ∷ Signal.go_to_track track ∷ s.sent;
}

handle_go_to_lem :
    (track : TrackId) (s : State) → handle_go_to track s ≡ done Reply.ok (gone_to track s)
unfolding handle_go_to go_to gone_to
handle_go_to_lem track s = refl

past_end : {A : Type 0} (xs : List A) → get_elem? xs (length xs) ≡ none
past_end [] = refl
past_end (x ∷ xs) = past_end xs

read_none : (xs : List TrackId) (i : ℕ) (s : State) → get_elem? xs i ≡ none → read xs i s ≡ fault
read_none xs i s e = ground arith

-- The request is always answered with success, and the player is told to go to the track. On a
-- valid list, a listed track is then current and the list stays valid. With a track that is not
-- listed, the current track is left at the end of the list, where the next read of it is undefined.
pub handle_go_to_correct :
    (track : TrackId) (s : State)
    → IsValid s
    → (t : State) × (handle_go_to track s ≡ done Reply.ok t)
      × (t.sent ≡ Signal.track_changed track ∷ Signal.go_to_track track ∷ s.sent)
      × (find_track s track < length s.tracks → IsValid t × IsCurrent t track)
      × (find_track s track ≡ length s.tracks → current t ≡ fault)
unfolding gone_to current
handle_go_to_correct track s v = (
  gone_to track s,
  handle_go_to_lem track s,
  refl,
  (λ h. (
    cursor-IsValid s (at (find_track s track)) _ v h,
    inr (find_track s track, refl, get_elem?-find text_dec track s.tracks h),
  )),
  (λ h. rw h (read_none s.tracks (length s.tracks) _ (past_end s.tracks))),
)
