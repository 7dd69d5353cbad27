-- ===== src/TrackList/Removing.antt =====
-- `remove_track`, `set_shuffle` and `reset`.
use mathlib.Core.List.{Nodup-nil, Nodup-cons}
use mathlib.Core.List.Perm
use media_hub.Prelude.{
  ◌<◌, ◌≡◌, refl, sym, subst, dec_lt, inl, inr, Bool-cases, Bool, true, false, none, List, [], ◌∷◌,
  Perm, length, erase_at, erase_at-perm, find, find-le, get_elem?-find, text_dec, arith, ◌==◌,
  if◌then◌else◌,
}
use media_hub.TrackList.State.{
  TrackId, UriType, MetaData, Iter, null, at, Signal, State, done, uncache, cached,
}
use media_hub.TrackList.Cursor.{find_track, reset_current_iterator_if_needed}
use media_hub.TrackList.Editing.{
  remove_track, erase_track, erase_shuffled, set_shuffle, reset, query_uri_for_track,
}
use media_hub.TrackList.Invariant.{IsValid, IsIssued, InRange, shuffled_of_listed}
use media_hub.TrackList.Ids.{All-erase_at}

-- `find` of what is current after the removal.
abbrev pub cursor_to : TrackId → List TrackId → Iter
cursor_to id xs = if find text_dec id xs == length xs then null else at (find text_dec id xs)

erase_track_lem :
    (id : TrackId) (s : State)
    → find_track s id < length s.tracks
    → erase_track id s ≡ done tt (record s { tracks = erase_at s.tracks (find_track s id) })
unfolding erase_track
erase_track_lem id s h = ground arith

erase_shuffled_lem :
    (id : TrackId) (s : State)
    → find text_dec id s.shuffled_tracks < length s.shuffled_tracks
    → erase_shuffled id s
      ≡ done tt (record s {
        shuffled_tracks = erase_at s.shuffled_tracks (find text_dec id s.shuffled_tracks);
      })
unfolding erase_shuffled
erase_shuffled_lem id s h = ground arith

reset_current_lem :
    (s : State)
    → reset_current_iterator_if_needed s
      ≡ done tt (record s { current_track = cursor_to s.id_after_remove s.tracks })
unfolding reset_current_iterator_if_needed
reset_current_lem s = ground arith

cursor_to-InRange : (id : TrackId) (xs : List TrackId) → InRange (length xs) (cursor_to id xs)
cursor_to-InRange id xs = elim (dec_lt (find text_dec id xs) (length xs)) [
  | yes p ↦ subst (InRange (length xs)) (sym (found p)) p
  | no p ↦ subst (InRange (length xs)) (sym (missed p)) tt
]
  where
    found : find text_dec id xs < length xs → cursor_to id xs ≡ at (find text_dec id xs)
    found p = ground arith

    missed : ¬ (find text_dec id xs < length xs) → cursor_to id xs ≡ null
    missed p = ground (arith, find-le text_dec id xs)

cached-uncache :
    (id : TrackId) (m : List (TrackId × (UriType × MetaData))) → cached id (uncache id m) ≡ none
unfolding cached uncache
cached-uncache id [] = refl
cached-uncache id ((k, e) ∷ m) = ground (arith, cached-uncache id m)

module _ (s : State) (v : IsValid s) (id : TrackId)
    (listed : find_track s id < length s.tracks) where
  remaining : List TrackId
  remaining = erase_at s.tracks (find_track s id)

  remaining_shuffled : List TrackId
  remaining_shuffled =
      if s.shuffle
      then erase_at s.shuffled_tracks (find text_dec id s.shuffled_tracks)
      else s.shuffled_tracks

  removed : State
  removed = record s {
    tracks = remaining;
    current_track = cursor_to s.id_after_remove remaining;
    meta_data_cache = uncache id s.meta_data_cache;
    shuffled_tracks = remaining_shuffled;
    sent =
        if length remaining == 0
        then Signal.end_of_tracklist ∷ Signal.track_removed id ∷ s.sent
        else Signal.track_removed id ∷ s.sent;
  }

  shuffled_listed : s.shuffle ≡ true → find text_dec id s.shuffled_tracks < length s.shuffled_tracks
  shuffled_listed on =
      shuffled_of_listed s v on (find_track s id) (get_elem?-find text_dec id s.tracks listed)

  -- The states on the way.
  abbrev s1 : State
  s1 = record s { tracks = remaining }

  abbrev s2 : State
  s2 = record s1 {
    current_track = cursor_to s.id_after_remove remaining;
    meta_data_cache = uncache id s.meta_data_cache;
  }

  remove_track_lem : remove_track id s ≡ done tt removed
  unfolding remove_track removed remaining remaining_shuffled
  remove_track_lem = elim (Bool-cases s.shuffle) [
    | inl on ↦ ground (
      arith,
      erase_track_lem id s listed,
      reset_current_lem s1,
      erase_shuffled_lem id s2 (shuffled_listed on),
    )
    | inr off ↦ ground (arith, erase_track_lem id s listed, reset_current_lem s1)
  ]

  remaining-perm : Perm s.tracks (id ∷ remaining)
  unfolding remaining
  remaining-perm = erase_at-perm text_dec id s.tracks listed

  remaining_shuffled-perm : s.shuffle ≡ true → Perm remaining_shuffled remaining
  unfolding remaining_shuffled
  remaining_shuffled-perm on =
      subst
        (λ b.
          Perm
            (if b
              then erase_at s.shuffled_tracks (find text_dec id s.shuffled_tracks)
              else s.shuffled_tracks)
            remaining)
        (sym on)
        (Perm.cons_inv (
          Perm.trans (Perm.symm (erase_at-perm text_dec id s.shuffled_tracks (shuffled_listed on)))
            (Perm.trans (v.same_tracks on) remaining-perm)))

  removed-IsValid : IsValid removed
  unfolding removed remaining
  removed-IsValid = record {
    in_range = cursor_to-InRange s.id_after_remove remaining;
    issued = All-erase_at (IsIssued s.path s.track_counter) s.tracks (find_track s id) v.issued;
    distinct = (Nodup-cons.0 (Perm.nodup remaining-perm v.distinct)).1;
    counted = v.counted;
    same_tracks = remaining_shuffled-perm;
  }

  -- Removing a listed track of a valid list succeeds, keeps the invariant, takes out that track alone, in the shuffled order too, forgets
  -- its uri, and makes current the track that was chosen beforehand, if it is still there.
  pub remove_track_correct :
      (t : State) × (remove_track id s ≡ done tt t)
      × IsValid t
      × Perm s.tracks (id ∷ t.tracks)
      × (t.current_track ≡ cursor_to s.id_after_remove t.tracks)
      × (cached id t.meta_data_cache ≡ none)
  unfolding removed
  remove_track_correct = (
    removed,
    remove_track_lem,
    removed-IsValid,
    remaining-perm,
    refl,
    cached-uncache id s.meta_data_cache,
  )

-- Turning shuffle on or off keeps the tracks and the invariant, for every order that
-- random_shuffle may choose, if it is a reordering.
pub set_shuffle-IsValid :
    (order : List TrackId → List TrackId)
    → ((xs : List TrackId) → Perm (order xs) xs)
    → (on : Bool) (s : State) → IsValid s
    → (t : State) × (set_shuffle order on s ≡ done tt t)
      × IsValid t
      × (t.shuffle ≡ on)
      × (t.tracks ≡ s.tracks)
unfolding set_shuffle
set_shuffle-IsValid order mixes true s v = (
  record s { shuffle = true; shuffled_tracks = order s.tracks },
  refl,
  record {
    in_range = v.in_range;
    issued = v.issued;
    distinct = v.distinct;
    counted = v.counted;
    same_tracks = λ _. mixes s.tracks;
  },
  refl,
  refl,
)
set_shuffle-IsValid order mixes false s v = (
  record s { shuffle = false },
  refl,
  record {
    in_range = v.in_range;
    issued = v.issued;
    distinct = v.distinct;
    counted = v.counted;
    same_tracks = λ h. absurd (cc h);
  },
  refl,
  refl,
)

reset_state : State → State
reset_state s = record s {
  tracks = [];
  current_track = null;
  track_counter = 0;
  shuffled_tracks = [];
  sent = Signal.track_list_reset ∷ Signal.end_of_tracklist ∷ s.sent;
}

-- A reset leaves an empty list with no current track and the counter at 0, whatever came before.
-- The uris of the tracks are still known.
pub reset_correct :
    (s : State)
    → (t : State) × (reset s ≡ done tt t)
      × IsValid t
      × (t.tracks ≡ [])
      × (t.current_track ≡ null)
      × (t.track_counter ≡ 0)
      × ((id : TrackId) → query_uri_for_track t id ≡ query_uri_for_track s id)
unfolding reset reset_state query_uri_for_track
reset_correct s = (
  reset_state s,
  refl,
  record {
    in_range = tt;
    issued = tt;
    distinct = Nodup-nil;
    counted = omega arith;
    same_tracks = λ _. Perm.refl [];
  },
  refl,
  refl,
  refl,
  λ id. refl,
)
