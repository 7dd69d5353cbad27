-- ===== src/TrackList/Adding.antt =====
-- What adding a track does, and that it keeps the invariant.
use mathlib.Core.List.{Nodup-cons}
use mathlib.Core.List.Perm
use native.Mathlib.Nat.{mod-eq_of_lt}
use media_hub.Prelude.{
  ℕ, ◌+◌, ◌%◌, ◌<◌, ◌≡◌, ◌≢◌, refl, sym, ◌∙◌, true, some, Option-cases, inl, inr, List, [], ◌∷◌,
  Perm, length, length-insert_at, insert_at, insert_at-perm, arith,
}
use media_hub.TrackList.State.{
  TrackId, UriType, MetaData, Iter, null, at, State, cached, recache, size_max,
}
use media_hub.TrackList.Cursor.{find_track}
use media_hub.TrackList.Editing.{
  place_track, insert_shuffled, query_uri_for_track, new_id, count_track,
}
use media_hub.TrackList.Invariant.{IsValid, IsIssued, InRange}
use media_hub.TrackList.Ids.{fresh_id, IsIssued-mono, All-insert_at}

-- `recache` gives a known id its new uri, and leaves the other ids.
cached-recache_self :
    (id : TrackId) (uri : UriType) (m : List (TrackId × (UriType × MetaData)))
    (e : UriType × MetaData)
    → cached id m ≡ some e
    → cached id (recache id uri m) ≡ some (uri, e.1)
unfolding cached recache
cached-recache_self id uri [] e h = cc
cached-recache_self id uri ((k, (u, md)) ∷ m) e h = ground (arith, cached-recache_self id uri m e)

cached-recache_ne :
    (id j : TrackId) (uri : UriType) (m : List (TrackId × (UriType × MetaData)))
    → j ≢ id
    → cached j (recache id uri m) ≡ cached j m
unfolding cached recache
cached-recache_ne id j uri [] h = refl
cached-recache_ne id j uri ((k, (u, md)) ∷ m) h = ground (arith, cached-recache_ne id j uri m)

module _ (id : TrackId) (uri : UriType) (position : TrackId) (s : State) where
  -- A placed track answers with its uri.
  pub query_uri-place : query_uri_for_track (place_track id uri position s) id ≡ uri
  unfolding query_uri_for_track place_track insert_shuffled cached
  query_uri-place = elim (Option-cases (cached id s.meta_data_cache)) [
    | inl e ↦ ground arith
    | inr (x, e) ↦ ground (arith, cached-recache_self id uri s.meta_data_cache x e)
  ]

  -- The other tracks answer as before.
  pub query_uri-place_ne :
      (j : TrackId)
      → j ≢ id
      → query_uri_for_track (place_track id uri position s) j ≡ query_uri_for_track s j
  unfolding query_uri_for_track place_track insert_shuffled cached
  query_uri-place_ne j h = ground (arith, cached-recache_ne id j uri s.meta_data_cache)

  pub tracks-place :
      (place_track id uri position s).tracks ≡ insert_at s.tracks (find_track s position) id
  unfolding place_track insert_shuffled
  tracks-place = ground arith

  shuffled_place :
      (xs : List TrackId)
      → s.shuffled_tracks ≡ xs
      → (k : ℕ) × ((insert_shuffled id s).shuffled_tracks ≡ insert_at s.shuffled_tracks k id)
  unfolding insert_shuffled insert_at
  shuffled_place [] e = (0, ground arith)
  shuffled_place (x ∷ xs) e = (s.rand s.drawn % (length s.shuffled_tracks + 1), ground arith)

  by_shuffle :
      s.shuffle ≡ true
      → (place_track id uri position s).shuffled_tracks ≡ (insert_shuffled id s).shuffled_tracks
  unfolding place_track insert_shuffled
  by_shuffle h = ground arith

  pub shuffled-place :
      s.shuffle ≡ true
      → Perm (place_track id uri position s).shuffled_tracks (id ∷ s.shuffled_tracks)
  shuffled-place h =
      let (k, e) = shuffled_place s.shuffled_tracks refl in
      rw (by_shuffle h, e) (insert_at-perm s.shuffled_tracks k id)

  pub frame-place :
      let t = place_track id uri position s in
      (t.path ≡ s.path)
      × (t.current_track ≡ s.current_track)
      × (t.track_counter ≡ s.track_counter)
      × (t.shuffle ≡ s.shuffle)
      × (t.sent ≡ s.sent)
      × (t.loop_status ≡ s.loop_status)
      × (t.current_position ≡ s.current_position)
  unfolding place_track insert_shuffled
  frame-place = ground arith

module _ (s t : State) (i : ℕ) (v : IsValid s) (room : s.track_counter + 1 < size_max)
    (tracks : t.tracks ≡ insert_at s.tracks i (new_id s)) where
  -- A list with one new track, at any place, keeps the invariant.
  pub added-IsValid :
      t.path ≡ s.path
      → t.track_counter ≡ (s.track_counter + 1) % size_max
      → t.shuffle ≡ s.shuffle
      → (s.shuffle ≡ true → Perm t.shuffled_tracks (new_id s ∷ s.shuffled_tracks))
      → InRange (length t.tracks) t.current_track
      → IsValid t
  added-IsValid path counter shuffle shuffled range = record {
    in_range = range;
    issued =
        rw (path, counter, tracks, mod-eq_of_lt room)
          (All-insert_at (IsIssued s.path (s.track_counter + 1)) s.tracks i (new_id s)
            (s.track_counter, omega arith, refl)
            (IsIssued-mono s.path s.track_counter (s.track_counter + 1) s.tracks (omega arith)
              v.issued));
    distinct = rw tracks (
        Perm.nodup (Perm.symm (insert_at-perm s.tracks i (new_id s)))
          (Nodup-cons.1 (fresh_id s.path s.track_counter s.tracks v.issued, v.distinct)));
    counted = omega (arith, counter);
    same_tracks = λ h.
        let on = sym shuffle ∙ h in
        Perm.trans (shuffled on) (
          Perm.trans (Perm.cons (new_id s) (v.same_tracks on))
            (rw tracks (Perm.symm (insert_at-perm s.tracks i (new_id s)))));
  }

InRange-insert_at :
    (xs : List TrackId) (i : ℕ) (id : TrackId) (it : Iter)
    → InRange (length xs) it
    → InRange (length (insert_at xs i id)) it
InRange-insert_at xs i id null h = tt
InRange-insert_at xs i id (at k) h = omega (arith, length-insert_at xs i id)

-- A new track is placed with the invariant kept; the current track's index stays in range.
pub place-IsValid :
    (uri : UriType) (position : TrackId) (s : State)
    → IsValid s
    → s.track_counter + 1 < size_max
    → IsValid (place_track (new_id s) uri position (count_track s))
place-IsValid uri position s v room =
    let id = new_id s in
    let f = frame-place id uri position (count_track s) in
    let e = tracks-place id uri position (count_track s) in
    added-IsValid s (place_track id uri position (count_track s)) (find_track s position) v room e
      f.0 f.2 f.3 (shuffled-place id uri position (count_track s))
      (rw (e, f.1)
        (InRange-insert_at s.tracks (find_track s position) id s.current_track v.in_range))
