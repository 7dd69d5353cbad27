-- ===== src/TrackList/RemoveRequest.antt =====
-- What the request to remove a track does.
use mathlib.Core.List.Perm
use media_hub.Prelude.{
  ℕ, ◌<◌, ◌≡◌, ◌≢◌, sym, ap, ◌∙◌, inl, inr, Bool-cases, false, some, List, [], ◌∷◌, Perm, arith,
  length, get_elem?, find, text_dec, ◌==◌, mem_of_get_elem?, find-lt_of_mem, get_elem?-find,
}
use mathlib.Core.List.{mem-cons}
use media_hub.TrackList.State.{TrackId, State, at, done, read_lem}
use media_hub.TrackList.Cursor.{find_track, current_iterator}
use media_hub.TrackList.Editing.{remove_track, go_to}
use media_hub.TrackList.Invariant.{IsValid}
use media_hub.TrackList.Current.{IsCurrent}
use media_hub.TrackList.Removing.{remove_track_correct, cursor_to}
use media_hub.TrackList.Moving.{not_end}
use mathlib.Core.Logic.Or
use native.Mathlib.Bridge.{le_prop}
use media_hub.TrackList.Requests.{Reply, handle_remove_track, following}

-- The chosen track is still there after the removal of another one, and is then current.
kept-IsCurrent :
    (s t : State) (id next : TrackId) (j : ℕ)
    → get_elem? s.tracks j ≡ some next
    → next ≢ id
    → Perm s.tracks (id ∷ t.tracks)
    → t.current_track ≡ cursor_to next t.tracks
    → IsCurrent t next
kept-IsCurrent s t id next j e ne p c =
    inr (find text_dec next t.tracks, c ∙ found, get_elem?-find text_dec next t.tracks here)
  where
    here : find text_dec next t.tracks < length t.tracks
    here =
        Or.elim le_prop (mem-cons.0 ((Perm.mem_iff p).0 (mem_of_get_elem? s.tracks j e)))
          (λ q. absurd (ne q)) (λ m. find-lt_of_mem text_dec next t.tracks m)

    found : cursor_to next t.tracks ≡ at (find text_dec next t.tracks)
    found = ground (arith, here)

current_iterator_lem :
    (s : State) (i : ℕ) → s.current_track ≡ at i → current_iterator s ≡ done (at i) s
unfolding current_iterator
current_iterator_lem s i e = ground arith

module _ (s : State) (v : IsValid s) (id : TrackId) (listed : find_track s id < length s.tracks)
    (cur : s.current_track ≡ at (find_track s id)) (next : TrackId)
    (h : following s (find_track s id) < length s.tracks)
    (e : get_elem? s.tracks (following s (find_track s id)) ≡ some next) (ne : next ≢ id)
    (named : next ≢ []) where
  advanced : State
  advanced = record s { current_track = at (following s (find_track s id)); id_after_remove = next }

module _ (s : State) (v : IsValid s) (id : TrackId) (listed : find_track s id < length s.tracks)
    (j : ℕ) (cur : s.current_track ≡ at j) (c : TrackId) (e : get_elem? s.tracks j ≡ some c)
    (ne : c ≢ id) where
  noted : State
  noted = record s { id_after_remove = c }

  noted-IsValid : IsValid noted
  unfolding noted
  noted-IsValid = record {
    in_range = v.in_range;
    issued = v.issued;
    distinct = v.distinct;
    counted = v.counted;
    same_tracks = v.same_tracks;
  }

  elsewhere : (find_track s id == j) ≡ false
  elsewhere = elim (Bool-cases (find_track s id == j)) [
    | inr n ↦ n
    | inl y ↦
        let q : find_track s id ≡ j = ground arith in
        let f : get_elem? s.tracks j ≡ some id =
          ap (get_elem? s.tracks) (sym q) ∙ get_elem?-find text_dec id s.tracks listed in
        absurd (ne (cc))
  ]

  remove_other_lem :
      (t : State) → remove_track id noted ≡ done tt t → handle_remove_track id s ≡ done Reply.ok t
  unfolding handle_remove_track noted go_to
  remove_other_lem t r =
      rw (not_end listed)
        (ground (arith, current_iterator_lem s j cur, elsewhere, read_lem s.tracks j s e, r))

  -- When a track of a valid list other than the current one is removed, the request succeeds: that track alone is
  -- gone, the current track stays current, and the list stays valid.
  pub remove_other_correct :
      (t : State) × (handle_remove_track id s ≡ done Reply.ok t)
      × IsValid t
      × Perm s.tracks (id ∷ t.tracks)
      × IsCurrent t c
  unfolding noted
  remove_other_correct =
      let (t, r, w, p, d, _) = remove_track_correct noted noted-IsValid id listed in
      (t, remove_other_lem t r, w, p, kept-IsCurrent s t id c j e ne p d)
