-- ===== src/TrackList/Playlist.antt =====
-- What the edits of a track list promise, the order and the representation left aside.
use media_hub.Prelude.{
  ◌+◌, ◌<◌, ◌≡◌, ◌≢◌, refl, sym, ap, subst, ◌∙◌, inl, inr, Bool, List, [], ◌∷◌, Mem, Perm, length,
  get_elem?-lt, insert_at-perm,
}
use media_hub.TrackList.State.{
  TrackId, UriType, Iter, null, at, State, done, threw, fault, M, ◌>>=◌, size_max,
}
use media_hub.TrackList.Cursor.{find_track}
use media_hub.TrackList.Editing.{
  add_track_with_uri_at, remove_track, move_track, set_shuffle, reset, new_id,
}
use media_hub.TrackList.Invariant.{IsValid, InRange}
use media_hub.TrackList.Ids.{fresh_id}
use media_hub.TrackList.Current.{IsCurrent}
use media_hub.TrackList.AddTrack.{add_track_correct}
use media_hub.TrackList.Removing.{remove_track_correct, set_shuffle-IsValid, reset_correct}
use media_hub.TrackList.Moving.{move_track_correct}

pub data Edit : Type 0 where
  add : UriType → TrackId → Bool → Edit
  remove : TrackId → Edit
  move : TrackId → TrackId → Edit
  shuffle : (List TrackId → List TrackId) → Bool → Edit
  clear : Edit

-- The edit as the implementation carries it out.
unfoldable pub apply : Edit → M (Unit {0})
apply (Edit.add uri position make_current) = add_track_with_uri_at uri position make_current
apply (Edit.remove id) = remove_track id
apply (Edit.move id to) = do _ ← move_track id to; done tt
apply (Edit.shuffle order on) = set_shuffle order on
apply Edit.clear = reset

unfoldable pub apply_each : List Edit → M (Unit {0})
unfolding apply
apply_each [] = done tt
apply_each (e ∷ es) = do _ ← apply e; apply_each es

-- When an edit may be asked for: room for an id, listed tracks, a current track for a move, and a shuffle that reorders.
unfoldable pub Allowed : Edit → State → Type 0
Allowed (Edit.add uri position make_current) s = s.track_counter + 1 < size_max
Allowed (Edit.remove id) s = find_track s id < length s.tracks
Allowed (Edit.move id to) s =
    (find_track s id < length s.tracks)
    × (find_track s to < length s.tracks)
    × (id ≢ to)
    × (s.current_track ≢ null)
Allowed (Edit.shuffle order on) s = (xs : List TrackId) → Perm (order xs) xs
Allowed Edit.clear s = Unit

unfoldable pub AllAllowed : List Edit → State → Type 0
AllAllowed [] s = Unit
AllAllowed (e ∷ es) s = Allowed e s × ((t : State) → apply e s ≡ done tt t → AllAllowed es t)

-- What an edit does to the tracks as a collection: one new track more, one less, the same, or none.
unfoldable pub Changes : Edit → List TrackId → List TrackId → Type 0
Changes (Edit.add uri position make_current) xs ys =
    (id : TrackId) × ((¬ Mem id xs) × Perm ys (id ∷ xs))
Changes (Edit.remove id) xs ys = Perm xs (id ∷ ys)
Changes (Edit.move id to) xs ys = Perm ys xs
Changes (Edit.shuffle order on) xs ys = ys ≡ xs
Changes Edit.clear xs ys = ys ≡ []

unfoldable pub ChangesEach : List Edit → List TrackId → List TrackId → Type 0
unfolding Changes
ChangesEach [] xs ys = ys ≡ xs
ChangesEach (e ∷ es) xs ys = (zs : List TrackId) × (Changes e xs zs × ChangesEach es zs ys)

some-IsCurrent : (s : State) → IsValid s → (id : TrackId) × IsCurrent s id
some-IsCurrent s v = go s.current_track refl v.in_range
  where
    go :
        (it : Iter)
        → s.current_track ≡ it
        → InRange (length s.tracks) it
        → (id : TrackId) × IsCurrent s id
    go null e h = ([], inl (e, refl))
    go (at i) e h = let (id, f) = get_elem?-lt s.tracks i h in (id, inr (i, e, f))

move-Changes :
    (id to : TrackId) (s : State) (v : IsValid s)
    → find_track s id < length s.tracks
    → find_track s to < length s.tracks
    → id ≢ to
    → s.current_track ≢ null
    → (t : State) × ((apply (Edit.move id to) s ≡ done tt t) × IsValid t × Perm t.tracks s.tracks)
unfolding apply
move-Changes id to s v h g ne c = go s.current_track refl v.in_range
  where
    go :
        (it : Iter)
        → s.current_track ≡ it
        → InRange (length s.tracks) it
        → (t : State) × ((apply (Edit.move id to) s ≡ done tt t)
            × IsValid t
            × Perm t.tracks s.tracks)
    go null e r = absurd (c e)
    go (at i) e r =
        let (a, f) = get_elem?-lt s.tracks i r in
        let (t, m, w, p, _, _, _) = move_track_correct s v id to h g i a e f ne in
        (
          t,
          (
            ap (λ o. elim o [ done b u ↦ done tt u | threw x u ↦ threw x u | fault ↦ fault ]) m,
            w,
            p,
          ),
        )

-- On a valid list every edit that may be asked for succeeds, keeps the list valid and does to the tracks what it promises.
apply_correct :
    (e : Edit) (s : State)
    → IsValid s
    → Allowed e s
    → (t : State) × ((apply e s ≡ done tt t) × IsValid t × Changes e s.tracks t.tracks)
unfolding apply Allowed Changes
apply_correct (Edit.add uri position make_current) s v room =
    let (c, cur) = some-IsCurrent s v in
    let (t, e, w, tracks, _, _) = add_track_correct uri position c s v room cur make_current in
    (
      t,
      (
        e,
        w,
        (
          new_id s,
          (
            fresh_id s.path s.track_counter s.tracks v.issued,
            subst (λ ys. Perm ys (new_id s ∷ s.tracks)) (sym tracks)
                (insert_at-perm s.tracks (find_track s position) (new_id s)),
          ),
        ),
      ),
    )
apply_correct (Edit.remove id) s v h =
    let (t, e, w, p, _, _) = remove_track_correct s v id h in (t, (e, w, p))
apply_correct (Edit.move id to) s v (h, g, ne, c) = move-Changes id to s v h g ne c
apply_correct (Edit.shuffle order on) s v mixes =
    let (t, e, w, _, same) = set_shuffle-IsValid order mixes on s v in (t, (e, w, same))
apply_correct Edit.clear s v u =
    let (t, e, w, none_left, _, _, _) = reset_correct s in (t, (e, w, none_left))

-- A run of edits, each of which may be asked for where its turn comes, succeeds on a valid list, leaves it valid, and does to the tracks, as a collection, what the edits promise one after another.
pub edits_refine_collection :
    (es : List Edit) (s : State)
    → IsValid s
    → AllAllowed es s
    → (t : State) × ((apply_each es s ≡ done tt t) × IsValid t × ChangesEach es s.tracks t.tracks)
unfolding apply_each AllAllowed ChangesEach
edits_refine_collection [] s v u = (s, (refl, v, refl))
edits_refine_collection (e ∷ es) s v (a, later) =
    let (t, (x, w, c)) = apply_correct e s v a in
    let (u, (y, z, d)) = edits_refine_collection es t w (later t x) in
    (
      u,
      (
        ap (λ o. elim o [ done b r ↦ apply_each es r | threw q r ↦ threw q r | fault ↦ fault ]) x
            ∙ y,
        z,
        (t.tracks, (c, d)),
      ),
    )
