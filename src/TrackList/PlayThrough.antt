-- ===== src/TrackList/PlayThrough.antt =====
-- Repeated calls of `next`: the whole list, in the order of play.
use mathlib.Core.List.Perm
use media_hub.Prelude.{
  ℕ, zero, suc, ◌<◌, ◌≤◌, ◌≡◌, refl, sym, subst, ◌∙◌, inl, inr, true, false, Bool-cases, Option,
  none, some, List, [], ◌∷◌, Perm, length, get_elem?, lt_of_get_elem?, find-get_elem?,
  get_elem?-find, find-lt_of_mem, mem_of_get_elem?, find, text_dec, arith, if◌then◌else◌,
}
use media_hub.Media.{LoopStatus}
use media_hub.TrackList.State.{TrackId, at, State, Outcome, done, M, ◌>>=◌, pure}
use media_hub.TrackList.Navigation.{next}
use media_hub.TrackList.Invariant.{IsValid, cursor-IsValid, listed_of_shuffled}
use media_hub.TrackList.Next.{forward, arrive, end_of, next_in_order}
use media_hub.TrackList.NextShuffled.{next_shuffled}

-- The order in which the tracks are played.
abbrev pub order : State → List TrackId
order s = if s.shuffle then s.shuffled_tracks else s.tracks

-- `k` calls of `next`, with what they return.
unfoldable pub plays : ℕ → M (List TrackId)
plays zero = pure []
plays (suc k) = do id ← next; ids ← plays k; pure (id ∷ ids)

-- What is left of a list from place `p`.
abbrev pub drop : ℕ → List TrackId → List TrackId
drop zero xs = xs
drop (suc p) [] = []
drop (suc p) (x ∷ xs) = drop p xs

abbrev pub last : TrackId → List TrackId → TrackId
last x [] = x
last x (y ∷ ys) = last y ys

get_elem?-drop :
    (p : ℕ) (xs : List TrackId) {x : TrackId} {r : List TrackId}
    → drop p xs ≡ x ∷ r
    → get_elem? xs p ≡ some x
get_elem?-drop zero [] e = cc
get_elem?-drop zero (y ∷ xs) e = cc
get_elem?-drop (suc p) [] e = cc
get_elem?-drop (suc p) (y ∷ xs) e = get_elem?-drop p xs e

drop-suc :
    (p : ℕ) (xs : List TrackId) {x : TrackId} {r : List TrackId}
    → drop p xs ≡ x ∷ r
    → drop (suc p) xs ≡ r
drop-suc zero [] e = cc
drop-suc zero (y ∷ xs) e = cc
drop-suc (suc p) [] e = cc
drop-suc (suc p) (y ∷ xs) e = drop-suc p xs e

length-drop : (p : ℕ) (xs : List TrackId) → drop p xs ≡ [] → length xs ≤ p
length-drop zero [] e = omega arith
length-drop zero (x ∷ xs) e = cc
length-drop (suc p) [] e = omega arith
length-drop (suc p) (x ∷ xs) e = omega (arith, length-drop p xs e)

-- `id` is at the cursor.
abbrev pub IsAt : State → TrackId → Type 0
IsAt s id = (i : ℕ) × (s.current_track ≡ at i) × (get_elem? s.tracks i ≡ some id)

-- Where a run of `next` goes from place `p` of the order.
abbrev from : State → TrackId → Option TrackId → Outcome TrackId
from s id none = done id (end_of s)
from s id (some y) = done y (arrive s (find text_dec y s.tracks) y)

forward-none : (n p : ℕ) → suc p < n → forward LoopStatus.none n p ≡ some (suc p)
unfolding forward
forward-none n p h = ground arith

forward-end : (n p : ℕ) → n ≤ suc p → forward LoopStatus.none n p ≡ none
unfolding forward
forward-end n p h = ground arith

module _ (s : State) (v : IsValid s) (once : s.loop_status ≡ LoopStatus.none) (id : TrackId) where
  step_in_order :
      (p : ℕ) (rest : List TrackId)
      → s.shuffle ≡ false
      → IsAt s id
      → drop p s.tracks ≡ id ∷ rest
      → next s ≡ from s id (get_elem? rest 0)
  step_in_order p [] off (i, c, e) d =
      let same : i ≡ p =
        sym (find-get_elem? text_dec s.tracks i v.distinct e)
        ∙ find-get_elem? text_dec s.tracks p v.distinct (get_elem?-drop p s.tracks d) in
      let short = length-drop (suc p) s.tracks (drop-suc p s.tracks d) in
      ground (arith, next_in_order s i off c id e, forward-end (length s.tracks) i)
  step_in_order p (y ∷ r) off (i, c, e) d =
      let same : i ≡ p =
        sym (find-get_elem? text_dec s.tracks i v.distinct e)
        ∙ find-get_elem? text_dec s.tracks p v.distinct (get_elem?-drop p s.tracks d) in
      let g = get_elem?-drop (suc p) s.tracks (drop-suc p s.tracks d) in
      let f = find-get_elem? text_dec s.tracks (suc p) v.distinct g in
      ground (
        arith,
        next_in_order s i off c id e,
        forward-none (length s.tracks) i,
        lt_of_get_elem? s.tracks (suc p) g,
      )

  step_shuffled :
      (p : ℕ) (rest : List TrackId)
      → s.shuffle ≡ true
      → IsAt s id
      → drop p s.shuffled_tracks ≡ id ∷ rest
      → next s ≡ from s id (get_elem? rest 0)
  step_shuffled p [] on (i, c, e) d =
      let apart = Perm.nodup (Perm.symm (v.same_tracks on)) v.distinct in
      let f =
        find-get_elem? text_dec s.shuffled_tracks p apart (get_elem?-drop p s.shuffled_tracks d) in
      let short = length-drop (suc p) s.shuffled_tracks (drop-suc p s.shuffled_tracks d) in
      ground (arith, next_shuffled s v i id on c e, forward-end (length s.shuffled_tracks) p)
  step_shuffled p (y ∷ r) on (i, c, e) d =
      let apart = Perm.nodup (Perm.symm (v.same_tracks on)) v.distinct in
      let f =
        find-get_elem? text_dec s.shuffled_tracks p apart (get_elem?-drop p s.shuffled_tracks d) in
      let g = get_elem?-drop (suc p) s.shuffled_tracks (drop-suc p s.shuffled_tracks d) in
      ground (
        arith,
        next_shuffled s v i id on c e,
        forward-none (length s.shuffled_tracks) p,
        lt_of_get_elem? s.shuffled_tracks (suc p) g,
      )

  step :
      (p : ℕ) (rest : List TrackId)
      → IsAt s id
      → drop p (order s) ≡ id ∷ rest
      → next s ≡ from s id (get_elem? rest 0)
  step p rest h d = elim (Bool-cases s.shuffle) [
    | inl on ↦
        step_shuffled p rest on h
          (subst (λ b. drop p (if b then s.shuffled_tracks else s.tracks) ≡ id ∷ rest) on d)
    | inr off ↦
        step_in_order p rest off h
          (subst (λ b. drop p (if b then s.shuffled_tracks else s.tracks) ≡ id ∷ rest) off d)
  ]

-- Any track of the order is listed.
order-listed :
    (s : State) (p : ℕ) {y : TrackId}
    → IsValid s
    → get_elem? (order s) p ≡ some y
    → find text_dec y s.tracks < length s.tracks
order-listed s p {y} v e = elim (Bool-cases s.shuffle) [
  | inl on ↦
      listed_of_shuffled s v on p
        (subst (λ b. get_elem? (if b then s.shuffled_tracks else s.tracks) p ≡ some y) on e)
  | inr off ↦ find-lt_of_mem text_dec y s.tracks (
      mem_of_get_elem? s.tracks p
        (subst (λ b. get_elem? (if b then s.shuffled_tracks else s.tracks) p ≡ some y) off e))
]

order-perm : (s : State) → IsValid s → Perm (order s) s.tracks
order-perm s v = elim (Bool-cases s.shuffle) [
  | inl on ↦
      subst (λ b. Perm (if b then s.shuffled_tracks else s.tracks) s.tracks) (sym on)
        (v.same_tracks on)
  | inr off ↦
      subst (λ b. Perm (if b then s.shuffled_tracks else s.tracks) s.tracks) (sym off)
        (Perm.refl s.tracks)
]

-- The state after the rest of the order was played.
abbrev pub IsPlayed : State → TrackId → List TrackId → State → Type 0
IsPlayed s id rest t =
    (plays (length rest) s ≡ done rest t)
    × IsValid t
    × (t.tracks ≡ s.tracks)
    × (next t ≡ done (last id rest) (end_of t))

play_rest :
    (s : State) (id : TrackId) (p : ℕ) (rest : List TrackId)
    → IsValid s
    → s.loop_status ≡ LoopStatus.none
    → IsAt s id
    → drop p (order s) ≡ id ∷ rest
    → (t : State) × IsPlayed s id rest t
unfolding plays
play_rest s id p [] v once h d = (s, (refl, v, refl, step s v once id p [] h d))
play_rest s id p (y ∷ r) v once h d =
    let here =
      order-listed s (suc p) v (get_elem?-drop (suc p) (order s) (drop-suc p (order s) d)) in
    let j = find text_dec y s.tracks in
    let moved = arrive s j y in
    let (t, (run, ok, same, final)) =
      play_rest moved y (suc p) r (cursor-IsValid s (at j) moved.sent v here) once
        (j, refl, get_elem?-find text_dec y s.tracks here) (drop-suc p (order s) d) in
    (t, (ground (arith, step s v once id p (y ∷ r) h d), ok, same, final))

-- On a valid list that does not loop, with the first track of the order of play current, calling `next` as
-- often as there are further tracks returns all of them in that order, with or without shuffle, so that
-- each track of the list is played exactly once; the next call reports the end of the list.
pub play_through :
    (s : State) (id : TrackId) (rest : List TrackId)
    → IsValid s
    → s.loop_status ≡ LoopStatus.none
    → order s ≡ id ∷ rest
    → IsAt s id
    → Perm (id ∷ rest) s.tracks × ((t : State) × IsPlayed s id rest t)
play_through s id rest v once o h =
    (subst (λ xs. Perm xs s.tracks) o (order-perm s v), play_rest s id 0 rest v once h o)
