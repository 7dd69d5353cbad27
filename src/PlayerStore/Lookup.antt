-- ===== src/PlayerStore/Lookup.antt =====
-- The player store as a map: what a key finds after each operation, and the current player.
use media_hub.Prelude.{
  ◌≡◌, ◌≢◌, refl, sym, subst, Option, none, some, lookup, put, lookup-put, lookup-put_other,
  lookup-erase, lookup-erase_other, ℕ_discrete, ◌⊎◌, inl, inr, Option-cases, arith, ◌∙◌,
  if◌then◌else◌,
}
use media_hub.PlayerStore.{
  PlayerStore, PlayerKey, PlayerPtr, player_for_key, add_player_for_key, remove_player_for_key,
  set_current_player_for_key, without, is_current,
}

-- The current player is one that a key finds.
abbrev pub CurrentIsKnown : PlayerStore → Type 0
CurrentIsKnown s =
    (p : PlayerPtr) → s.current_player ≡ some p → (k : PlayerKey) × (player_for_key k s ≡ some p)

-- Where the current player is a known one, a player added under a key that was free is found there, every other key finds what it found,
-- and the current player is still a known one.
pub add_player_correct :
    (s : PlayerStore) (key : PlayerKey) (p : PlayerPtr)
    → player_for_key key s ≡ none
    → CurrentIsKnown s
    → (player_for_key key (add_player_for_key key p s) ≡ some p)
      × ((k : PlayerKey)
          → k ≢ key
          → player_for_key k (add_player_for_key key p s) ≡ player_for_key k s)
      × CurrentIsKnown (add_player_for_key key p s)
unfolding add_player_for_key
add_player_correct s key p free known = (
  lookup-put ℕ_discrete key p s.map,
  (λ k n. lookup-put_other ℕ_discrete k key p s.map n),
  (λ q e. let (k, f) = known q e in (k, cc_other k q f)),
)
  where
    cc_other :
        (k : PlayerKey) (q : PlayerPtr)
        → player_for_key k s ≡ some q
        → lookup ℕ_discrete k (put ℕ_discrete key p s.map) ≡ some q
    cc_other k q f = elim (ℕ_discrete k key) [
      | yes e ↦ ground (arith)
      | no n ↦ rw (lookup-put_other ℕ_discrete k key p s.map n) f
    ]

-- `t` is `s` without `key`.
abbrev pub WithoutKey : PlayerKey → PlayerStore → PlayerStore → Type 0
WithoutKey key s t =
    (player_for_key key t ≡ none)
    × ((k : PlayerKey) → k ≢ key → player_for_key k t ≡ player_for_key k s)
    × ((p : PlayerPtr) → player_for_key key s ≡ some p → t.current_player ≢ some p)
    × CurrentIsKnown t

not_current :
    (p q : PlayerPtr) (c : Option PlayerPtr)
    → (if is_current p c then none else c) ≡ some q
    → (p ≢ q) × (c ≡ some q)
not_current p q none e = ground arith
not_current p q (some r) e = ground arith

without-WithoutKey :
    (s : PlayerStore) (key : PlayerKey) (p : PlayerPtr)
    → CurrentIsKnown s
    → player_for_key key s ≡ some p
    → WithoutKey key s (without key p s)
without-WithoutKey s key p known e = (
  lookup-erase ℕ_discrete key s.map,
  (λ k n. lookup-erase_other ℕ_discrete k key s.map n),
  (λ q f g. (not_current p q s.current_player g).0 (cc)),
  still,
)
  where
    still : CurrentIsKnown (without key p s)
    still q g =
        let (n, h) = not_current p q s.current_player g in
        let (k, f) = known q h in (k, lookup-erase_other ℕ_discrete k key s.map (λ d. n (cc)) ∙ f)

remove_unknown :
    (s : PlayerStore) (key : PlayerKey)
    → player_for_key key s ≡ none
    → remove_player_for_key key s ≡ s
unfolding remove_player_for_key
remove_unknown s key e = ground arith

remove_known :
    (s : PlayerStore) (key : PlayerKey) (p : PlayerPtr)
    → player_for_key key s ≡ some p
    → remove_player_for_key key s ≡ without key p s
unfolding remove_player_for_key
remove_known s key p e = ground arith

-- Where the current player is a known one: a removed key finds no player, every other key finds
-- what it found, the removed player is not current, and the current player is still a known one.
pub remove_player_correct :
    (s : PlayerStore) (key : PlayerKey)
    → CurrentIsKnown s
    → WithoutKey key s (remove_player_for_key key s)
remove_player_correct s key known = elim (Option-cases (player_for_key key s)) [
  | inl e ↦
      subst (WithoutKey key s) (sym (remove_unknown s key e))
        (e, (λ k n. refl), (λ p f g. cc), known)
  | inr (p, e) ↦
      subst (WithoutKey key s) (sym (remove_known s key p e)) (without-WithoutKey s key p known e)
]

-- A key that finds a player makes that one current and changes nothing else; another key throws.
pub set_current_player_correct :
    (s : PlayerStore) (key : PlayerKey)
    → ((set_current_player_for_key key s ≡ none) × (player_for_key key s ≡ none))
      ⊎ ((p : PlayerPtr) × (t : PlayerStore) × (player_for_key key s ≡ some p)
          × (set_current_player_for_key key s ≡ some t)
          × (t ≡ record s { current_player = some p })
          × CurrentIsKnown t)
unfolding set_current_player_for_key
set_current_player_correct s key = elim (Option-cases (player_for_key key s)) [
  | inl e ↦ inl (rw e refl, e)
  | inr (p, e) ↦
      inr (p, record s { current_player = some p }, e, rw e refl, refl, (λ q f. (key, cc)))
]
