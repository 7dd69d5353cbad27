-- ===== src/TrackList/Ids.antt =====
-- The ids that the counter gives out.
use mathlib.Core.List.{mem-cons, not-mem-nil, append_cancel_left}
use mathlib.Core.Logic.Or
use mathlib.Core.HLevel.{⊥_prop}
use media_hub.Prelude.{
  ℕ, zero, suc, ◌<◌, ◌≡◌, ◌≢◌, sym, ◌∙◌, List, [], ◌∷◌, Mem, All, insert_at, erase_at, Text,
  decimal, decimal-injective, arith,
}
use media_hub.TrackList.State.{TrackId, make_id}
use media_hub.TrackList.Invariant.{IsIssued}

pub make_id-injective : (path : Text) (m n : ℕ) → make_id path m ≡ make_id path n → m ≡ n
unfolding make_id
make_id-injective path m n e =
    let f = append_cancel_left path (b'/' ∷ decimal m) (b'/' ∷ decimal n) e in
    decimal-injective m n (cc)

pub make_id-ne-nil : (path : Text) (n : ℕ) → make_id path n ≢ []
unfolding make_id
make_id-ne-nil [] n e = cc
make_id-ne-nil (c ∷ path) n e = cc

-- The next id is not in use.
pub fresh_id :
    (path : Text) (n : ℕ) (xs : List TrackId) → All (IsIssued path n) xs → ¬ Mem (make_id path n) xs
fresh_id path n [] h m = not-mem-nil m
fresh_id path n (x ∷ xs) h m =
    Or.elim ⊥_prop (mem-cons.0 m) (λ e. stale h.0 e) (λ r. fresh_id path n xs h.1 r)
  where
    stale : IsIssued path n x → make_id path n ≡ x → ⊥
    stale (k, lt, e) f = let g = make_id-injective path n k (f ∙ e) in omega arith

-- No id that was given out is empty.
pub nil_unlisted :
    (path : Text) (n : ℕ) (xs : List TrackId) → All (IsIssued path n) xs → ¬ Mem [] xs
nil_unlisted path n [] h m = not-mem-nil m
nil_unlisted path n (x ∷ xs) h m =
    Or.elim ⊥_prop (mem-cons.0 m) (λ e. make_id-ne-nil path h.0.0 (sym h.0.2 ∙ sym e))
      (λ r. nil_unlisted path n xs h.1 r)

pub IsIssued-mono :
    (path : Text) (m n : ℕ) (xs : List TrackId)
    → m < n
    → All (IsIssued path m) xs
    → All (IsIssued path n) xs
IsIssued-mono path m n [] h a = tt
IsIssued-mono path m n (x ∷ xs) h ((k, lt, e), r) =
    ((k, omega arith, e), IsIssued-mono path m n xs h r)

module _ {ℓ κ} {A : Type ℓ} (P : A → Type κ) where
  pub All-insert_at : (xs : List A) (i : ℕ) (a : A) → P a → All P xs → All P (insert_at xs i a)
  unfolding insert_at
  All-insert_at xs zero a h all = (h, all)
  All-insert_at [] (suc i) a h all = (h, tt)
  All-insert_at (x ∷ xs) (suc i) a h all = (all.0, All-insert_at xs i a h all.1)

  pub All-erase_at : (xs : List A) (i : ℕ) → All P xs → All P (erase_at xs i)
  unfolding erase_at
  All-erase_at [] i all = tt
  All-erase_at (x ∷ xs) zero all = all.1
  All-erase_at (x ∷ xs) (suc i) all = (all.0, All-erase_at xs i all.1)
