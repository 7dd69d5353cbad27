-- ===== src/Prelude/Splices.antt =====
-- A run of elements put into a list at an index.
use native.Mathlib.Nat.{suc-add}
use Prim.Native.Nat.{ℕ, zero, suc, ◌+◌, ◌≤◌}
use mathlib.Core.Path.{◌≡◌, refl, ap}
use mathlib.Core.Logic.{◌≢◌, ∨₁_prop}
use mathlib.Core.List.{List, [], ◌∷◌, ◌++◌, Mem, mem-cons, mem-append_right, not-mem-nil}
use mathlib.Core.Logic.Or
use native.Mathlib.Omega.{arith}
use media_hub.Prelude.Lists.{length, insert_at, find}

module _ {ℓ} {A : Type ℓ} where
  -- `ys` between the first `i` elements and the others.
  abbrev pub splice : List A → ℕ → List A → List A
  splice xs zero ys = ys ++ xs
  splice [] (suc i) ys = ys
  splice (x ∷ xs) (suc i) ys = x ∷ splice xs i ys

  pub splice-nil : (xs : List A) (i : ℕ) → splice xs i [] ≡ xs
  splice-nil xs zero = refl
  splice-nil [] (suc i) = refl
  splice-nil (x ∷ xs) (suc i) = ap (◌∷◌ x) (splice-nil xs i)

  insert_at-append :
      (ys xs : List A) (a : A) → insert_at (ys ++ xs) (length ys) a ≡ (ys ++ a ∷ []) ++ xs
  unfolding insert_at
  insert_at-append [] xs a = refl
  insert_at-append (y ∷ ys) xs a = ap (◌∷◌ y) (insert_at-append ys xs a)

  -- One more element, after the run.
  pub insert_at-splice :
      (xs : List A) (i : ℕ) (ys : List A) (a : A)
      → i ≤ length xs
      → insert_at (splice xs i ys) (i + length ys) a ≡ splice xs i (ys ++ a ∷ [])
  unfolding insert_at
  insert_at-splice xs zero ys a h = ground (arith, insert_at-append ys xs a)
  insert_at-splice [] (suc i) ys a h = absurd (omega arith)
  insert_at-splice (x ∷ xs) (suc i) ys a h =
      rw suc-add (ap (◌∷◌ x) (insert_at-splice xs i ys a (omega arith)))

pub mem-splice {ℓ} :
    {A : Type ℓ} (xs : List A) (i : ℕ) (ys : List A) (a : A) → Mem a xs → Mem a (splice xs i ys)
mem-splice xs zero ys a m = mem-append_right ys m
mem-splice [] (suc i) ys a m = absurd (not-mem-nil m)
mem-splice (x ∷ xs) (suc i) ys a m =
    mem-cons.1 (Or.elim ∨₁_prop (mem-cons.0 m) Or.inl (λ r. Or.inr (mem-splice xs i ys a r)))

module _ {ℓ} {A : Type ℓ} (dec : Discrete A) where
  -- What is put before an element moves it one place on.
  pub find-insert_at :
      (p a : A) (xs : List A)
      → a ≢ p
      → find dec p (insert_at xs (find dec p xs) a) ≡ suc (find dec p xs)
  unfolding find insert_at
  find-insert_at p a [] h = ground arith
  find-insert_at p a (x ∷ xs) h = ground (arith, find-insert_at p a xs h)
