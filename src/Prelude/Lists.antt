-- ===== src/Prelude/Lists.antt =====
-- Vectors measured and indexed by native numbers: find, insert, erase.
use Prim.Native.Nat.{ℕ, zero, suc, ◌+◌, ◌<◌, ◌≤◌}
use mathlib.Core.Path.{◌≡◌, refl, sym, ap, subst}
use mathlib.Core.Logic.{ite, if_pos, if_neg}
use mathlib.Core.List.{
  List, [], ◌∷◌, ◌++◌, Mem, Perm, mem-cons, mem-cons_self, not-mem-nil, Nodup, Nodup-cons,
}
use mathlib.Core.List.Perm
use mathlib.Core.Logic.Or
use native.Mathlib.Bridge.{le_prop}
use mathlib.Core.Option.{Option, none, some}
use native.Mathlib.Omega.{arith}

module _ {ℓ} {A : Type ℓ} where
  abbrev pub length : List A → ℕ
  length [] = 0
  length (x ∷ xs) = suc (length xs)

  abbrev pub get_elem? : List A → ℕ → Option A
  get_elem? [] i = none
  get_elem? (x ∷ xs) zero = some x
  get_elem? (x ∷ xs) (suc i) = get_elem? xs i

  -- `v.insert(v.begin() + i, a)`, for i up to the size.
  unfoldable pub insert_at : List A → ℕ → A → List A
  insert_at xs zero a = a ∷ xs
  insert_at [] (suc i) a = a ∷ []
  insert_at (x ∷ xs) (suc i) a = x ∷ insert_at xs i a

  -- `v.erase(v.begin() + i)`, for i below the size.
  unfoldable pub erase_at : List A → ℕ → List A
  erase_at [] i = []
  erase_at (x ∷ xs) zero = xs
  erase_at (x ∷ xs) (suc i) = x ∷ erase_at xs i

  abbrev pub All {κ} : (A → Type κ) → List A → Type κ
  All P [] = Unit
  All P (x ∷ xs) = P x × All P xs

  pub length-append : (xs ys : List A) → length (xs ++ ys) ≡ length xs + length ys
  length-append [] ys = omega arith
  length-append (x ∷ xs) ys = omega (arith, length-append xs ys)

  pub length-insert_at : (xs : List A) (i : ℕ) (a : A) → length (insert_at xs i a) ≡ suc (length xs)
  unfolding insert_at
  length-insert_at xs zero a = refl
  length-insert_at [] (suc i) a = refl
  length-insert_at (x ∷ xs) (suc i) a = ap suc (length-insert_at xs i a)

  pub length-erase_at :
      (xs : List A) (i : ℕ) → i < length xs → suc (length (erase_at xs i)) ≡ length xs
  unfolding erase_at
  length-erase_at [] i h = elim h [ ]
  length-erase_at (x ∷ xs) zero h = refl
  length-erase_at (x ∷ xs) (suc i) h = ap suc (length-erase_at xs i (omega arith))

  pub insert_at-perm : (xs : List A) (i : ℕ) (a : A) → Perm (insert_at xs i a) (a ∷ xs)
  unfolding insert_at
  insert_at-perm xs zero a = Perm.refl (a ∷ xs)
  insert_at-perm [] (suc i) a = Perm.refl (a ∷ [])
  insert_at-perm (x ∷ xs) (suc i) a =
      Perm.trans (Perm.cons x (insert_at-perm xs i a)) (Perm.swap a x xs)

module _ {ℓ} {A : Type ℓ} (dec : Discrete A) where
  -- `std::find`: the index of the first element equal to `a`, or the size.
  unfoldable pub find : A → List A → ℕ
  find a [] = 0
  find a (x ∷ xs) = ite (dec x a) 0 (suc (find a xs))

  pub find-le : (a : A) (xs : List A) → find a xs ≤ length xs
  unfolding find
  find-le a [] = omega arith
  find-le a (x ∷ xs) = ground (arith, find-le a xs)

  pub erase_at-perm :
      (a : A) (xs : List A) → find a xs < length xs → Perm xs (a ∷ erase_at xs (find a xs))
  unfolding find erase_at
  erase_at-perm a [] h = elim h [ ]
  erase_at-perm a (x ∷ xs) h = elim (dec x a) [
    | yes hit ↦ rw (if_pos _ hit) (Perm.cons' hit (Perm.refl xs))
    | no miss ↦ rw (if_neg _ miss) (
        Perm.trans (Perm.cons x (erase_at-perm a xs (ground arith)))
          (Perm.swap a x (erase_at xs (find a xs))))
  ]

  -- Where it stops before the end, `a` stands.
  pub get_elem?-find :
      (a : A) (xs : List A) → find a xs < length xs → get_elem? xs (find a xs) ≡ some a
  unfolding find
  get_elem?-find a [] h = elim h [ ]
  get_elem?-find a (x ∷ xs) h = ground (arith, get_elem?-find a xs)

  pub find-lt_of_mem : (a : A) (xs : List A) → Mem a xs → find a xs < length xs
  unfolding find
  find-lt_of_mem a [] m = absurd (not-mem-nil m)
  find-lt_of_mem a (x ∷ xs) m = elim (dec x a) [
    | yes hit ↦ rw (if_pos _ hit) (omega arith)
    | no miss ↦ rw (if_neg _ miss) (
        Or.elim le_prop (mem-cons.0 m) (λ e. absurd (miss (sym e)))
          (λ r. omega (arith, find-lt_of_mem a xs r)))
  ]

  pub mem_of_find-lt : (a : A) (xs : List A) → find a xs < length xs → Mem a xs
  mem_of_find-lt a xs h = (Perm.mem_iff (Perm.symm (erase_at-perm a xs h))).0 mem-cons_self

pub get_elem?-lt {ℓ} :
    {A : Type ℓ} (xs : List A) (i : ℕ) → i < length xs → (a : A) × (get_elem? xs i ≡ some a)
get_elem?-lt [] i h = elim h [ ]
get_elem?-lt (x ∷ xs) zero h = (x, refl)
get_elem?-lt (x ∷ xs) (suc i) h = get_elem?-lt xs i (omega arith)

pub lt_of_get_elem? {ℓ} :
    {A : Type ℓ} (xs : List A) (i : ℕ) {a : A} → get_elem? xs i ≡ some a → i < length xs
lt_of_get_elem? [] i e = cc
lt_of_get_elem? (x ∷ xs) zero e = omega arith
lt_of_get_elem? (x ∷ xs) (suc i) e = omega (arith, lt_of_get_elem? xs i e)

pub mem_of_get_elem? {ℓ} :
    {A : Type ℓ} (xs : List A) (i : ℕ) {a : A} → get_elem? xs i ≡ some a → Mem a xs
mem_of_get_elem? [] i e = cc
mem_of_get_elem? (x ∷ xs) zero e = mem-cons.1 (Or.inl (cc))
mem_of_get_elem? (x ∷ xs) (suc i) e = mem-cons.1 (Or.inr (mem_of_get_elem? xs i e))

-- With no repetition, an element is found where it stands.
pub find-get_elem? {ℓ} :
    {A : Type ℓ} (dec : Discrete A) (xs : List A) (i : ℕ) {a : A}
    → Nodup xs
    → get_elem? xs i ≡ some a
    → find dec a xs ≡ i
unfolding find
find-get_elem? dec [] i d e = cc
find-get_elem? dec (x ∷ xs) zero d e = ground arith
find-get_elem? dec (x ∷ xs) (suc i) {a} d e = elim (dec x a) [
  | yes hit ↦
      absurd ((Nodup-cons.0 d).0 (subst (λ y. Mem y xs) (sym hit) (mem_of_get_elem? xs i e)))
  | no miss ↦ rw (if_neg _ miss) (ap suc (find-get_elem? dec xs i (Nodup-cons.0 d).1 e))
]

pub get_elem?-insert_at {ℓ} :
    {A : Type ℓ} (xs : List A) (i : ℕ) (a : A)
    → i ≤ length xs
    → get_elem? (insert_at xs i a) i ≡ some a
unfolding insert_at
get_elem?-insert_at xs zero a h = refl
get_elem?-insert_at [] (suc i) a h = absurd (omega arith)
get_elem?-insert_at (x ∷ xs) (suc i) a h = get_elem?-insert_at xs i a (omega arith)

pub All-get_elem? {ℓ κ} :
    {A : Type ℓ} (P : A → Type κ) (xs : List A) (i : ℕ) {a : A}
    → All P xs
    → get_elem? xs i ≡ some a
    → P a
All-get_elem? P [] i h e = cc
All-get_elem? P (x ∷ xs) zero {a} h e = let q : x ≡ a = cc in subst P q h.0
All-get_elem? P (x ∷ xs) (suc i) h e = All-get_elem? P xs i h.1 e
