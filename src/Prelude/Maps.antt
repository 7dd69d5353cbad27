-- ===== src/Prelude/Maps.antt =====
-- `std::map` and `std::unordered_map` as association lists: find, operator[]=, emplace, erase.
use mathlib.Core.Path.{◌≡◌, refl}
use mathlib.Core.Logic.{◌≢◌, ite}
use mathlib.Core.Bool.{Bool, true, false}
use mathlib.Core.Option.{Option, none, some}
use mathlib.Core.List.{List, [], ◌∷◌}
use native.Mathlib.Omega.{arith}

abbrev pub is_some {ℓ} : {A : Type ℓ} → Option A → Bool
is_some none = false
is_some (some _) = true

module _ {K V : Type 0} (dec : Discrete K) where
  unfoldable pub lookup : K → List (K × V) → Option V
  lookup k [] = none
  lookup k ((j, v) ∷ m) = ite (dec j k) (some v) (lookup k m)

  -- `m[k] = v`.
  unfoldable pub put : K → V → List (K × V) → List (K × V)
  put k v [] = (k, v) ∷ []
  put k v ((j, w) ∷ m) = ite (dec j k) ((k, v) ∷ m) ((j, w) ∷ put k v m)

  -- `m.emplace(k, v)`: a known key keeps its value.
  unfoldable pub emplace : K → V → List (K × V) → List (K × V)
  emplace k v [] = (k, v) ∷ []
  emplace k v ((j, w) ∷ m) = ite (dec j k) ((j, w) ∷ m) ((j, w) ∷ emplace k v m)

  unfoldable pub erase : K → List (K × V) → List (K × V)
  erase k [] = []
  erase k ((j, w) ∷ m) = ite (dec j k) (erase k m) ((j, w) ∷ erase k m)

  pub lookup-put : (k : K) (v : V) (m : List (K × V)) → lookup k (put k v m) ≡ some v
  unfolding lookup put
  lookup-put k v [] = ground arith
  lookup-put k v ((j, w) ∷ m) = ground (arith, lookup-put k v m)

  pub lookup-put_other :
      (i k : K) (v : V) (m : List (K × V)) → i ≢ k → lookup i (put k v m) ≡ lookup i m
  unfolding lookup put
  lookup-put_other i k v [] n = ground arith
  lookup-put_other i k v ((j, w) ∷ m) n = ground (arith, lookup-put_other i k v m n)

  pub lookup-erase : (k : K) (m : List (K × V)) → lookup k (erase k m) ≡ none
  unfolding lookup erase
  lookup-erase k [] = refl
  lookup-erase k ((j, w) ∷ m) = ground (arith, lookup-erase k m)

  pub lookup-erase_other : (i k : K) (m : List (K × V)) → i ≢ k → lookup i (erase k m) ≡ lookup i m
  unfolding lookup erase
  lookup-erase_other i k [] n = refl
  lookup-erase_other i k ((j, w) ∷ m) n = ground (arith, lookup-erase_other i k m n)

  pub lookup-emplace :
      (k : K) (v : V) (m : List (K × V)) → lookup k m ≡ none → lookup k (emplace k v m) ≡ some v
  unfolding lookup emplace
  lookup-emplace k v [] e = ground arith
  lookup-emplace k v ((j, w) ∷ m) e = ground (arith, lookup-emplace k v m)

  pub lookup-emplace_other :
      (i k : K) (v : V) (m : List (K × V)) → i ≢ k → lookup i (emplace k v m) ≡ lookup i m
  unfolding lookup emplace
  lookup-emplace_other i k v [] n = ground arith
  lookup-emplace_other i k v ((j, w) ∷ m) n = ground (arith, lookup-emplace_other i k v m n)
