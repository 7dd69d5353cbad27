-- ===== src/Prelude/Texts.antt =====
-- Strings as lists of bytes, their equality, and the decimal print of a number.
use Prim.Native.Nat.{ℕ, zero, suc, ◌+◌, ◌-◌, ◌*◌, ◌/◌, ◌%◌, ◌<◌}
use mathlib.Core.Path.{◌≡◌, refl, sym, ap, ◌∙◌}
use mathlib.Core.List.{List, [], ◌∷◌, ◌++◌}
use native.Mathlib.Omega.{arith}
use native.Mathlib.Decide.{ℕ_discrete}
use mathlib.Core.Bool.{Bool, true, false, decide, ◌&&◌, ◌||◌}
use mathlib.Core.Option.{Option, none, some}
use Prim.Native.Char.{code}
use Prim.Native.String.{String}
use media_hub.Prelude.Tests.{decide_yes, ltb, ◌==◌, if◌then◌else◌}

-- A std::string: its bytes.
abbrev pub Text : Type 0
Text = List ℕ

unfoldable pub text_dec : Discrete Text
unfolding ℕ_discrete
text_dec [] [] = yes refl
text_dec [] (y ∷ ys) = no (λ e. cc)
text_dec (x ∷ xs) [] = no (λ e. cc)
text_dec (x ∷ xs) (y ∷ ys) = elim (ℕ_discrete x y) [
  | yes p ↦ elim (text_dec xs ys) [ yes q ↦ yes (cc) | no q ↦ no (λ e. q (cc)) ]
  | no p ↦ no (λ e. p (cc))
]

-- `ss << n`, on fuel: one digit a round.
decimal_fuel : ℕ → ℕ → Text
decimal_fuel zero n = []
decimal_fuel (suc f) n =
    let rest = decimal_fuel f (n / 10) ++ (b'0' + n % 10) ∷ [] in
    if ltb n 10 then (b'0' + n) ∷ [] else rest

unfoldable pub decimal : ℕ → Text
unfolding decimal_fuel
decimal n = decimal_fuel (suc n) n

digits_value_from : ℕ → Text → ℕ
digits_value_from acc [] = acc
digits_value_from acc (d ∷ ds) = digits_value_from (acc * 10 + (d - b'0')) ds

pub digits_value : Text → ℕ
unfolding digits_value_from
digits_value ds = digits_value_from 0 ds

digits_value_from-append :
    (acc : ℕ) (xs : Text) (d : ℕ)
    → digits_value_from acc (xs ++ d ∷ []) ≡ digits_value_from acc xs * 10 + (d - b'0')
unfolding digits_value_from
digits_value_from-append acc [] d = refl
digits_value_from-append acc (x ∷ xs) d = digits_value_from-append (acc * 10 + (x - b'0')) xs d

digits_value-decimal_fuel : (f n : ℕ) → n < f → digits_value_from 0 (decimal_fuel f n) ≡ n
unfolding decimal_fuel digits_value_from
digits_value-decimal_fuel zero n h = elim h [ ]
digits_value-decimal_fuel (suc f) n h = ground (
  arith,
  digits_value-decimal_fuel f (n / 10),
  digits_value_from-append 0 (decimal_fuel f (n / 10)) (b'0' + n % 10),
)

-- The fuel is enough: reading the digits gives the number back.
pub digits_value-decimal : (n : ℕ) → digits_value (decimal n) ≡ n
unfolding digits_value decimal
digits_value-decimal n = digits_value-decimal_fuel (suc n) n (omega arith)

pub decimal-injective : (m n : ℕ) → decimal m ≡ decimal n → m ≡ n
decimal-injective m n e = sym (digits_value-decimal m) ∙ ap digits_value e ∙ digits_value-decimal n

append-cons : (xs : Text) (y : ℕ) → (c : ℕ) × ((cs : Text) × (xs ++ y ∷ [] ≡ c ∷ cs))
append-cons [] y = (y, ([], refl))
append-cons (x ∷ xs) y = (x, (xs ++ y ∷ [], refl))

-- A number has a digit.
pub decimal-cons : (n : ℕ) → (c : ℕ) × ((cs : Text) × (decimal n ≡ c ∷ cs))
unfolding decimal decimal_fuel
decimal-cons n = go (ltb n 10) (append-cons (decimal_fuel n (n / 10)) (b'0' + n % 10))
  where
    go :
        (b : Bool)
        → (c : ℕ) × ((cs : Text) × (decimal_fuel n (n / 10) ++ (b'0' + n % 10) ∷ [] ≡ c ∷ cs))
        → (c : ℕ) × ((cs : Text) × ((if b
                then (b'0' + n) ∷ []
                else decimal_fuel n (n / 10) ++ (b'0' + n % 10) ∷ [])
              ≡ c ∷ cs))
    go true h = (b'0' + n, ([], refl))
    go false h = h

-- A text literal's bytes.
abbrev pub codes : String → Text
codes String.[] = []
codes (String.◌∷◌ c s) = code c ∷ codes s

-- Whether `needle` begins `s`.
unfoldable pub starts_with : Text → Text → Bool
starts_with [] s = true
starts_with (c ∷ cs) [] = false
starts_with (c ∷ cs) (d ∷ ds) = c == d && starts_with cs ds

-- `s.find(needle) != npos`.
unfoldable pub contains : Text → Text → Bool
unfolding starts_with
contains needle [] = starts_with needle []
contains needle (d ∷ ds) = starts_with needle (d ∷ ds) || contains needle ds

-- The longest prefix of characters with `p`, and the rest.
unfoldable pub span : (ℕ → Bool) → Text → Text × Text
span p [] = ([], [])
span p (c ∷ cs) = let (xs, ys) = span p cs in if p c then (c ∷ xs, ys) else ([], c ∷ cs)

pub span-append : (p : ℕ → Bool) (s : Text) → (span p s).0 ++ (span p s).1 ≡ s
unfolding span
span-append p [] = refl
span-append p (c ∷ cs) = ground (arith, span-append p cs)

-- The last `c` of the text, with what stands before and behind it.
unfoldable pub split_last : ℕ → Text → Option (Text × Text)
split_last c [] = none
split_last c (d ∷ ds) = elim (split_last c ds) [
  | some (xs, ys) ↦ some (d ∷ xs, ys)
  | none ↦ if d == c then some ([], ds) else none
]

unfoldable pub text_eq : Text → Text → Bool
unfolding text_dec decide
text_eq a b = decide (text_dec a b)

pub text_eq_refl : (t : Text) → text_eq t t ≡ true
unfolding text_eq
text_eq_refl t = decide_yes (text_dec t t) refl
