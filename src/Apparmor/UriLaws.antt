-- ===== src/Apparmor/UriLaws.antt =====
-- The laws of `parse_uri`: src/core/media/apparmor/ubuntu.cpp.
use mathlib.Core.List.{append-nil}
use media_hub.Prelude.{
  ℕ, ◌≡◌, refl, All, ◌&&◌, true, Bool, false, Bool-cases, inl, inr, Option, none, some, [], ◌∷◌,
  ◌++◌, Text, span, span-append, arith, ◌==◌,
}
use media_hub.Apparmor.Uri.{
  Uri, Groups, match_uri, parse_uri, print_uri, print_scheme, print_behind, take_colon, take_scheme,
  take_authority, take_query, take_fragment, in_scheme, in_authority, in_path, in_query,
  has_newline, uri_of, group,
}

take_colon-print :
    (s xs ys : Text) → xs ++ ys ≡ s → print_scheme (take_colon s xs ys).0 (take_colon s xs ys).1 ≡ s
unfolding take_colon
take_colon-print s [] ys e = refl
take_colon-print s (c ∷ cs) [] e = refl
take_colon-print s (c ∷ cs) (d ∷ ds) e = ground arith

take_scheme-print : (s : Text) → print_scheme (take_scheme s).0 (take_scheme s).1 ≡ s
unfolding take_scheme
take_scheme-print s =
    take_colon-print s (span in_scheme s).0 (span in_scheme s).1 (span-append in_scheme s)

take_authority-print :
    (s : Text) → print_behind (b'/' ∷ b'/' ∷ []) (take_authority s).0 (take_authority s).1 ≡ s
unfolding take_authority
take_authority-print [] = refl
take_authority-print (c ∷ []) = refl
take_authority-print (c ∷ d ∷ r) = ground (arith, span-append in_authority r)

take_query-print : (s : Text) → print_behind (b'?' ∷ []) (take_query s).0 (take_query s).1 ≡ s
unfolding take_query
take_query-print [] = refl
take_query-print (c ∷ r) = ground (arith, span-append in_query r)

take_fragment-print :
    (s : Text) → print_behind (b'#' ∷ []) (take_fragment s).0 (take_fragment s).1 ≡ s
unfolding take_fragment
take_fragment-print [] = refl
take_fragment-print (c ∷ r) = ground (arith, append-nil r)

-- The groups of a match, written out with their marks, are the text.
pub print-match : (s : Text) → print_uri (match_uri s) ≡ s
unfolding print_uri match_uri
print-match s =
    let a = take_scheme s in
    let b = take_authority a.1 in
    let c = span in_path b.1 in
    let d = take_query c.1 in
    rw (
      take_fragment-print d.1,
      take_query-print c.1,
      span-append in_path b.1,
      take_authority-print a.1,
      take_scheme-print s,
    )

-- A run ends at the end of the text or at a character outside its class.
abbrev StopsAt : (ℕ → Bool) → Text → Type 0
StopsAt p [] = Unit
StopsAt p (c ∷ r) = p c ≡ false

span-StopsAt : (p : ℕ → Bool) (s : Text) → StopsAt p (span p s).1
unfolding span
span-StopsAt p [] = tt
span-StopsAt p (c ∷ cs) = elim (Bool-cases (p c)) [
  | inl e ↦ rw e (span-StopsAt p cs)
  | inr e ↦ rw e e
]

one_line_suffix : (xs ys : Text) → has_newline (xs ++ ys) ≡ false → has_newline ys ≡ false
unfolding has_newline
one_line_suffix [] ys h = h
one_line_suffix (x ∷ xs) ys h = one_line_suffix xs ys (ground arith)

module _ (s : Text) (h : has_newline s ≡ false) where
  after_scheme : (o : Option Text) (r : Text) → print_scheme o r ≡ s → has_newline r ≡ false
  unfolding has_newline
  after_scheme none r e = rw e h
  after_scheme (some t) r e = let q = one_line_suffix t (b':' ∷ r) (rw e h) in ground arith

  after_mark :
      (mark : Text) (o : Option Text) (r : Text) → print_behind mark o r ≡ s → has_newline r ≡ false
  after_mark mark none r e = rw e h
  after_mark mark (some t) r e = one_line_suffix t r (one_line_suffix mark (t ++ r) (rw e h))

  after_span : (p : ℕ → Bool) → has_newline (span p s).1 ≡ false
  after_span p = one_line_suffix (span p s).0 (span p s).1 (rw (span-append p s) h)

take_query-StopsAt : (s : Text) → StopsAt in_path s → StopsAt in_query (take_query s).1
unfolding take_query
take_query-StopsAt [] st = tt
take_query-StopsAt (c ∷ r) st = elim (Bool-cases (c == b'?')) [
  | inl e ↦ rw e (span-StopsAt in_query r)
  | inr e ↦ rw e (ground arith)
]

take_fragment-nil :
    (s : Text) → StopsAt in_query s → has_newline s ≡ false → (take_fragment s).1 ≡ []
unfolding take_fragment has_newline
take_fragment-nil [] st h = refl
take_fragment-nil (c ∷ r) st h = ground arith

match-rest : (s : Text) → has_newline s ≡ false → (match_uri s).rest ≡ []
unfolding match_uri
match-rest s h =
    let a = take_scheme s in
    let b = take_authority a.1 in
    let c = span in_path b.1 in
    let d = take_query c.1 in
    let h1 = after_scheme s h a.0 a.1 (take_scheme-print s) in
    let h2 = after_mark a.1 h1 (b'/' ∷ b'/' ∷ []) b.0 b.1 (take_authority-print a.1) in
    let h3 = after_span b.1 h2 in_path in
    let h4 = after_mark c.1 h3 (b'?' ∷ []) d.0 d.1 (take_query-print c.1) in
    take_fragment-nil d.1 (take_query-StopsAt c.1 (span-StopsAt in_path b.1)) h4

-- The text of a group: empty for one that took no part.
abbrev pub IsText : Option Text → Text → Type 0
IsText none t = t ≡ []
IsText (some a) t = t ≡ a

group-IsText : (o : Option Text) → IsText o (group o)
group-IsText none = refl
group-IsText (some t) = refl

-- A uri has the texts of the groups.
abbrev pub HasTexts : Groups → Uri → Type 0
HasTexts g u =
    IsText g.scheme u.scheme
    × IsText g.authority u.authority
    × (u.path ≡ g.path)
    × IsText g.query u.query
    × IsText g.fragment u.fragment

uri_of-HasTexts :
    (g : Groups) (r : Text) → r ≡ [] → (u : Uri) × ((uri_of g r ≡ some u) × HasTexts g u)
unfolding uri_of
uri_of-HasTexts g [] e = (
  _,
  (
    refl,
    (
      group-IsText g.scheme,
      group-IsText g.authority,
      refl,
      group-IsText g.query,
      group-IsText g.fragment,
    ),
  ),
)
uri_of-HasTexts g (c ∷ r) e = cc

-- No group runs over the mark of the next one.
abbrev pub HasClass : (ℕ → Bool) → Option Text → Type 0
HasClass p none = Unit
HasClass p (some t) = All (λ c. p c ≡ true) t

abbrev pub IsSplit : Groups → Type 0
IsSplit g =
    HasClass in_scheme g.scheme
    × HasClass in_authority g.authority
    × All (λ c. in_path c ≡ true) g.path
    × HasClass in_query g.query

span-All : (p : ℕ → Bool) (s : Text) → All (λ c. p c ≡ true) (span p s).0
unfolding span
span-All p [] = tt
span-All p (c ∷ cs) = elim (Bool-cases (p c)) [ inl e ↦ rw e (e, span-All p cs) | inr e ↦ rw e tt ]

colon_class :
    (s xs ys : Text) → All (λ c. in_scheme c ≡ true) xs → HasClass in_scheme (take_colon s xs ys).0
unfolding take_colon
colon_class s [] ys h = tt
colon_class s (c ∷ cs) [] h = tt
colon_class s (c ∷ cs) (d ∷ ds) h = elim (Bool-cases (d == b':')) [
  | inl e ↦ rw e h
  | inr e ↦ rw e tt
]

take_scheme-HasClass : (s : Text) → HasClass in_scheme (take_scheme s).0
unfolding take_scheme
take_scheme-HasClass s =
    colon_class s (span in_scheme s).0 (span in_scheme s).1 (span-All in_scheme s)

take_authority-HasClass : (s : Text) → HasClass in_authority (take_authority s).0
unfolding take_authority
take_authority-HasClass [] = tt
take_authority-HasClass (c ∷ []) = tt
take_authority-HasClass (c ∷ d ∷ r) = elim (Bool-cases (c == b'/' && d == b'/')) [
  | inl e ↦ rw e (span-All in_authority r)
  | inr e ↦ rw e tt
]

take_query-HasClass : (s : Text) → HasClass in_query (take_query s).0
unfolding take_query
take_query-HasClass [] = tt
take_query-HasClass (c ∷ r) = elim (Bool-cases (c == b'?')) [
  | inl e ↦ rw e (span-All in_query r)
  | inr e ↦ rw e tt
]

match-IsSplit : (s : Text) → IsSplit (match_uri s)
unfolding match_uri
match-IsSplit s =
    let a = take_scheme s in
    let b = take_authority a.1 in
    let c = span in_path b.1 in
    (
      take_scheme-HasClass s,
      take_authority-HasClass a.1,
      span-All in_path b.1,
      take_query-HasClass c.1,
    )

pub parse_uri_total :
    (s : Text)
    → has_newline s ≡ false
    → (u : Uri) × ((parse_uri s ≡ some u)
        × HasTexts (match_uri s) u
        × IsSplit (match_uri s)
        × ((match_uri s).rest ≡ [])
        × (print_uri (match_uri s) ≡ s))
unfolding parse_uri
parse_uri_total s h =
    let (u, (e, p)) = uri_of-HasTexts (match_uri s) (match_uri s).rest (match-rest s h) in
    (u, (e, p, match-IsSplit s, match-rest s h, print-match s))
