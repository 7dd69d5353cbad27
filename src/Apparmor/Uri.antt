-- ===== src/Apparmor/Uri.antt =====
-- `parse_uri`: the regular expression of RFC 3986, appendix B, whose groups each take the longest
-- run that they can.
use media_hub.Prelude.{
  ℕ, Bool, false, not, ◌&&◌, ◌||◌, Option, none, some, [], ◌∷◌, ◌++◌, Text, span, ◌==◌,
  if◌then◌else◌,
}

pub record Uri : Type 0 where
  pub scheme : Text
  pub authority : Text
  pub path : Text
  pub query : Text
  pub fragment : Text

abbrev pub in_scheme : ℕ → Bool
in_scheme c = not (c == b':' || c == b'/' || c == b'?' || c == b'#')

abbrev pub in_authority : ℕ → Bool
in_authority c = not (c == b'/' || c == b'?' || c == b'#')

abbrev pub in_path : ℕ → Bool
in_path c = not (c == b'?' || c == b'#')

abbrev pub in_query : ℕ → Bool
in_query c = not (c == b'#')

-- `.` stands for no line terminator.
abbrev pub is_newline : ℕ → Bool
is_newline c = c == 10 || c == 13

unfoldable pub has_newline : Text → Bool
has_newline [] = false
has_newline (c ∷ cs) = is_newline c || has_newline cs

-- `(([^:/?#]+):)?` and what follows; `none` where the group takes no part.
unfoldable pub take_colon : Text → Text → Text → Option Text × Text
take_colon s (c ∷ cs) (d ∷ ds) = if d == b':' then (some (c ∷ cs), ds) else (none, s)
take_colon s _ _ = (none, s)

unfoldable pub take_scheme : Text → Option Text × Text
take_scheme s = take_colon s (span in_scheme s).0 (span in_scheme s).1

-- `(//([^/?#]*))?`.
unfoldable pub take_authority : Text → Option Text × Text
take_authority (c ∷ d ∷ r) =
    if c == b'/' && d == b'/'
    then (some (span in_authority r).0, (span in_authority r).1)
    else (none, c ∷ d ∷ r)
take_authority r = (none, r)

-- `(\?([^#]*))?`.
unfoldable pub take_query : Text → Option Text × Text
take_query (c ∷ r) =
    if c == b'?' then (some (span in_query r).0, (span in_query r).1) else (none, c ∷ r)
take_query [] = (none, [])

-- `(#(.*))?`.
unfoldable pub take_fragment : Text → Option Text × Text
take_fragment (c ∷ r) = if c == b'#' && not (has_newline r) then (some r, []) else (none, c ∷ r)
take_fragment [] = (none, [])

-- The groups, and what is left: `regex_match` wants nothing left.
pub record Groups : Type 0 where
  pub scheme : Option Text
  pub authority : Option Text
  pub path : Text
  pub query : Option Text
  pub fragment : Option Text
  pub rest : Text

unfoldable pub match_uri : Text → Groups
match_uri s =
    let a = take_scheme s in
    let b = take_authority a.1 in
    let c = span in_path b.1 in
    let d = take_query c.1 in
    let e = take_fragment d.1 in
    record { scheme = a.0; authority = b.0; path = c.0; query = d.0; fragment = e.0; rest = e.1 }

-- `match.str(i)`: empty for a group that took no part.
abbrev pub group : Option Text → Text
group none = []
group (some t) = t

unfoldable pub uri_of : Groups → Text → Option Uri
uri_of g [] = some (record {
  scheme = group g.scheme;
  authority = group g.authority;
  path = g.path;
  query = group g.query;
  fragment = group g.fragment;
})
uri_of g (c ∷ r) = none

-- `none` where the code throws "Not a valid URI".
unfoldable pub parse_uri : Text → Option Uri
parse_uri s = uri_of (match_uri s) (match_uri s).rest

-- The groups written out again.
abbrev pub print_scheme : Option Text → Text → Text
print_scheme none r = r
print_scheme (some t) r = t ++ b':' ∷ r

abbrev pub print_behind : Text → Option Text → Text → Text
print_behind mark none r = r
print_behind mark (some t) r = mark ++ (t ++ r)

unfoldable pub print_uri : Groups → Text
print_uri g = print_scheme g.scheme (
    print_behind (b'/' ∷ b'/' ∷ []) g.authority
      (g.path ++ print_behind (b'?' ∷ []) g.query (print_behind (b'#' ∷ []) g.fragment g.rest)))
