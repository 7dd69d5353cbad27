-- ===== src/Apparmor/Context.antt =====
-- `Context`: the client's profile name, and the package that it names.
use media_hub.Prelude.{
  ℕ, Bool, true, false, not, ◌&&◌, ◌||◌, Option, none, some, [], ◌∷◌, ◌++◌, Text, codes, text_eq,
  split_last, if◌then◌else◌,
}
use media_hub.Apparmor.Uri.{has_newline}

abbrev pub unconfined : Text
unconfined = codes "unconfined"

abbrev pub unity_name : Text
unity_name = codes "unity8-dash"

abbrev pub unity8_snap_name : Text
unity8_snap_name = codes "snap.unity8-session.unity8-session"

abbrev pub mediaplayer_snap_name : Text
mediaplayer_snap_name = codes "snap.mediaplayer-app.mediaplayer-app"

abbrev pub music_snap_name : Text
music_snap_name = codes "snap.music-app.music-app"

abbrev pub messaging_app : Text
messaging_app = codes "messaging-app"

-- The first two groups of a match.
abbrev pub Match : Type 0
Match = Option (Text × Text)

-- `(.*)c(.*)`: the first run takes all that it can. No run crosses a line break.
unfoldable pub match_two : ℕ → Text → Match
match_two c s = if has_newline s then none else split_last c s

-- `(.*)_(.*)_(.*)`.
unfoldable pub match_three : Text → Match
match_three s = elim (match_two b'_' s) [
  | none ↦ none
  | some (before, version) ↦ split_last b'_' before
]

abbrev pub first_match : Match → Match → Match
first_match none m = m
first_match (some x) m = some x

abbrev pub is_trusted_name : Text → Bool
is_trusted_name s =
    text_eq s messaging_app
    || text_eq s unity_name
    || text_eq s unity8_snap_name
    || text_eq s mediaplayer_snap_name
    || text_eq s music_snap_name

-- What `process_context_name` leaves: its result, the match and the package.
pub record Processed : Type 0 where
  pub has_package_name : Bool
  pub groups : Option (Text × Text)
  pub package_name : Text

unfoldable pub by_app_id : Match → Processed
by_app_id none = record { has_package_name = false; groups = none; package_name = [] }
by_app_id (some (pkg, app)) = record {
  has_package_name = true;
  groups = some (pkg, app);
  package_name = pkg;
}

unfoldable pub by_trust_store : Text → Match → Match → Processed
unfolding by_app_id
by_trust_store s (some m) ids = record {
  has_package_name = true;
  groups = some m;
  package_name = s;
}
by_trust_store s none ids = by_app_id ids

unfoldable pub process_context_name : Text → Processed
unfolding match_two match_three by_trust_store
process_context_name s =
    by_trust_store s (if is_trusted_name s then match_two b'-' s else none)
      (first_match (match_three s) (match_two b'_' s))

pub record Context : Type 0 where
  pub name : Text
  pub is_unconfined : Bool
  pub is_unity : Bool
  pub has_package_name : Bool
  pub groups : Option (Text × Text)
  pub package_name : Text

-- The constructor: `none` where it throws "Invalid profile name".
unfoldable pub make_context : Text → Option Context
make_context name =
    let p = process_context_name name in
    let c : Context = record {
      name = name;
      is_unconfined = text_eq name unconfined;
      is_unity = text_eq name unity_name || text_eq name unity8_snap_name;
      has_package_name = p.has_package_name;
      groups = p.groups;
      package_name = p.package_name;
    } in
    if not c.is_unconfined && not c.is_unity && not c.has_package_name then none else some c

abbrev join_groups : Option (Text × Text) → Text
join_groups none = b'-' ∷ []
join_groups (some (pkg, app)) = pkg ++ b'-' ∷ app

unfoldable pub profile_name : Context → Text
profile_name c = join_groups c.groups
