-- ===== src/PlayerStore.antt =====
-- `HashedKeyedPlayerStore`: src/core/media/hashed_keyed_player_store.cpp.
use media_hub.Prelude.{
  ℕ, ◌≡◌, Bool, true, false, Option, none, some, List, [], ◌∷◌, if◌then◌else◌, ◌==◌, length, lookup,
  put, erase, is_some, ℕ_discrete,
}
pub mod Lookup

-- A shared pointer to a player: its number.
abbrev pub PlayerPtr : Type 0
PlayerPtr = ℕ

abbrev pub PlayerKey : Type 0
PlayerKey = ℕ

-- The map's order stands for the order in which the hash table enumerates.
pub record PlayerStore : Type 0 where
  pub map : List (PlayerKey × PlayerPtr)
  pub current_player : Option PlayerPtr

abbrev pub has_player_for_key : PlayerKey → PlayerStore → Bool
has_player_for_key key s = is_some (lookup ℕ_discrete key s.map)

-- `none` where it throws std::out_of_range.
abbrev pub player_for_key : PlayerKey → PlayerStore → Option PlayerPtr
player_for_key key s = lookup ℕ_discrete key s.map

unfoldable pub add_player_for_key : PlayerKey → PlayerPtr → PlayerStore → PlayerStore
add_player_for_key key p s = record s { map = put ℕ_discrete key p s.map }

-- `prop_current_player == p`.
abbrev pub is_current : PlayerPtr → Option PlayerPtr → Bool
is_current p none = false
is_current p (some q) = p == q

abbrev pub without : PlayerKey → PlayerPtr → PlayerStore → PlayerStore
without key p s = record {
  map = erase ℕ_discrete key s.map;
  current_player = if is_current p s.current_player then none else s.current_player;
}

unfoldable pub remove_player_for_key : PlayerKey → PlayerStore → PlayerStore
remove_player_for_key key s = elim (lookup ℕ_discrete key s.map) [
  | none ↦ s
  | some p ↦ without key p s
]

abbrev pub number_of_players : PlayerStore → ℕ
number_of_players s = length s.map

abbrev made_current : PlayerStore → Option PlayerPtr → Option PlayerStore
made_current s none = none
made_current s (some p) = some (record s { current_player = some p })

-- `none` where it throws std::out_of_range.
unfoldable pub set_current_player_for_key : PlayerKey → PlayerStore → Option PlayerStore
set_current_player_for_key key s = made_current s (player_for_key key s)
