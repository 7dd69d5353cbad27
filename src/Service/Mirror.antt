-- ===== src/Service/Mirror.antt =====
-- The exported MPRIS player of src/core/media/service_skeleton.cpp, and the current player.
use media_hub.Prelude.{◌≡◌, Bool, true, false, some, List, [], ◌∷◌, ◌&&◌, ◌||◌, ◌==◌}
use media_hub.Media.{PlaybackStatus}
use media_hub.PlayerStore.{PlayerKey, PlayerPtr}
use media_hub.Service.Exported.{Exported, Change, sync, on_changed}

-- The values that it shows are those of player `p`.
abbrev pub Shows : PlayerPtr → Exported → Type 0
Shows p x =
    (x.playback_status ≡ (x.service.objects p).playback_status)
    × (x.loop_status ≡ (x.facts p).loop_status)
    × (x.duration ≡ (x.facts p).duration)
    × (x.position ≡ (x.facts p).position)
    × (x.can_play ≡ (x.facts p).can_play)
    × (x.can_pause ≡ (x.facts p).can_pause)
    × (x.can_go_previous ≡ (x.facts p).can_go_previous)
    × (x.can_go_next ≡ (x.facts p).can_go_next)

-- Those of its values that only the current player changes.
abbrev pub Guarded : Type 0
Guarded = PlaybackStatus × (Bool × Bool)

abbrev pub guarded : Exported → Guarded
guarded x = (x.playback_status, (x.can_play, x.can_pause))

abbrev pub guarded_of : PlayerPtr → Exported → Guarded
guarded_of p x =
    ((x.service.objects p).playback_status, ((x.facts p).can_play, (x.facts p).can_pause))

-- A connection to the player under the key.
unfoldable pub is_wired : PlayerKey → PlayerPtr → List (PlayerKey × PlayerPtr) → Bool
is_wired key q [] = false
is_wired key q ((k, r) ∷ rest) = r == q && k == key || is_wired key q rest

unfoldable pub is_connected : PlayerPtr → List (PlayerKey × PlayerPtr) → Bool
is_connected q [] = false
is_connected q ((k, r) ∷ rest) = r == q || is_connected q rest

abbrev touch : Change → Guarded → Guarded
touch (Change.playback_status v) g = (v, g.1)
touch (Change.loop_status v) g = g
touch (Change.duration v) g = g
touch (Change.position v) g = g
touch (Change.can_play v) g = (g.0, (v, g.1.1))
touch (Change.can_pause v) g = (g.0, (g.1.0, v))
touch (Change.can_go_previous v) g = g
touch (Change.can_go_next v) g = g

-- What the connections leave alone.
abbrev IsSame : Exported → Exported → Type 0
IsSame x y = (y.service ≡ x.service) × (y.facts ≡ x.facts) × (y.connected ≡ x.connected)

-- The store's current player is `p`, and it has the key.
abbrev pub IsCurrent : PlayerKey → PlayerPtr → Exported → Type 0
IsCurrent key p x = (x.service.store.current_player ≡ some p) × ((x.facts p).key ≡ key)

-- The guarded values are those of the current player, which is connected under its key, and no other player is connected under that key.
abbrev pub IsMirror : PlayerKey → PlayerPtr → Exported → Type 0
IsMirror key p x =
    IsCurrent key p x
    × (guarded x ≡ guarded_of p x)
    × (is_wired key p x.connected ≡ true)
    × ((q : PlayerPtr) → (q == p) ≡ false → is_wired key q x.connected ≡ false)

-- Changes of players, in the order in which they happen.
unfoldable pub run : List (PlayerPtr × Change) → Exported → Exported
run [] x = x
run ((q, c) ∷ rest) x = run rest (on_changed q c x)

abbrev put_current : PlayerKey → PlayerPtr → Exported → Exported
put_current key p x = sync p (record x {
  service = record x.service { store = record x.service.store { current_player = some p } };
  can_control = true;
  connected = (key, p) ∷ x.connected;
})
