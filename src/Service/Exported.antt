-- ===== src/Service/Exported.antt =====
-- service_skeleton.cpp, `Private::Exported`: the MPRIS player that the service exports, and the
-- requests about the current player.
use media_hub.Prelude.{
  ℕ, Bool, true, false, not, ◌&&◌, Option, none, some, List, [], ◌∷◌, if◌then◌else◌, ◌==◌,
}
use media_hub.Media.{PlaybackStatus, LoopStatus}
use media_hub.PlayerStore.{
  PlayerStore, PlayerKey, PlayerPtr, player_for_key, has_player_for_key, set_current_player_for_key,
}
use media_hub.Service.State.{
  PlayerObject, Controls, State, is_playing, is_multimedia, set_object, call_pause, call_play,
}
use media_hub.Service.Pausing.{pause_other_sessions}

-- The properties of a player that the exported one shows.
pub record Facts : Type 0 where
  pub key : PlayerKey
  pub loop_status : LoopStatus
  pub duration : ℕ
  pub position : ℕ
  pub can_play : Bool
  pub can_pause : Bool
  pub can_go_previous : Bool
  pub can_go_next : Bool

-- Its commands, besides those that the service itself gives.
pub data Command : Type 0 where
  next : PlayerPtr → Command
  previous : PlayerPtr → Command
  stop : PlayerPtr → Command

pub record Exported : Type 0 where
  pub service : State
  pub facts : PlayerPtr → Facts
  pub can_control : Bool
  pub playback_status : PlaybackStatus
  pub loop_status : LoopStatus
  pub duration : ℕ
  pub position : ℕ
  pub can_play : Bool
  pub can_pause : Bool
  pub can_go_previous : Bool
  pub can_go_next : Bool
  -- Whose changes the connections carry, the latest first: an assignment to a Connection does not
  -- disconnect the slot that it stood for.
  pub connected : List (PlayerKey × PlayerPtr)
  pub commands : List Command  -- the latest first

abbrev pub role_of : State → Option PlayerPtr → Bool
role_of s none = false
role_of s (some p) = is_multimedia (s.objects p).audio_stream_role

unfoldable pub is_multimedia_role : Exported → Bool
is_multimedia_role x = role_of x.service x.service.store.current_player

abbrev pub command : Command → Exported → Exported
command c x = record x { commands = c ∷ x.commands }

-- `if (is_multimedia_role()) f(sp)`, for the current player.
abbrev pub on_current : (PlayerPtr → Exported → Exported) → Exported → Option PlayerPtr → Exported
on_current f x none = x
on_current f x (some p) = if is_multimedia (x.service.objects p).audio_stream_role then f p x else x

unfoldable pub on_next : Exported → Exported
on_next x = on_current (λ p. command (Command.next p)) x x.service.store.current_player

unfoldable pub on_previous : Exported → Exported
on_previous x = on_current (λ p. command (Command.previous p)) x x.service.store.current_player

unfoldable pub on_stop : Exported → Exported
on_stop x = on_current (λ p. command (Command.stop p)) x x.service.store.current_player

abbrev pub pause_player : Controls → PlayerPtr → Exported → Exported
pause_player c p x = record x { service = call_pause c p x.service }

unfoldable pub on_pause : Controls → Exported → Exported
on_pause c x =
    on_current (λ p y. if (y.facts p).can_pause then pause_player c p y else y) x
      x.service.store.current_player

-- The values of player `p`.
unfoldable pub sync : PlayerPtr → Exported → Exported
sync p x = record x {
  playback_status = (x.service.objects p).playback_status;
  loop_status = (x.facts p).loop_status;
  duration = (x.facts p).duration;
  position = (x.facts p).position;
  can_play = (x.facts p).can_play;
  can_pause = (x.facts p).can_pause;
  can_go_previous = (x.facts p).can_go_previous;
  can_go_next = (x.facts p).can_go_next;
}

abbrev pub connect_to : PlayerKey → PlayerStore → Exported → Option PlayerPtr → Option Exported
connect_to key st x none = none
connect_to key st x (some p) = some (
    sync p (record x {
      service = record x.service { store = st };
      can_control = true;
      connected = (key, p) ∷ x.connected;
    }))

abbrev pub set_in : PlayerKey → Exported → Option PlayerStore → Option Exported
set_in key x none = none
set_in key x (some st) = connect_to key st x st.current_player

-- None where the store throws.
unfoldable pub exported_set_current_player : PlayerKey → Exported → Option Exported
unfolding sync
exported_set_current_player key x = set_in key x (set_current_player_for_key key x.service.store)

unfoldable pub reset_current_player : Exported → Exported
reset_current_player x = record x {
  can_control = false;
  can_play = false;
  can_pause = false;
  can_go_previous = false;
  can_go_next = false;
}

abbrev has_key : PlayerKey → (PlayerPtr → Facts) → Option PlayerPtr → Bool
has_key key f none = false
has_key key f (some p) = key == (f p).key

unfoldable pub is_current_player : PlayerKey → Exported → Bool
is_current_player key x = has_key key x.facts x.service.store.current_player

abbrev set_multimedia : PlayerKey → Exported → Option PlayerPtr → Option Exported
set_multimedia key x none = none
set_multimedia key x (some p) =
    if is_multimedia (x.service.objects p).audio_stream_role
    then exported_set_current_player key x
    else some x

-- `ServiceSkeleton::set_current_player`: players of other roles are passed over.
unfoldable pub set_current_player : PlayerKey → Exported → Option Exported
unfolding exported_set_current_player
set_current_player key x = set_multimedia key x (player_for_key key x.service.store)

abbrev start_engine : Controls → PlayerPtr → Option Exported → Option Exported
start_engine c p none = none
start_engine c p (some x) = some (record x { service = call_play c p x.service })

-- The player's own `play()`: one of the multimedia role first pauses the others and becomes the
-- current player.
unfoldable pub player_play : Controls → PlayerPtr → Exported → Option Exported
unfolding set_current_player
player_play c p x =
    let key = (x.facts p).key in
    if is_multimedia (x.service.objects p).audio_stream_role
    then start_engine c p
        (set_current_player key (record x { service = pause_other_sessions c key x.service }))
    else start_engine c p (some x)

-- The others are paused first. None where an exception leaves the handler.
unfoldable pub play_player : Controls → PlayerPtr → Exported → Option Exported
unfolding player_play
play_player c p x =
    player_play c p (record x { service = pause_other_sessions c (x.facts p).key x.service })

abbrev pub play_current :
    (PlayerPtr → Exported → Option Exported) → Exported → Option PlayerPtr → Option Exported
play_current f x none = some x
play_current f x (some p) =
    if is_multimedia (x.service.objects p).audio_stream_role then f p x else some x

unfoldable pub on_play : Controls → Exported → Option Exported
unfolding play_player
on_play c x =
    play_current (λ p y. if (y.facts p).can_play then play_player c p y else some y) x
      x.service.store.current_player

abbrev is_null : PlaybackStatus → Bool
is_null PlaybackStatus.null = true
is_null _ = false

unfoldable pub toggle : Controls → PlayerPtr → Exported → Option Exported
unfolding play_player
toggle c p x =
    let status = (x.service.objects p).playback_status in
    if is_playing status && (x.facts p).can_pause
    then some (pause_player c p x)
    else if not (is_null status) && (x.facts p).can_play
    then play_player c p x
    else some x

unfoldable pub on_play_pause : Controls → Exported → Option Exported
unfolding toggle
on_play_pause c x = play_current (toggle c) x x.service.store.current_player

pub data Reply : Type 0 where
  ok : Reply
  player_key_not_found : Reply

abbrev answer : Exported → Option Exported → Reply × Exported
answer x none = (Reply.player_key_not_found, x)
answer x (some y) = (Reply.ok, y)

unfoldable pub handle_set_current_player : PlayerKey → Exported → Reply × Exported
unfolding set_current_player
handle_set_current_player key x =
    if has_player_for_key key x.service.store
    then answer x (set_current_player key x)
    else (Reply.player_key_not_found, x)

unfoldable pub handle_pause_other_sessions : Controls → PlayerKey → Exported → Reply × Exported
handle_pause_other_sessions c key x =
    (Reply.ok, record x { service = pause_other_sessions c key x.service })

-- A property of a player changes.
pub data Change : Type 0 where
  playback_status : PlaybackStatus → Change
  loop_status : LoopStatus → Change
  duration : ℕ → Change
  position : ℕ → Change
  can_play : Bool → Change
  can_pause : Bool → Change
  can_go_previous : Bool → Change
  can_go_next : Bool → Change

abbrev pub status_of : Change → PlayerObject → PlayerObject
status_of (Change.playback_status v) o = record o { playback_status = v }
status_of _ o = o

abbrev pub facts_of : Change → Facts → Facts
facts_of (Change.playback_status v) f = f
facts_of (Change.loop_status v) f = record f { loop_status = v }
facts_of (Change.duration v) f = record f { duration = v }
facts_of (Change.position v) f = record f { position = v }
facts_of (Change.can_play v) f = record f { can_play = v }
facts_of (Change.can_pause v) f = record f { can_pause = v }
facts_of (Change.can_go_previous v) f = record f { can_go_previous = v }
facts_of (Change.can_go_next v) f = record f { can_go_next = v }

-- The connection to a property: three of them carry a change on only while the store's current
-- player has the key.
unfoldable pub carry : Bool → Change → Exported → Exported
carry current (Change.playback_status v) x = if current then record x { playback_status = v } else x
carry current (Change.loop_status v) x = record x { loop_status = v }
carry current (Change.duration v) x = record x { duration = v }
carry current (Change.position v) x = record x { position = v }
carry current (Change.can_play v) x = if current then record x { can_play = v } else x
carry current (Change.can_pause v) x = if current then record x { can_pause = v } else x
carry current (Change.can_go_previous v) x = record x { can_go_previous = v }
carry current (Change.can_go_next v) x = record x { can_go_next = v }

-- The connections of player `q`, in the order in which they were made.
unfoldable pub carry_each : PlayerPtr → Change → List (PlayerKey × PlayerPtr) → Exported → Exported
unfolding carry is_current_player
carry_each q c [] x = x
carry_each q c ((key, p) ∷ rest) x =
    let y = carry_each q c rest x in if p == q then carry (is_current_player key y) c y else y

-- The player's own value, before the connections.
abbrev pub changed : PlayerPtr → Change → Exported → Exported
changed q c x = record x {
  service = record x.service {
    objects = set_object q (status_of c (x.service.objects q)) x.service.objects;
  };
  facts = λ r. if r == q then facts_of c (x.facts r) else x.facts r;
}

unfoldable pub on_changed : PlayerPtr → Change → Exported → Exported
unfolding carry_each
on_changed q c x = carry_each q c x.connected (changed q c x)
