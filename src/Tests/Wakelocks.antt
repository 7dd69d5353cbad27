-- ===== src/Tests/Wakelocks.antt =====
-- A player's wakelocks at concrete inputs.
use media_hub.Prelude.{ℕ, ◌≡◌, ◌<◌, true, false, List, [], ◌∷◌, length, arith}
use media_hub.Prelude.Int.{pos, is_positive}
use media_hub.Media.{EngineState}
use media_hub.Player.Wakelocks.{WakelockClear, Request, State, was_playing, initial, Event, run}
use media_hub.Player.Balance.{holds, count}
use media_hub.Player.Held.{held_while_playing}

-- Play, pause, and the timer.
abbrev song_played : List Event
song_played =
    Event.engine_state EngineState.playing
    ∷ Event.engine_state EngineState.paused
    ∷ Event.timeout 0
    ∷ []

held_while_playing_example :
    let t = run song_played (initial false) in
    (n : ℕ) × (count false t ≡ pos n)
    × (holds false t.requests ≡ is_positive (count false t))
    × (was_playing t.previous_state ≡ true → holds false t.requests ≡ true)
    × (0 < length t.timers → holds false t.requests ≡ true)
    × (holds true t.requests ≡ false)
held_while_playing_example = held_while_playing false song_played (omega arith)

-- A film is playing, and the lock of a song that played before is still held.
abbrev busy : State
busy = record (initial true) {
  system_wakelock_count = pos 1;
  display_wakelock_count = pos 2;
  timers = WakelockClear.system ∷ [];
  requests = Request.acquire_display ∷ Request.acquire_system ∷ [];
}
