-- ===== src/Player/Held.antt =====
-- The wakelocks over a player's life.
use media_hub.Prelude.{
  ℕ, zero, suc, ◌≤◌, ◌<◌, ◌≡◌, refl, sym, ap, ◌∙◌, Bool, true, false, not, List, length, arith,
}
use media_hub.Prelude.Int.{ℤ, pos, is_positive, int_max}
use media_hub.Media.{EngineState}
use media_hub.Player.Wakelocks.{
  WakelockClear, State, clear_wakelock, clear_wakelocks, request_power_state, was_playing,
  state_change, initial, Event, run,
}
use media_hub.Player.Balance.{
  Balanced, holds, holds_system, holds_display, count, initial-Balanced, run-Balanced,
}

locks_held :
    (video : Bool) (n : ℕ) (t : State)
    → Balanced video n t
    → (count video t ≡ pos n)
      × (holds video t.requests ≡ is_positive (count video t))
      × (was_playing t.previous_state ≡ true → holds video t.requests ≡ true)
      × (0 < length t.timers → holds video t.requests ≡ true)
      × (holds (not video) t.requests ≡ false)
locks_held true n t (a, b, c, d, e, f, g) =
    (b, e ∙ ap is_positive (sym b), (λ p. ground arith), (λ p. ground arith), g)
locks_held false n t (a, b, c, d, e, f, g) =
    (b, e ∙ ap is_positive (sym b), (λ p. ground arith), (λ p. ground arith), g)

-- Along every run of at most 2^31 - 1 engine changes and timers, in any order, of a player whose
-- kind of source stays the same and whose client stays connected: the count of its kind never
-- falls below zero, the lock of its kind is held exactly if the count is positive, it is held
-- while the player plays and while a timer is to clear it, and the other lock is never taken.
pub held_while_playing :
    (video : Bool) (es : List Event)
    → length es ≤ int_max
    → let t = run es (initial video) in
      (n : ℕ) × (count video t ≡ pos n)
      × (holds video t.requests ≡ is_positive (count video t))
      × (was_playing t.previous_state ≡ true → holds video t.requests ≡ true)
      × (0 < length t.timers → holds video t.requests ≡ true)
      × (holds (not video) t.requests ≡ false)
held_while_playing video es h =
    let (n, b) = run-Balanced video es 0 (initial video) (initial-Balanced video) (omega arith) in
    let (c, d, e, f, g) = locks_held video n (run es (initial video)) b in (n, c, d, e, f, g)

-- A lock's count fits what was asked of it.
abbrev pub Fits : ℤ → Bool → Type 0
Fits z held = (n : ℕ) × (z ≡ pos n) × (held ≡ is_positive (pos n))

-- When both counts fit their locks, clearing both leaves no lock held and both counts zero; the
-- timers stay.
pub clear_wakelocks_correct :
    (s : State)
    → Fits s.system_wakelock_count (holds_system s.requests)
    → Fits s.display_wakelock_count (holds_display s.requests)
    → let t = clear_wakelocks s in
      (t.system_wakelock_count ≡ pos 0)
      × (t.display_wakelock_count ≡ pos 0)
      × (holds_system t.requests ≡ false)
      × (holds_display t.requests ≡ false)
      × (t.timers ≡ s.timers)
unfolding clear_wakelocks clear_wakelock
clear_wakelocks_correct s (zero, a, b) (zero, c, d) = rw (a, c) (refl, refl, b, d, refl)
clear_wakelocks_correct s (suc n, a, b) (zero, c, d) = rw (a, c) (refl, refl, refl, d, refl)
clear_wakelocks_correct s (zero, a, b) (suc m, c, d) = rw (a, c) (refl, refl, b, refl, refl)
clear_wakelocks_correct s (suc n, a, b) (suc m, c, d) = rw (a, c) (refl, refl, refl, refl, refl)

-- A timer that clears a system lock after `clear_wakelocks` has done so takes the count below
-- zero, and the next time that the player plays it asks for no lock.
pub late_clear_unlocks :
    (s : State)
    → s.is_video_source ≡ false
    → s.system_wakelock_count ≡ pos 0
    → let t = state_change EngineState.playing (clear_wakelock WakelockClear.system s) in
      (t.requests ≡ s.requests)
      × (t.system_wakelock_count ≡ pos 0)
      × (was_playing t.previous_state ≡ true)
unfolding clear_wakelock state_change request_power_state
late_clear_unlocks s a b = rw (b, a) (refl, refl, refl)
