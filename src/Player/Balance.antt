-- ===== src/Player/Balance.antt =====
-- When a wakelock is held.
use media_hub.Prelude.{
  ℕ, zero, suc, ◌+◌, ◌≤◌, ◌<◌, ◌≡◌, refl, ap, subst, Bool, true, false, Bool-cases, not, inl, inr,
  Option-cases, some, List, [], ◌∷◌, ◌++◌, get_elem?, erase_at, length, All, arith, length-append,
  length-erase_at,
}
use media_hub.Prelude.Int.{ℤ, pos, is_positive, int_max}
use media_hub.Media.{PlaybackStatus, EngineState}
use media_hub.Player.Wakelocks.{
  WakelockClear, Request, State, request_power_state, clear_wakelock, current_wakelock_type,
  was_playing, clear_later, state_change, initial, timer, Event, step, run,
}

-- Whether the latest request for the lock was to acquire it.
abbrev pub holds_system : List Request → Bool
holds_system [] = false
holds_system (Request.acquire_system ∷ rs) = true
holds_system (Request.release_system ∷ rs) = false
holds_system (Request.acquire_display ∷ rs) = holds_system rs
holds_system (Request.release_display ∷ rs) = holds_system rs

abbrev pub holds_display : List Request → Bool
holds_display [] = false
holds_display (Request.acquire_display ∷ rs) = true
holds_display (Request.release_display ∷ rs) = false
holds_display (Request.acquire_system ∷ rs) = holds_display rs
holds_display (Request.release_system ∷ rs) = holds_display rs

abbrev pub holds : Bool → List Request → Bool
holds true rs = holds_display rs
holds false rs = holds_system rs

abbrev pub count : Bool → State → ℤ
count true s = s.display_wakelock_count
count false s = s.system_wakelock_count

abbrev ones : Bool → ℕ
ones true = 1
ones false = 0

-- The player's kind of source is `video`; the count of its kind is `n`, at least one for every
-- timer and one more while it plays; its lock is held exactly if the count is not zero; the other
-- lock was never taken.
abbrev pub Balanced : Bool → ℕ → State → Type 0
Balanced video n s =
    (s.is_video_source ≡ video)
    × (count video s ≡ pos n)
    × (length s.timers + ones (was_playing s.previous_state) ≤ n)
    × All (λ w. w ≡ current_wakelock_type video) s.timers
    × (holds video s.requests ≡ is_positive (pos n))
    × (count (not video) s ≡ pos 0)
    × (holds (not video) s.requests ≡ false)

pub initial-Balanced : (video : Bool) → Balanced video 0 (initial video)
initial-Balanced true = (refl, refl, omega arith, tt, refl, refl, refl)
initial-Balanced false = (refl, refl, omega arith, tt, refl, refl, refl)

All-append_one :
    {A : Type 0} (P : A → Type 0) (xs : List A) (a : A) → All P xs → P a → All P (xs ++ a ∷ [])
All-append_one P [] a h p = (p, tt)
All-append_one P (x ∷ xs) a h p = (h.0, All-append_one P xs a h.1 p)

All-erase_at :
    {A : Type 0} (P : A → Type 0) (xs : List A) (i : ℕ) → All P xs → All P (erase_at xs i)
unfolding erase_at
All-erase_at P [] i h = tt
All-erase_at P (x ∷ xs) zero h = h.1
All-erase_at P (x ∷ xs) (suc i) h = (h.0, All-erase_at P xs i h.1)

All-get_elem? :
    {A : Type 0} (P : A → Type 0) (xs : List A) (i : ℕ) (a : A)
    → All P xs
    → get_elem? xs i ≡ some a
    → P a × (i < length xs)
All-get_elem? P [] i a h e = cc
All-get_elem? P (x ∷ xs) zero a h e = (subst P (cc) h.0, omega arith)
All-get_elem? P (x ∷ xs) (suc i) a h e =
    let (p, l) = All-get_elem? P xs i a h.1 e in (p, omega arith)

play-Balanced :
    (video : Bool) (n : ℕ) (s : State)
    → Balanced video n s
    → n < int_max
    → Balanced video (suc n) (state_change EngineState.playing s)
unfolding state_change request_power_state
play-Balanced true n s (a, b, c, d, e, f, g) h = ground arith
play-Balanced false n s (a, b, c, d, e, f, g) h = ground arith

-- A change to a state other than playing.
later-Balanced :
    (video : Bool) (n : ℕ) (s : State) (p : PlaybackStatus) (x : EngineState)
    → was_playing x ≡ false
    → Balanced video n s
    → Balanced video n
        (record (clear_later (record s { playback_status = p })) { previous_state = x })
later-Balanced true n s p x quiet (a, b, c, d, e, f, g) =
    let l = length-append s.timers (WakelockClear.display ∷ []) in
    let k = All-append_one (λ w. w ≡ WakelockClear.display) s.timers WakelockClear.display d refl in
    elim (Bool-cases (was_playing s.previous_state)) [
      | inl t ↦ rw (t, quiet, a) (refl, b, omega (arith, l, ap ones t), k, e, f, g)
      | inr t ↦ rw (t, quiet, a) (refl, b, omega (arith, ap ones t), d, e, f, g)
    ]
later-Balanced false n s p x quiet (a, b, c, d, e, f, g) =
    let l = length-append s.timers (WakelockClear.system ∷ []) in
    let k = All-append_one (λ w. w ≡ WakelockClear.system) s.timers WakelockClear.system d refl in
    elim (Bool-cases (was_playing s.previous_state)) [
      | inl t ↦ rw (t, quiet, a) (refl, b, omega (arith, l, ap ones t), k, e, f, g)
      | inr t ↦ rw (t, quiet, a) (refl, b, omega (arith, ap ones t), d, e, f, g)
    ]

other-Balanced :
    (video : Bool) (n : ℕ) (s : State) (x : EngineState)
    → was_playing x ≡ false
    → Balanced video n s
    → Balanced video n (record s { previous_state = x })
other-Balanced true n s x quiet (a, b, c, d, e, f, g) = ground arith
other-Balanced false n s x quiet (a, b, c, d, e, f, g) = ground arith

fire-Balanced :
    (video : Bool) (n i : ℕ) (s : State)
    → Balanced video (suc n) s
    → i < length s.timers
    → Balanced video n
        (clear_wakelock (current_wakelock_type video) (record s { timers = erase_at s.timers i }))
unfolding clear_wakelock
fire-Balanced true zero i s (a, b, c, d, e, f, g) h =
    let l = length-erase_at s.timers i h in
    let k = All-erase_at (λ w. w ≡ WakelockClear.display) s.timers i d in
    rw b (a, refl, omega (arith, l), k, refl, f, g)
fire-Balanced true (suc n) i s (a, b, c, d, e, f, g) h =
    let l = length-erase_at s.timers i h in
    let k = All-erase_at (λ w. w ≡ WakelockClear.display) s.timers i d in
    rw b (a, refl, omega (arith, l), k, e, f, g)
fire-Balanced false zero i s (a, b, c, d, e, f, g) h =
    let l = length-erase_at s.timers i h in
    let k = All-erase_at (λ w. w ≡ WakelockClear.system) s.timers i d in
    rw b (a, refl, omega (arith, l), k, refl, f, g)
fire-Balanced false (suc n) i s (a, b, c, d, e, f, g) h =
    let l = length-erase_at s.timers i h in
    let k = All-erase_at (λ w. w ≡ WakelockClear.system) s.timers i d in
    rw b (a, refl, omega (arith, l), k, e, f, g)

state_change-Balanced :
    (video : Bool) (n : ℕ) (s : State) (x : EngineState)
    → Balanced video n s
    → n < int_max
    → (m : ℕ) × (m ≤ suc n) × Balanced video m (state_change x s)
unfolding state_change
state_change-Balanced video n s EngineState.ready b h =
    (n, omega arith, later-Balanced video n s PlaybackStatus.ready EngineState.ready refl b)
state_change-Balanced video n s EngineState.playing b h =
    (suc n, omega arith, play-Balanced video n s b h)
state_change-Balanced video n s EngineState.stopped b h =
    (n, omega arith, later-Balanced video n s PlaybackStatus.stopped EngineState.stopped refl b)
state_change-Balanced video n s EngineState.paused b h =
    (n, omega arith, later-Balanced video n s PlaybackStatus.paused EngineState.paused refl b)
state_change-Balanced video n s EngineState.no_media b h =
    (n, omega arith, other-Balanced video n s EngineState.no_media refl b)
state_change-Balanced video n s EngineState.busy b h =
    (n, omega arith, other-Balanced video n s EngineState.busy refl b)

timer-Balanced :
    (video : Bool) (n i : ℕ) (s : State)
    → Balanced video n s
    → (m : ℕ) × (m ≤ suc n) × Balanced video m (timer i s)
unfolding timer
timer-Balanced video n i s b = elim (Option-cases (get_elem? s.timers i)) [
  | inl e ↦ rw e (n, omega arith, b)
  | inr (w, e) ↦
      let (q, l) = All-get_elem? (λ w. w ≡ current_wakelock_type video) s.timers i w b.3 e in
      let (m, t) = positive n (omega (arith, b.2)) in
      rw (e, q) (m, omega arith, fire-Balanced video m i s (subst (λ x. Balanced video x s) t b) l)
]
  where
    positive : (x : ℕ) → 0 < x → (y : ℕ) × (x ≡ suc y)
    positive zero h = elim h [ ]
    positive (suc y) h = (y, refl)

pub run-Balanced :
    (video : Bool) (es : List Event) (n : ℕ) (s : State)
    → Balanced video n s
    → n + length es ≤ int_max
    → (m : ℕ) × Balanced video m (run es s)
unfolding run step
run-Balanced video [] n s b h = (n, b)
run-Balanced video (Event.engine_state x ∷ es) n s b h =
    let (m, l, c) = state_change-Balanced video n s x b (omega arith) in
    run-Balanced video es m (state_change x s) c (omega arith)
run-Balanced video (Event.timeout i ∷ es) n s b h =
    let (m, l, c) = timer-Balanced video n i s b in
    run-Balanced video es m (timer i s) c (omega arith)
