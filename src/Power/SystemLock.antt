-- ===== src/Power/SystemLock.antt =====
-- Acquiring and releasing a state of the system.
use media_hub.Prelude.{
  ◌≡◌, refl, ap, ◌∙◌, ◌++◌, Bool, true, false, none, some, [], ◌∷◌, Text, lookup, put, lookup-put,
  lookup-erase, ℕ_discrete, erase_at,
}
use media_hub.Power.System.{
  SystemState, State, value, is_suspend, request_acquire, acquire_answered, request_release,
  release_answered,
}

asked_lem :
    (x : SystemState) (s : State)
    → is_suspend x ≡ false
    → lookup ℕ_discrete (value x) s.cookie_store ≡ none
    → request_acquire true x s ≡ record s { requesting = s.requesting ++ x ∷ [] }
unfolding request_acquire
asked_lem x s awake free = rw (awake, free) refl

system_round_trip_lem :
    (x : SystemState) (c : Text) (is_error : Bool) (s : State)
    → is_suspend x ≡ false
    → lookup ℕ_discrete (value x) s.cookie_store ≡ none
    → s.requesting ≡ []
    → s.clearing ≡ []
    → let t = acquire_answered true (some c) 0 (request_acquire true x s) in
      let u = request_release true x t in
      let w = release_answered true is_error 0 u in
      (lookup ℕ_discrete (value x) t.cookie_store ≡ some c)
      × (request_acquire true x t ≡ t)
      × (u.clearing ≡ (x, c) ∷ [])
      × (lookup ℕ_discrete (value x) w.cookie_store ≡ none)
      × (w.clearing ≡ [])
      × (w.acquired ≡ x ∷ s.acquired)
      × (w.released ≡ x ∷ s.released)
unfolding request_acquire acquire_answered request_release release_answered erase_at
system_round_trip_lem x c is_error s awake free a b =
    let p = lookup-put ℕ_discrete (value x) c s.cookie_store in
    rw (awake, free, a, p, b)
      (
        refl,
        refl,
        refl,
        lookup-erase ℕ_discrete (value x) (put ℕ_discrete (value x) c s.cookie_store),
        refl,
        refl,
        refl,
      )

-- A state other than suspend, without a cookie and with no call on the way, where the guard of the
-- cookies is free whenever it is tried: powerd is asked for it again as long as it has not
-- answered, but not once it has answered with a cookie. The release then gives up that cookie, and
-- afterwards, whether powerd answered with an error or not, no cookie is stored.
pub system_round_trip :
    (x : SystemState) (c : Text) (is_error : Bool) (s : State)
    → is_suspend x ≡ false
    → lookup ℕ_discrete (value x) s.cookie_store ≡ none
    → s.requesting ≡ []
    → s.clearing ≡ []
    → let t = acquire_answered true (some c) 0 (request_acquire true x s) in
      let u = request_release true x t in
      let w = release_answered true is_error 0 u in
      ((request_acquire true x (request_acquire true x s)).requesting ≡ x ∷ x ∷ [])
      × ((lookup ℕ_discrete (value x) t.cookie_store ≡ some c)
          × (request_acquire true x t ≡ t)
          × (u.clearing ≡ (x, c) ∷ [])
          × (lookup ℕ_discrete (value x) w.cookie_store ≡ none)
          × (w.clearing ≡ [])
          × (w.acquired ≡ x ∷ s.acquired)
          × (w.released ≡ x ∷ s.released))
system_round_trip x c is_error s awake free a b =
    let once = asked_lem x s awake free in
    let twice = asked_lem x (record s { requesting = s.requesting ++ x ∷ [] }) awake free in
    (
      ap (λ u. (request_acquire true x u).requesting) once
          ∙ ap (λ u. u.requesting) twice
          ∙ ap (λ r. (r ++ x ∷ []) ++ x ∷ []) a,
      system_round_trip_lem x c is_error s awake free a b,
    )
