-- ===== src/Power/Releases.antt =====
-- What becomes of a cookie.
use media_hub.Prelude.{ℕ, suc, ◌≡◌, refl, true, false, none, some, [], ◌∷◌, ◌++◌, erase_at, arith}
use media_hub.Prelude.Int.{pos, negsuc}
use media_hub.Power.Display.{
  Cookie, DisplayState, State, Event, the_invalid_cookie, same_cookie, acquire_answered,
  request_acquire, request_release, timed_out, release_answered, step, run,
}

same_cookie_refl : (c : Cookie) → same_cookie c c ≡ true
same_cookie_refl (pos n) = ground arith
same_cookie_refl (negsuc n) = ground arith

-- From a state without a call or a timer under way: the display is acquired, the daemon gives a
-- cookie, the release is requested, its timer expires, and the daemon answers; then that cookie
-- was given up, none is kept, nothing is under way, and each signal was sent once more.
pub display_round_trip :
    (n : ℕ) (s : State)
    → s.acquiring ≡ 0
    → s.timeout ≡ none
    → s.releasing ≡ []
    → let t =
        run
          (Event.acquire DisplayState.on
            ∷ Event.acquire_result (some (pos n))
            ∷ Event.release DisplayState.on
            ∷ Event.expired
            ∷ Event.release_result false 0
            ∷ [])
          s in
      (t.removed ≡ pos n ∷ s.removed)
      × (t.cookie ≡ the_invalid_cookie)
      × (t.acquiring ≡ 0)
      × (t.timeout ≡ none)
      × (t.releasing ≡ [])
      × (t.acquired ≡ suc s.acquired)
      × (t.released ≡ suc s.released)
unfolding run step request_acquire acquire_answered request_release timed_out release_answered
    erase_at
display_round_trip n s a b c =
    rw (a, c, same_cookie_refl (pos n)) (refl, refl, refl, refl, refl, refl, refl)

-- A release that is requested while the answer to the first acquisition is on the way is lost: the
-- cookie comes, is kept, and no timer waits to give it up.
pub early_release_lost :
    (n : ℕ) (s : State)
    → s.acquiring ≡ 0
    → s.cookie ≡ the_invalid_cookie
    → s.timeout ≡ none
    → let t =
        run
          (Event.acquire DisplayState.on
            ∷ Event.release DisplayState.on
            ∷ Event.acquire_result (some (pos n))
            ∷ [])
          s in
      (t.cookie ≡ pos n) × (t.timeout ≡ none) × (t.removed ≡ s.removed)
unfolding run step request_acquire acquire_answered request_release
early_release_lost n s a b c = rw (a, b) (refl, c, refl)

-- When the display is acquired and released again before the timer of an earlier release has
-- expired, that timer is aborted: only the new cookie waits to be given up, and the earlier one is
-- neither kept nor given up.
pub second_release_drops_first :
    (m n : ℕ) (s : State)
    → s.acquiring ≡ 0
    → s.cookie ≡ pos m
    → let t =
        run
          (Event.release DisplayState.on
            ∷ Event.acquire DisplayState.on
            ∷ Event.acquire_result (some (pos n))
            ∷ Event.release DisplayState.on
            ∷ Event.expired
            ∷ [])
          s in
      (t.removed ≡ pos n ∷ s.removed)
      × (t.cookie ≡ pos n)
      × (t.timeout ≡ none)
      × (t.releasing ≡ s.releasing ++ pos n ∷ [])
unfolding run step request_acquire acquire_answered request_release timed_out
second_release_drops_first m n s a b = rw (a, b) (refl, refl, refl, refl)
