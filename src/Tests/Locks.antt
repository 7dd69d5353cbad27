-- ===== src/Tests/Locks.antt =====
-- The power locks at concrete inputs.
use media_hub.Prelude.{
  ◌≡◌, refl, true, false, none, some, List, [], ◌∷◌, All, Mem, codes, lookup, ℕ_discrete,
}
use media_hub.Prelude.Int.{pos}
use media_hub.Power.Display.{DisplayState, State, Event, initial, run}
use media_hub.Power.Cookies.{only_given_removed}
use media_hub.Power.System.{
  SystemState, value, request_acquire, acquire_answered, request_release, release_answered,
}
use media_hub.Power.System
use media_hub.Power.SystemLock.{system_round_trip}

abbrev shown_once : List Event
shown_once =
    Event.acquire DisplayState.on
    ∷ Event.acquire_result (some (pos 7))
    ∷ Event.release DisplayState.on
    ∷ Event.expired
    ∷ []

only_given_removed_example : let t = run shown_once initial in All (λ c. Mem c t.given) t.removed
only_given_removed_example = only_given_removed shown_once

abbrev held : State
held = record initial { cookie = pos 3; given = pos 3 ∷ [] }

abbrev asleep : System.State
asleep = record { cookie_store = []; requesting = []; clearing = []; acquired = []; released = [] }

system_round_trip_example :
    let t =
      acquire_answered true (some (codes "c")) 0 (request_acquire true SystemState.active asleep) in
    let u = request_release true SystemState.active t in
    let w = release_answered true false 0 u in
    ((request_acquire true SystemState.active
        (request_acquire true SystemState.active asleep)).requesting
      ≡ SystemState.active ∷ SystemState.active ∷ [])
    × ((lookup ℕ_discrete 1 t.cookie_store ≡ some (codes "c"))
        × (request_acquire true SystemState.active t ≡ t)
        × (u.clearing ≡ (SystemState.active, codes "c") ∷ [])
        × (lookup ℕ_discrete 1 w.cookie_store ≡ none)
        × (w.clearing ≡ [])
        × (w.acquired ≡ SystemState.active ∷ [])
        × (w.released ≡ SystemState.active ∷ []))
unfolding lookup
system_round_trip_example =
    system_round_trip SystemState.active (codes "c") false asleep refl refl refl refl
