-- ===== src/Power/Cookies.antt =====
-- The cookies of the display lock: src/core/media/power/state_controller.cpp.
use mathlib.Core.List.{mem-cons, mem-cons_self}
use mathlib.Core.Logic.Or
use media_hub.Prelude.{
  ℕ, ◌≡◌, refl, ap, ◌⊎◌, inl, inr, Bool, Bool-cases, true, false, Option, none, some, List, [], ◌∷◌,
  Mem, All, if◌then◌else◌, ◌==◌, get_elem?,
}
use media_hub.Power.Display.{
  Cookie, DisplayState, State, Event, the_invalid_cookie, same_cookie, initial, accept,
  acquire_answered, request_acquire, request_release, timed_out, release_answered, step, run,
  give_up, forget,
}

-- The invalid cookie, or one that was given.
abbrev pub IsKnown : List Cookie → Cookie → Type 0
IsKnown given c = (c ≡ the_invalid_cookie) ⊎ Mem c given

abbrev TimeoutIsGiven : List Cookie → Option Cookie → Type 0
TimeoutIsGiven given none = Unit
TimeoutIsGiven given (some c) = Mem c given

-- Every cookie that the lock keeps, waits to give up or has given up was given before.
abbrev pub IsHonest : State → Type 0
IsHonest s =
    IsKnown s.given s.cookie × TimeoutIsGiven s.given s.timeout × All (λ c. Mem c s.given) s.removed

All-more :
    (c : Cookie) (given xs : List Cookie)
    → All (λ x. Mem x given) xs
    → All (λ x. Mem x (c ∷ given)) xs
All-more c given [] h = tt
All-more c given (x ∷ xs) h = (mem-cons.1 (Or.inr h.0), All-more c given xs h.1)

timeout-more :
    (c : Cookie) (given : List Cookie) (t : Option Cookie)
    → TimeoutIsGiven given t
    → TimeoutIsGiven (c ∷ given) t
timeout-more c given none h = tt
timeout-more c given (some d) h = mem-cons.1 (Or.inr h)

either : (P : State → Type 0) (b : Bool) (s t : State) → P s → P t → P (if b then s else t)
either P true s t p q = p
either P false s t p q = q

acquire_answered-IsHonest :
    (r : Option Cookie) (s : State) → IsHonest s → IsHonest (acquire_answered r s)
unfolding acquire_answered
acquire_answered-IsHonest none s h = either IsHonest (s.acquiring == 0) s _ h h
acquire_answered-IsHonest (some c) s h =
    either IsHonest (s.acquiring == 0) s (accept (some c) s) h
      (inr mem-cons_self, timeout-more c s.given s.timeout h.1, All-more c s.given s.removed h.2)

given_cookie :
    (s : State)
    → IsHonest s
    → same_cookie s.cookie the_invalid_cookie ≡ false
    → Mem s.cookie s.given
given_cookie s (inl e, _, _) n =
    let t : same_cookie s.cookie the_invalid_cookie ≡ true =
      ap (λ c. same_cookie c the_invalid_cookie) e in
    absurd (cc)
given_cookie s (inr m, _, _) n = m

request_release-IsHonest :
    (d : DisplayState) (s : State) → IsHonest s → IsHonest (request_release d s)
unfolding request_release
request_release-IsHonest DisplayState.off s h = h
request_release-IsHonest DisplayState.on s h =
    elim (Bool-cases (same_cookie s.cookie the_invalid_cookie)) [
      | inl e ↦ rw e h
      | inr n ↦ rw n (h.0, given_cookie s h n, h.2)
    ]

give_up-IsHonest :
    (s : State) (o : Option Cookie) → IsHonest s → TimeoutIsGiven s.given o → IsHonest (give_up s o)
give_up-IsHonest s none h m = h
give_up-IsHonest s (some c) h m = (h.0, tt, (m, h.2))

IsKnown-either :
    (b : Bool) (given : List Cookie) (c : Cookie)
    → IsKnown given c
    → IsKnown given (if b then the_invalid_cookie else c)
IsKnown-either true given c h = inl refl
IsKnown-either false given c h = h

forget-IsHonest :
    (is_error : Bool) (i : ℕ) (s : State) (o : Option Cookie)
    → IsHonest s
    → IsHonest (forget is_error i s o)
forget-IsHonest is_error i s none h = h
forget-IsHonest true i s (some c) h = h
forget-IsHonest false i s (some c) h =
    (IsKnown-either (same_cookie s.cookie c) s.given s.cookie h.0, h.1, h.2)

step-IsHonest : (e : Event) (s : State) → IsHonest s → IsHonest (step e s)
unfolding step request_acquire timed_out release_answered
step-IsHonest (Event.acquire DisplayState.off) s h = h
step-IsHonest (Event.acquire DisplayState.on) s h = h
step-IsHonest (Event.release d) s h = request_release-IsHonest d s h
step-IsHonest (Event.acquire_result r) s h = acquire_answered-IsHonest r s h
step-IsHonest Event.expired s h = give_up-IsHonest s s.timeout h h.1
step-IsHonest (Event.release_result is_error i) s h =
    forget-IsHonest is_error i s (get_elem? s.releasing i) h

run-IsHonest : (es : List Event) (s : State) → IsHonest s → IsHonest (run es s)
unfolding run
run-IsHonest [] s h = h
run-IsHonest (e ∷ es) s h = run-IsHonest es (step e s) (step-IsHonest e s h)

-- Whatever is requested and whatever the daemon answers, in any order, every cookie that is given
-- up is one that the daemon gave before.
pub only_given_removed :
    (es : List Event) → let t = run es initial in All (λ c. Mem c t.given) t.removed
only_given_removed es = (run-IsHonest es initial (inl refl, tt, tt)).2
