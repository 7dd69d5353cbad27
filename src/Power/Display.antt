-- ===== src/Power/Display.antt =====
-- `DisplayStateLock`. The calls to the screen's daemon are asynchronous: what is on the way is part
-- of the state, and an answer is an event.
use media_hub.Prelude.{
  ℕ, suc, ◌-◌, Bool, true, false, Option, none, some, List, [], ◌∷◌, ◌++◌, if◌then◌else◌, ◌==◌,
  get_elem?, erase_at,
}
use media_hub.Prelude.Int.{ℤ, pos, negsuc}

pub data DisplayState : Type 0 where
  off on : DisplayState

abbrev pub Cookie : Type 0
Cookie = ℤ

-- -1.
abbrev pub the_invalid_cookie : Cookie
the_invalid_cookie = negsuc 0

abbrev pub same_cookie : Cookie → Cookie → Bool
same_cookie (pos m) (pos n) = m == n
same_cookie (negsuc m) (negsuc n) = m == n
same_cookie _ _ = false

pub record State : Type 0 where
  pub cookie : Cookie
  pub acquiring : ℕ  -- the calls of keepDisplayOn on the way
  pub timeout : Option Cookie  -- what the one timer waits to give up
  pub releasing : List Cookie  -- the calls of removeDisplayOnRequest on the way
  pub given : List Cookie  -- the cookies that keepDisplayOn gave
  pub removed : List Cookie  -- the arguments of removeDisplayOnRequest
  pub acquired : ℕ  -- how often the signals were sent
  pub released : ℕ

-- The constructor.
abbrev pub initial : State
initial = record {
  cookie = the_invalid_cookie;
  acquiring = 0;
  timeout = none;
  releasing = [];
  given = [];
  removed = [];
  acquired = 0;
  released = 0;
}

unfoldable pub request_acquire : DisplayState → State → State
request_acquire DisplayState.off s = s
request_acquire DisplayState.on s = record s { acquiring = suc s.acquiring }

-- `none` is an error. An answer needs a call on the way.
abbrev pub accept : Option Cookie → State → State
accept none s = record s { acquiring = s.acquiring - 1 }
accept (some c) s = record s {
  cookie = c;
  acquiring = s.acquiring - 1;
  given = c ∷ s.given;
  acquired = suc s.acquired;
}

unfoldable pub acquire_answered : Option Cookie → State → State
acquire_answered r s = if s.acquiring == 0 then s else accept r s

-- `expires_from_now` aborts the wait that is under way.
unfoldable pub request_release : DisplayState → State → State
request_release DisplayState.off s = s
request_release DisplayState.on s =
    if same_cookie s.cookie the_invalid_cookie then s else record s { timeout = some s.cookie }

abbrev pub give_up : State → Option Cookie → State
give_up s none = s
give_up s (some c) = record s {
  timeout = none;
  releasing = s.releasing ++ c ∷ [];
  removed = c ∷ s.removed;
}

unfoldable pub timed_out : State → State
timed_out s = give_up s s.timeout

abbrev pub forget : Bool → ℕ → State → Option Cookie → State
forget is_error i s none = s
forget true i s (some c) = record s { releasing = erase_at s.releasing i }
forget false i s (some c) = record s {
  releasing = erase_at s.releasing i;
  released = suc s.released;
  cookie = if same_cookie s.cookie c then the_invalid_cookie else s.cookie;
}

-- The answer to the i-th call on the way.
unfoldable pub release_answered : Bool → ℕ → State → State
release_answered is_error i s = forget is_error i s (get_elem? s.releasing i)

pub data Event : Type 0 where
  acquire : DisplayState → Event
  release : DisplayState → Event
  acquire_result : Option Cookie → Event
  expired : Event
  release_result : Bool → ℕ → Event

unfoldable pub step : Event → State → State
unfolding request_acquire request_release acquire_answered timed_out release_answered
step (Event.acquire d) s = request_acquire d s
step (Event.release d) s = request_release d s
step (Event.acquire_result r) s = acquire_answered r s
step Event.expired s = timed_out s
step (Event.release_result is_error i) s = release_answered is_error i s

unfoldable pub run : List Event → State → State
run [] s = s
run (e ∷ es) s = run es (step e s)
