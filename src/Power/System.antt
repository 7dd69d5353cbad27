-- ===== src/Power/System.antt =====
-- `SystemStateLock`: the cookies of powerd, and the calls to it that are on the way. Where the
-- mutex is taken by another thread the code gives up; whether it gets it is an argument.
use media_hub.Prelude.{
  ℕ, Bool, true, false, not, ◌||◌, Option, none, some, List, [], ◌∷◌, ◌++◌, Text, if◌then◌else◌,
  get_elem?, erase_at, lookup, put, erase, is_some, ℕ_discrete,
}

pub data SystemState : Type 0 where
  suspend active blank_on_proximity : SystemState

-- The value of the enumeration, by which the cookies are stored.
abbrev pub value : SystemState → ℕ
value SystemState.suspend = 0
value SystemState.active = 1
value SystemState.blank_on_proximity = 2

abbrev pub is_suspend : SystemState → Bool
is_suspend SystemState.suspend = true
is_suspend _ = false

pub record State : Type 0 where
  pub cookie_store : List (ℕ × Text)
  pub requesting : List SystemState  -- the calls of requestSysState on the way
  pub clearing : List (SystemState × Text)  -- the calls of clearSysState on the way
  pub acquired : List SystemState  -- the signals, the latest first
  pub released : List SystemState

unfoldable pub request_acquire : Bool → SystemState → State → State
request_acquire owns x s =
    if is_suspend x || not owns || is_some (lookup ℕ_discrete (value x) s.cookie_store)
    then s
    else record s { requesting = s.requesting ++ x ∷ [] }

-- An error is `none`.
abbrev pub keep_cookie : Bool → SystemState → Option Text → State → State
keep_cookie owns x none s = s
keep_cookie owns x (some c) s = record s {
  cookie_store = if owns then put ℕ_discrete (value x) c s.cookie_store else s.cookie_store;
  acquired = x ∷ s.acquired;
}

abbrev pub answer_request : Bool → Option Text → ℕ → State → Option SystemState → State
answer_request owns r i s none = s
answer_request owns r i s (some x) =
    keep_cookie owns x r (record s { requesting = erase_at s.requesting i })

-- The answer to the i-th call of requestSysState.
unfoldable pub acquire_answered : Bool → Option Text → ℕ → State → State
acquire_answered owns r i s = answer_request owns r i s (get_elem? s.requesting i)

abbrev pub clear_cookie : SystemState → State → Option Text → State
clear_cookie x s none = s
clear_cookie x s (some c) = record s { clearing = s.clearing ++ (x, c) ∷ [] }

unfoldable pub request_release : Bool → SystemState → State → State
request_release owns x s =
    if is_suspend x || not owns
    then s
    else clear_cookie x s (lookup ℕ_discrete (value x) s.cookie_store)

abbrev pub answer_clear : Bool → ℕ → State → Option (SystemState × Text) → State
answer_clear owns i s none = s
answer_clear owns i s (some (x, c)) = record s {
  clearing = erase_at s.clearing i;
  cookie_store = if owns then erase ℕ_discrete (value x) s.cookie_store else s.cookie_store;
  released = x ∷ s.released;
}

-- The answer to the i-th call of clearSysState; an error is logged, and makes no difference.
unfoldable pub release_answered : Bool → Bool → ℕ → State → State
release_answered owns is_error i s = answer_clear owns i s (get_elem? s.clearing i)
