-- ===== src/Player/Wakelocks.antt =====
-- The wakelocks of a player: the engine's state changes, and the delayed clearing.
use media_hub.Prelude.{
  ℕ, Bool, true, false, Option, none, some, List, [], ◌∷◌, ◌++◌, if◌then◌else◌, get_elem?, erase_at,
}
use media_hub.Prelude.Int.{ℤ, pos, increment, decrement, is_positive, is_zero, is_one}
use media_hub.Media.{PlaybackStatus, EngineState}

pub data WakelockClear : Type 0 where
  inactive display system invalid : WakelockClear

-- The requests to the power locks, and the update of the metadata before playing.
pub data Request : Type 0 where
  acquire_display acquire_system : Request
  release_display release_system : Request

pub record State : Type 0 where
  pub is_video_source : Bool
  pub playback_status : PlaybackStatus
  pub previous_state : EngineState
  pub system_wakelock_count : ℤ  -- std::atomic<int>
  pub display_wakelock_count : ℤ
  pub timers : List WakelockClear  -- the clearings that wait for their 4 seconds
  pub requests : List Request  -- the latest first

abbrev pub ask : Request → State → State
ask r s = record s { requests = r ∷ s.requests }

abbrev pub ask_if : Bool → Request → State → State
ask_if true r s = ask r s
ask_if false r s = s

abbrev request_display : State → State
request_display s =
    let n = increment s.display_wakelock_count in
    ask_if (is_one n) Request.acquire_display (record s { display_wakelock_count = n })

abbrev request_system : State → State
request_system s =
    let n = increment s.system_wakelock_count in
    ask_if (is_one n) Request.acquire_system (record s { system_wakelock_count = n })

unfoldable pub request_power_state : State → State
request_power_state s = if s.is_video_source then request_display s else request_system s

unfoldable pub clear_wakelock : WakelockClear → State → State
clear_wakelock WakelockClear.inactive s = s
clear_wakelock WakelockClear.system s =
    let n = decrement s.system_wakelock_count in
    ask_if (is_zero n) Request.release_system (record s { system_wakelock_count = n })
clear_wakelock WakelockClear.display s =
    let n = decrement s.display_wakelock_count in
    ask_if (is_zero n) Request.release_display (record s { display_wakelock_count = n })
clear_wakelock WakelockClear.invalid s = s

abbrev pub current_wakelock_type : Bool → WakelockClear
current_wakelock_type is_video = if is_video then WakelockClear.display else WakelockClear.system

abbrev clear_system : State → State
clear_system s =
    if is_positive s.system_wakelock_count
    then clear_wakelock WakelockClear.system (record s { system_wakelock_count = pos 1 })
    else s

abbrev clear_display : State → State
clear_display s =
    if is_positive s.display_wakelock_count
    then clear_wakelock WakelockClear.display (record s { display_wakelock_count = pos 1 })
    else s

unfoldable pub clear_wakelocks : State → State
unfolding clear_wakelock
clear_wakelocks s = clear_display (clear_system s)

abbrev pub was_playing : EngineState → Bool
was_playing EngineState.playing = true
was_playing _ = false

-- `timeout(4000, true, make_clear_wakelock_functor())` if the player was playing.
abbrev pub clear_later : State → State
clear_later s =
    if was_playing s.previous_state
    then record s { timers = s.timers ++ current_wakelock_type s.is_video_source ∷ [] }
    else s

abbrev show : PlaybackStatus → State → State
show p s = record s { playback_status = p }

abbrev react : EngineState → State → State
react EngineState.ready s = clear_later (show PlaybackStatus.ready s)
react EngineState.playing s = request_power_state (show PlaybackStatus.playing s)
react EngineState.stopped s = clear_later (show PlaybackStatus.stopped s)
react EngineState.paused s = clear_later (show PlaybackStatus.paused s)
react EngineState.no_media s = s
react EngineState.busy s = s

-- `make_state_change_handler`.
unfoldable pub state_change : EngineState → State → State
state_change e s = record (react e s) { previous_state = e }

-- The player's construction.
abbrev pub initial : Bool → State
initial is_video = record {
  is_video_source = is_video;
  playback_status = PlaybackStatus.null;
  previous_state = EngineState.stopped;
  system_wakelock_count = pos 0;
  display_wakelock_count = pos 0;
  timers = [];
  requests = [];
}

-- A timer that runs out.
abbrev clear_found : ℕ → State → Option WakelockClear → State
clear_found i s none = s
clear_found i s (some w) = clear_wakelock w (record s { timers = erase_at s.timers i })

unfoldable pub timer : ℕ → State → State
timer i s = clear_found i s (get_elem? s.timers i)

pub data Event : Type 0 where
  engine_state : EngineState → Event
  timeout : ℕ → Event

unfoldable pub step : Event → State → State
unfolding state_change timer
step (Event.engine_state e) s = state_change e s
step (Event.timeout i) s = timer i s

unfoldable pub run : List Event → State → State
run [] s = s
run (e ∷ es) s = run es (step e s)
