-- ===== src/Playbin/Position.antt =====
-- Position, duration, seeking, and whether the streams can be played.
use media_hub.Prelude.{
  ℕ, suc, ◌-◌, ◌*◌, ◌%◌, ◌^◌, Bool, true, false, not, ◌&&◌, ◌||◌, Option, none, some, ltb, leb,
  if◌then◌else◌, ◌==◌,
}
use media_hub.Prelude.Int.{ℤ, pos, negsuc}
use media_hub.Playbin.State.{Output, State, put_out}

-- `static_cast<uint64_t>` of an int64_t.
abbrev pub to_unsigned : ℤ → ℕ
to_unsigned (pos n) = n % 2 ^ 64
to_unsigned (negsuc n) = (2 ^ 64 - 1 - n) % 2 ^ 64

-- A query that gives no answer leaves the 0 before it.
abbrev pub answer_or_zero : Option ℤ → ℤ
answer_or_zero none = pos 0
answer_or_zero (some n) = n

unfoldable pub duration : Option ℤ → ℕ
duration answer = to_unsigned (answer_or_zero answer)

abbrev pub hold_or_report : Bool → ℕ → State → ℕ × State
hold_or_report true now s = (s.previous_position, s)
hold_or_report false now s = (now, record s { previous_position = now })

-- The queries' answers are the arguments.
unfoldable pub position : Option ℤ → Option ℤ → State → ℕ × State
unfolding duration
position answer length_answer s =
    let now = to_unsigned (answer_or_zero answer) in
    hold_or_report (ltb now (duration length_answer) && s.is_seeking && now == 0) now s

-- `ms.count() * 1000`, where the product is an int64_t; beyond, it is undefined.
abbrev pub to_nanoseconds : ℤ → Option ℤ
to_nanoseconds (pos n) = if ltb (n * 1000) (2 ^ 63) then some (pos (n * 1000)) else none
to_nanoseconds (negsuc n) =
    if leb (suc n * 1000) (2 ^ 63) then some (negsuc (suc n * 1000 - 1)) else none

-- `accepted` is the pipeline's answer; no result is undefined behaviour.
unfoldable pub seek : Bool → ℤ → State → Option (Bool × State)
seek accepted us s = elim (to_nanoseconds us) [
  | none ↦ none
  | some ns ↦ some (accepted, put_out (Output.seek_simple ns) (record s { is_seeking = true }))
]

abbrev pub is_minus_one : ℤ → Bool
is_minus_one (negsuc n) = n == 0
is_minus_one (pos n) = false

unfoldable pub can_play_streams : State → Bool
can_play_streams s = not (
    s.is_missing_audio_codec && is_minus_one s.audio_stream_id
    || s.is_missing_video_codec && is_minus_one s.video_stream_id
    || is_minus_one s.audio_stream_id && is_minus_one s.video_stream_id)
