-- ===== src/Playbin/Change.antt =====
-- Changes of the pipeline's state, and the video's dimensions.
use media_hub.Prelude.{
  ℕ, ◌-◌, ◌%◌, ◌^◌, Bool, true, false, not, ◌&&◌, ◌||◌, Option, none, some, List, [], ◌∷◌,
  if◌then◌else◌, ◌==◌,
}
use media_hub.Prelude.Int.{ℤ, pos, negsuc}
use media_hub.Engine.{GstState}
use media_hub.Playbin.State.{
  StateChange, Dimensions, Output, State, put_out, is_supported_video_sink,
}

unfoldable pub set_state_in_main_thread : State → State
set_state_in_main_thread s = put_out (Output.element_set_state s.current_new_state) s

abbrev is_success : StateChange → Bool
is_success StateChange.success = true
is_success _ = false

abbrev pub is_playing : GstState → Bool
is_playing GstState.playing = true
is_playing _ = false

-- The numbers that a pad's caps name.
pub record Caps : Type 0 where
  pub width : Option ℤ
  pub height : Option ℤ

abbrev or_old : Option ℤ → ℤ → ℤ
or_old none old = old
or_old (some n) old = n

-- The int variables of the loop.
pub record Size : Type 0 where
  pub video_width : ℤ
  pub video_height : ℤ

-- The loop over the sink's pads; none for a pad without caps.
unfoldable pub last_size : List (Option Caps) → Size → Size
last_size [] d = d
last_size (none ∷ pads) d = last_size pads d
last_size (some c ∷ pads) d = last_size pads (record {
  video_width = or_old c.width d.video_width;
  video_height = or_old c.height d.video_height;
})

-- `static_cast<uint32_t>` of an int.
abbrev pub to_uint32 : ℤ → ℕ
to_uint32 (pos n) = n % 2 ^ 32
to_uint32 (negsuc n) = (2 ^ 32 - 1 - n) % 2 ^ 32

-- None where the code throws.
unfoldable pub get_video_dimensions : List (Option Caps) → State → Option Dimensions
unfolding last_size is_supported_video_sink
get_video_dimensions pads s =
    let size = last_size pads (record { video_width = pos 0; video_height = pos 0 }) in
    if not s.video_sink || not (is_supported_video_sink s)
    then none
    else some (record { height = to_uint32 size.video_height; width = to_uint32 size.video_width })

abbrev pub same_dimensions : Dimensions → Dimensions → Bool
same_dimensions d e = d.height == e.height && d.width == e.width

abbrev pub signal_unless : Bool → Dimensions → State → State
signal_unless true d s = s
signal_unless false d s = put_out (Output.on_video_dimensions_changed d) s

unfoldable pub emit_video_dimensions_changed_if_changed : Dimensions → State → State
emit_video_dimensions_changed_if_changed d s =
    signal_unless (same_dimensions d s.cached_video_dimensions) d s

-- The exception is caught.
abbrev pub note_dimensions : Option Dimensions → State → State
note_dimensions none s = s
note_dimensions (some d) s = record (emit_video_dimensions_changed_if_changed d s) {
  cached_video_dimensions = d;
}

unfoldable pub query_dimensions : List (Option Caps) → State → State
unfolding get_video_dimensions emit_video_dimensions_changed_if_changed
query_dimensions pads s = note_dimensions (get_video_dimensions pads s) s

-- The change itself: `ret` answers the call, `waited` the wait of up to five seconds.
unfoldable pub change_state : StateChange → StateChange → GstState → Bool → State → Bool × State
change_state ret waited new_state true s = (
  is_success waited,
  put_out (Output.idle_set_state new_state) (record s { current_new_state = new_state }),
)
change_state ret waited new_state false s = (
  elim ret [
    | StateChange.failure ↦ false
    | StateChange.success ↦ true
    | StateChange.no_preroll ↦ true
    | StateChange.async ↦ is_success waited
  ],
  put_out (Output.element_set_state new_state) s,
)

abbrev pub query_if : Bool → List (Option Caps) → State → State
query_if true pads s = query_dimensions pads s
query_if false pads s = s

unfoldable pub set_state_and_wait :
    StateChange → StateChange → List (Option Caps) → GstState → Bool → State → Bool × State
unfolding change_state query_dimensions
set_state_and_wait ret waited pads new_state use_main_thread s =
    let (result, t) = change_state ret waited new_state use_main_thread s in
    (result, query_if (result && is_playing new_state) pads t)
