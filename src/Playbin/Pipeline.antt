-- ===== src/Playbin/Pipeline.antt =====
-- A Playbin's pipeline: its set up, its reset and its audio role.
use media_hub.Prelude.{
  ℕ, ◌-◌, ◌^◌, Bool, true, false, ◌&&◌, Option, [], ◌++◌, Text, codes, text_eq, if◌then◌else◌,
}
use Prim.Native.Nat.{bit_and, bit_or}
use media_hub.Media.{AudioStreamRole, Lifetime}
use media_hub.Engine.{GstState}
use media_hub.Playbin.State.{
  MediaFileType, Orientation, Backend, Output, State, put_out, minus_one, close_consumer,
}
use media_hub.Playbin.Uris.{text_or_empty}

unfoldable pub reset_pipeline : State → State
unfolding close_consumer
reset_pipeline s = close_consumer (record (put_out (Output.element_set_state GstState.null) s) {
  file_type = MediaFileType.none;
  is_missing_audio_codec = false;
  is_missing_video_codec = false;
  audio_stream_id = minus_one;
  video_stream_id = minus_one;
})

abbrev pub is_resumable : Lifetime → Bool
is_resumable Lifetime.resumable = true
is_resumable Lifetime.normal = false

unfoldable pub reset : State → State
unfolding reset_pipeline
reset s =
    put_out Output.client_disconnected
      (if is_resumable s.player_lifetime then s else reset_pipeline s)

abbrev pub audio_flag : ℕ
audio_flag = 2

abbrev pub video_flag : ℕ
video_flag = 1

abbrev pub text_flag : ℕ
text_flag = 4

unfoldable pub play_flags : ℕ → ℕ
play_flags flags = bit_and (bit_or (bit_or flags audio_flag) video_flag) (2 ^ 32 - 1 - text_flag)

abbrev default_video_sink : Backend → Option Text
default_video_sink Backend.hybris = Option.some (codes "hybrissink")
default_video_sink Backend.mir = Option.some (codes "mirsink")
default_video_sink Backend.none = Option.none

abbrev or_else : Option Text → Option Text → Option Text
or_else Option.none o = o
or_else (Option.some t) o = Option.some t

-- `made` tells which elements can be made; `audio_env` and `video_env` are the environment's names.
unfoldable pub setup_pipeline_for_audio_video :
    (Text → Bool) → Option Text → Option Text → ℕ → State → State
unfolding play_flags
setup_pipeline_for_audio_video made audio_env video_env flags s =
    let s1 = put_out (Output.set_flags (play_flags flags)) s in
    let asink = made (text_or_empty (or_else audio_env (Option.some (codes "pulsesink")))) in
    let s2 =
      if asink
      then record (put_out Output.set_audio_sink s1) { audio_sink = true }
      else record s1 { audio_sink = false } in
    elim (or_else video_env (default_video_sink s.backend)) [
      | Option.none ↦ s2
      | Option.some name ↦
          if made name
          then record (put_out Output.set_video_sink s2) {
            video_sink_name = name;
            video_sink = true;
          }
          else record s2 { video_sink_name = name; video_sink = false }
    ]

-- `AVBackend::get_backend_type`: `found` tells of GStreamer's plugins, where it has a registry.
unfoldable pub get_backend_type : Option (Text → Bool) → Backend
get_backend_type Option.none = Backend.none
get_backend_type (Option.some found) =
    if found (codes "libgstandroidmedia.so")
    then Backend.hybris
    else if found (codes "libgstmirsink.so")
    then Backend.mir
    else Backend.none

-- The constructor; none where it throws, without a pipeline.
unfoldable pub new_playbin :
    Bool → (Text → Bool) → Option Text → Option Text → ℕ → Backend → ℕ → Option State
unfolding setup_pipeline_for_audio_video
new_playbin false made audio_env video_env flags backend key = Option.none
new_playbin true made audio_env video_env flags backend key = Option.some (
    setup_pipeline_for_audio_video made audio_env video_env flags (record {
      file_type = MediaFileType.none;
      video_sink = false;
      audio_sink = false;
      is_seeking = false;
      previous_position = 0;
      cached_video_dimensions = record { height = 0; width = 0 };
      request_headers = [];
      player_lifetime = Lifetime.normal;
      is_missing_audio_codec = false;
      is_missing_video_codec = false;
      audio_stream_id = minus_one;
      video_stream_id = minus_one;
      current_new_state = GstState.null;
      key = key;
      backend = backend;
      video_sink_name = [];
      sock_consumer = Option.none;
      output = [];
    }))

-- The destructor.
unfoldable pub destroy : State → State
unfolding close_consumer
destroy s = close_consumer (put_out Output.unref_pipeline s)

unfoldable pub about_to_finish : State → State
about_to_finish s = put_out Output.about_to_finish s

unfoldable pub get_audio_role_str : AudioStreamRole → Text
get_audio_role_str AudioStreamRole.alarm = codes "alarm"
get_audio_role_str AudioStreamRole.alert = codes "alert"
get_audio_role_str AudioStreamRole.multimedia = codes "multimedia"
get_audio_role_str AudioStreamRole.phone = codes "phone"

unfoldable pub orientation_lut : Text → Orientation
orientation_lut t =
    if text_eq t (codes "rotate-0")
    then Orientation.rotate0
    else if text_eq t (codes "rotate-90")
    then Orientation.rotate90
    else if text_eq t (codes "rotate-180")
    then Orientation.rotate180
    else if text_eq t (codes "rotate-270")
    then Orientation.rotate270
    else Orientation.rotate0

-- `parsed`: whether the properties' text parses.
unfoldable pub set_audio_stream_role : Bool → AudioStreamRole → State → State
unfolding get_audio_role_str
set_audio_stream_role parsed role s =
    if s.audio_sink && parsed
    then put_out (Output.stream_properties (codes "props,media.role=" ++ get_audio_role_str role)) s
    else s

unfoldable pub set_lifetime : Lifetime → State → State
set_lifetime l s = record s { player_lifetime = l }
