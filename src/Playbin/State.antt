-- ===== src/Playbin/State.antt =====
-- The state of a Playbin, and what leaves it.
use media_hub.Prelude.{ℕ, Bool, Option, List, ◌∷◌, Text, text_eq, ◌||◌, codes}
use media_hub.Prelude.Int.{ℤ, negsuc}
use media_hub.Media.{Lifetime}
use media_hub.Engine.{GstState, GError}

pub data MediaFileType : Type 0 where
  none audio video : MediaFileType

pub data Orientation : Type 0 where
  rotate0 rotate90 rotate180 rotate270 : Orientation

-- `AVBackend::Backend`.
pub data Backend : Type 0 where
  none hybris mir : Backend

pub data StateChange : Type 0 where
  failure success async no_preroll : StateChange

-- Both are uint32_t.
pub record Dimensions : Type 0 where
  pub height : ℕ
  pub width : ℕ

-- `BufferMetadata`, with its five `gint`.
pub record BufferMetadata : Type 0 where
  pub width : ℤ
  pub height : ℤ
  pub fourcc : ℤ
  pub stride : ℤ
  pub offset : ℤ

-- The signals, and the calls of GStreamer and of the socket.
pub data Output : Type 0 where
  about_to_finish : Output
  on_error : GError → Output
  on_warning : GError → Output
  on_info : GError → Output
  on_tag_available : Output
  on_state_changed : GstState → Text → Output
  on_seeked_to : ℕ → Output
  on_end_of_stream : Output
  on_orientation_changed : Orientation → Output
  on_video_dimensions_changed : Dimensions → Output
  client_disconnected : Output
  on_buffering_changed : ℤ → Output
  element_set_state : GstState → Output
  idle_set_state : GstState → Output
  seek_simple : ℤ → Output
  set_flags : ℕ → Output
  set_audio_sink : Output
  set_video_sink : Output
  stream_properties : Text → Output
  set_pipeline_uri : Text → Output
  set_cookies : List Text → Output
  set_user_agent : Text → Output
  set_mir_context : Output
  export_buffers : Output
  close_socket : ℕ → Output
  unref_pipeline : Output
  send_buffer : Option ℕ → ℤ → BufferMetadata → Output
  send_frame : Option ℕ → Output

pub record State : Type 0 where
  pub file_type : MediaFileType
  pub video_sink : Bool  -- whether there is one
  pub audio_sink : Bool
  pub is_seeking : Bool
  pub previous_position : ℕ  -- uint64_t
  pub cached_video_dimensions : Dimensions
  pub request_headers : List (Text × Text)
  pub player_lifetime : Lifetime
  pub is_missing_audio_codec : Bool
  pub is_missing_video_codec : Bool
  pub audio_stream_id : ℤ
  pub video_stream_id : ℤ
  pub current_new_state : GstState
  pub key : ℕ
  pub backend : Backend
  pub video_sink_name : Text
  pub sock_consumer : Option ℕ  -- none for -1
  pub output : List Output  -- the latest first

abbrev pub put_out : Output → State → State
put_out o s = record s { output = o ∷ s.output }

abbrev pub minus_one : ℤ
minus_one = negsuc 0

abbrev pub close_fd : Option ℕ → State → State
close_fd Option.none s = s
close_fd (Option.some fd) s = record (put_out (Output.close_socket fd) s) {
  sock_consumer = Option.none;
}

-- `close(sock_consumer)`, where it is open.
unfoldable pub close_consumer : State → State
close_consumer s = close_fd s.sock_consumer s

unfoldable pub is_supported_video_sink : State → Bool
is_supported_video_sink s =
    text_eq s.video_sink_name (codes "hybrissink") || text_eq s.video_sink_name (codes "mirsink")
