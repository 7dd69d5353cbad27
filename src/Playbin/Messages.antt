-- ===== src/Playbin/Messages.antt =====
-- The messages of the pipeline's bus, and the buffers of the video sink.
use media_hub.Prelude.{
  ℕ, Bool, true, false, Option, none, some, ◌++◌, Text, codes, text_eq, contains, decimal,
  if◌then◌else◌,
}
use media_hub.Prelude.Int.{ℤ}
use media_hub.Engine.{GstState, GError}
use media_hub.Playbin.State.{Backend, BufferMetadata, Output, State, put_out, close_consumer}
use media_hub.Playbin.Pipeline.{orientation_lut}

-- A missing plugin: its kind, and the media type of the caps, where they have one.
pub record MissingPlugin : Type 0 where
  pub kind : Text
  pub has_detail : Bool
  pub mime : Option Text

abbrev pub note_mime : Option Text → State → State
note_mime none s = s
note_mime (some mime) s =
    if contains (codes "audio") mime
    then record s { is_missing_audio_codec = true }
    else if contains (codes "video") mime
    then record s { is_missing_video_codec = true }
    else s

unfoldable pub process_missing_plugin_message : MissingPlugin → State → State
process_missing_plugin_message m s =
    if text_eq m.kind (codes "decoder") then (if m.has_detail then note_mime m.mime s else s) else s

-- An element's message: its name, and the file descriptor and metadata of a buffer.
pub record ElementMessage : Type 0 where
  pub name : Text
  pub buffer : Option (ℤ × BufferMetadata)

unfoldable pub send_buffer_data : ℤ → BufferMetadata → State → State
send_buffer_data fd meta s = put_out (Output.send_buffer s.sock_consumer fd meta) s

unfoldable pub send_frame_ready : State → State
send_frame_ready s = put_out (Output.send_frame s.sock_consumer) s

unfoldable pub process_message_element : ElementMessage → State → State
unfolding send_buffer_data send_frame_ready
process_message_element m s =
    if text_eq m.name (codes "buffer-export-data")
    then elim m.buffer [ none ↦ s | some (fd, meta) ↦ send_buffer_data fd meta s ]
    else if text_eq m.name (codes "frame-ready")
    then send_frame_ready s
    else s

-- A message of the bus, with what the handler reads of it.
pub data Message : Type 0 where
  error : GError → Message
  warning : GError → Message
  info : GError → Message
  state_changed : GstState → Text → Message
  missing_plugin : MissingPlugin → Message
  element : ElementMessage → Message
  tag : Option Text → Message  -- the image-orientation, if the tags have one
  async_done : Message
  eos : Message
  buffering : ℤ → Message
  other : Message

abbrev pub report_orientation : Option Text → State → State
report_orientation none s = s
report_orientation (some t) s = put_out (Output.on_orientation_changed (orientation_lut t)) s

-- `current_audio` and `current_video` are the pipeline's properties when the message arrives.
unfoldable pub on_new_message_async : ℤ → ℤ → Message → State → State
unfolding process_missing_plugin_message process_message_element
on_new_message_async current_audio current_video (error e) s = put_out (Output.on_error e) s
on_new_message_async current_audio current_video (warning e) s = put_out (Output.on_warning e) s
on_new_message_async current_audio current_video (info e) s = put_out (Output.on_info e) s
on_new_message_async current_audio current_video (state_changed g source) s =
    put_out (Output.on_state_changed g source) (
      if text_eq source (codes "playbin")
      then record s { audio_stream_id = current_audio; video_stream_id = current_video }
      else s)
on_new_message_async current_audio current_video (missing_plugin m) s =
    process_missing_plugin_message m s
on_new_message_async current_audio current_video (element m) s = process_message_element m s
on_new_message_async current_audio current_video (tag orientation) s =
    put_out Output.on_tag_available (report_orientation orientation s)
on_new_message_async current_audio current_video async_done s =
    if s.is_seeking then record (put_out (Output.on_seeked_to 0) s) { is_seeking = false } else s
on_new_message_async current_audio current_video eos s = put_out Output.on_end_of_stream s
on_new_message_async current_audio current_video (buffering percent) s =
    put_out (Output.on_buffering_changed percent) s
on_new_message_async current_audio current_video other s = s

-- The socket's answers: its descriptor, and whether it can be bound and connected.
pub record Socket : Type 0 where
  pub descriptor : Option ℕ
  pub binds : Text → Bool
  pub connects : Text → Bool

abbrev give_up_socket : ℕ → State → Bool × State
give_up_socket fd s = (false, record (put_out (Output.close_socket fd) s) { sock_consumer = none })

-- With a socket or none, bound or not, connected or not.
abbrev pub connect_with : Option ℕ → Bool → Bool → State → Bool × State
connect_with none bound connected s = (false, s)
connect_with (some fd) true true s = (true, s)
connect_with (some fd) true false s = give_up_socket fd s
connect_with (some fd) false connected s = give_up_socket fd s

unfoldable pub connect_to_consumer : Socket → State → Bool × State
unfolding close_consumer
connect_to_consumer k s =
    connect_with k.descriptor (k.binds (codes "media-hub-server" ++ decimal s.key))
      (k.connects (codes "media-consumer" ++ decimal s.key))
      (record (close_consumer s) { sock_consumer = k.descriptor })

-- None where the code throws.
unfoldable pub setup_video_sink_for_buffer_streaming : Socket → State → Option State
unfolding connect_to_consumer
setup_video_sink_for_buffer_streaming k s = elim s.backend [
  | Backend.hybris ↦ some (put_out Output.set_mir_context s)
  | Backend.mir ↦ some (put_out Output.export_buffers (connect_to_consumer k s).1)
  | Backend.none ↦ none
]

unfoldable pub create_video_sink : Socket → State → Option State
unfolding setup_video_sink_for_buffer_streaming
create_video_sink k s = if s.video_sink then setup_video_sink_for_buffer_streaming k s else none
