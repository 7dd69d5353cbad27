-- ===== src/Playbin/Known.antt =====
-- What one message tells a Playbin of its streams.
use media_hub.Prelude.{
  ◌≡◌, refl, sym, ◌∙◌, Bool, true, false, not, ◌&&◌, ◌||◌, Option, none, some, List, [], ◌∷◌, Text,
  codes, text_eq, contains, starts_with, arith, if◌then◌else◌,
}
use media_hub.Prelude.Int.{ℤ}
use media_hub.Playbin.State.{BufferMetadata, Output, put_out, State}
use media_hub.Playbin.Uris.{text_or_empty}
use media_hub.Playbin.Messages.{
  Message, MissingPlugin, ElementMessage, on_new_message_async, process_missing_plugin_message,
  process_message_element, send_buffer_data, send_frame_ready, note_mime,
}

-- A message, with the pipeline's current streams when it arrives.
pub record Arrival : Type 0 where
  pub current_audio : ℤ
  pub current_video : ℤ
  pub message : Message

abbrev pub deliver : Arrival → State → State
deliver a s = on_new_message_async a.current_audio a.current_video a.message s

unfoldable pub run : List Arrival → State → State
run [] s = s
run (a ∷ rest) s = run rest (deliver a s)

-- The media type that a decoder is missing for.
abbrev pub mime_of : MissingPlugin → Text
mime_of m = if text_eq m.kind (codes "decoder") && m.has_detail then text_or_empty m.mime else []

-- A message that reports a missing decoder for audio; a type that names both counts as audio.
unfoldable pub lacks_audio : Message → Bool
lacks_audio (Message.missing_plugin m) = contains (codes "audio") (mime_of m)
lacks_audio _ = false

unfoldable pub lacks_video : Message → Bool
lacks_video (Message.missing_plugin m) =
    not (contains (codes "audio") (mime_of m)) && contains (codes "video") (mime_of m)
lacks_video _ = false

unfoldable pub selects : Message → Bool
selects (Message.state_changed g source) = text_eq source (codes "playbin")
selects _ = false

-- What the state knows of the streams.
pub record Known : Type 0 where
  pub missing_audio : Bool
  pub missing_video : Bool
  pub audio : ℤ
  pub video : ℤ

abbrev pub known : State → Known
known s = record {
  missing_audio = s.is_missing_audio_codec;
  missing_video = s.is_missing_video_codec;
  audio = s.audio_stream_id;
  video = s.video_stream_id;
}

-- What the messages tell, on top of what was known.
unfoldable pub learn : Arrival → Known → Known
learn a k = record {
  missing_audio = k.missing_audio || lacks_audio a.message;
  missing_video = k.missing_video || lacks_video a.message;
  audio = if selects a.message then a.current_audio else k.audio;
  video = if selects a.message then a.current_video else k.video;
}

unfoldable pub any : (Message → Bool) → List Arrival → Bool
any p [] = false
any p (a ∷ rest) = p a.message || any p rest

-- The streams of the pipeline at the last message of its own that the list has.
unfoldable pub last_selected : (Arrival → ℤ) → List Arrival → ℤ → ℤ
unfolding selects
last_selected f [] old = old
last_selected f (a ∷ rest) old = last_selected f rest (if selects a.message then f a else old)

or_false : (b : Bool) → b || false ≡ b
or_false true = refl
or_false false = refl

or_true : (b : Bool) → b || true ≡ true
or_true true = refl
or_true false = refl

-- A message without news.
pub same_known :
    (k : Known)
    → record {
      missing_audio = k.missing_audio || false;
      missing_video = k.missing_video || false;
      audio = k.audio;
      video = k.video;
    }
      ≡ k
same_known k = λ i. record k {
  missing_audio = or_false k.missing_audio i;
  missing_video = or_false k.missing_video i;
}

abbrev lacking : Bool → Bool → Known → Known
lacking a v k = record k {
  missing_audio = k.missing_audio || a;
  missing_video = k.missing_video || not a && v;
}

-- On what was known of the codecs.
known_mime :
    (o : Option Text) (s : State)
    → known (note_mime o s)
      ≡ lacking
          (contains (codes "audio") (text_or_empty o))
          (contains (codes "video") (text_or_empty o))
          (known s)
unfolding contains starts_with
known_mime none s = sym (same_known (known s))
known_mime (some t) s = go (contains (codes "audio") t) (contains (codes "video") t)
  where
    go :
        (a v : Bool)
        → known (
            if a
            then record s { is_missing_audio_codec = true }
            else if v
            then record s { is_missing_video_codec = true }
            else s)
          ≡ lacking a v (known s)
    go true v = λ i. record (known s) {
      missing_audio = sym (or_true s.is_missing_audio_codec) i;
      missing_video = sym (or_false s.is_missing_video_codec) i;
    }
    go false true = λ i. record (known s) {
      missing_audio = sym (or_false s.is_missing_audio_codec) i;
      missing_video = sym (or_true s.is_missing_video_codec) i;
    }
    go false false = sym (same_known (known s))

known_missing :
    (x y : ℤ) (m : MissingPlugin) (s : State)
    → known (process_missing_plugin_message m s)
      ≡ learn
          (record { current_audio = x; current_video = y; message = Message.missing_plugin m })
          (known s)
unfolding process_missing_plugin_message learn lacks_audio lacks_video selects
known_missing x y m s = ground (arith, known_mime m.mime s, known_mime none s)

pub or_assoc : (a b c : Bool) → (a || b) || c ≡ a || (b || c)
or_assoc true b c = refl
or_assoc false b c = refl

known_element : (m : ElementMessage) (s : State) → known (process_message_element m s) ≡ known s
unfolding process_message_element send_buffer_data send_frame_ready
known_element m s =
    go (text_eq m.name (codes "buffer-export-data")) (text_eq m.name (codes "frame-ready")) m.buffer
  where
    go :
        (a b : Bool) (o : Option (ℤ × BufferMetadata))
        → known (
            if a
            then elim o [ none ↦ s | some (fd, meta) ↦ send_buffer_data fd meta s ]
            else if b
            then send_frame_ready s
            else s)
          ≡ known s
    go true b none = refl
    go true b (some (fd, meta)) = refl
    go false true o = refl
    go false false o = refl

-- A message tells what `learn` says.
pub known_message :
    (x y : ℤ) (m : Message) (s : State)
    → known (on_new_message_async x y m s)
      ≡ learn (record { current_audio = x; current_video = y; message = m }) (known s)
unfolding on_new_message_async learn lacks_audio lacks_video selects
known_message x y (Message.error e) s = sym (same_known (known s))
known_message x y (Message.warning e) s = sym (same_known (known s))
known_message x y (Message.info e) s = sym (same_known (known s))
known_message x y (Message.state_changed g source) s = go (text_eq source (codes "playbin"))
  where
    go :
        (b : Bool)
        → known (if b then record s { audio_stream_id = x; video_stream_id = y } else s) ≡ record {
          missing_audio = s.is_missing_audio_codec || false;
          missing_video = s.is_missing_video_codec || false;
          audio = if b then x else s.audio_stream_id;
          video = if b then y else s.video_stream_id;
        }
    go true = sym (same_known (known (record s { audio_stream_id = x; video_stream_id = y })))
    go false = sym (same_known (known s))
known_message x y (Message.missing_plugin m) s = known_missing x y m s
known_message x y (Message.element m) s = known_element m s ∙ sym (same_known (known s))
known_message x y (Message.tag none) s = sym (same_known (known s))
known_message x y (Message.tag (some t)) s = sym (same_known (known s))
known_message x y Message.async_done s = go s.is_seeking
  where
    go :
        (b : Bool)
        → known (if b then record (put_out (Output.on_seeked_to 0) s) { is_seeking = false } else s)
          ≡ record {
            missing_audio = s.is_missing_audio_codec || false;
            missing_video = s.is_missing_video_codec || false;
            audio = s.audio_stream_id;
            video = s.video_stream_id;
          }
    go true = sym (same_known (known s))
    go false = sym (same_known (known s))
known_message x y Message.eos s = sym (same_known (known s))
known_message x y (Message.buffering n) s = sym (same_known (known s))
known_message x y Message.other s = sym (same_known (known s))
