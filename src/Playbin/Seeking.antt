-- ===== src/Playbin/Seeking.antt =====
-- The position that is reported round a seek.
use media_hub.Prelude.{
  ℕ, ◌<◌, ◌≡◌, refl, sym, subst, ap, Bool, true, false, Option, none, some, List, [], ◌∷◌, All,
  arith, if◌then◌else◌, text_eq, codes, contains, Text,
}
use media_hub.Prelude.Int.{ℤ, pos}
use media_hub.Playbin.State.{BufferMetadata, Output, State, put_out}
use media_hub.Playbin.Position.{
  position, hold_or_report, duration, seek, to_nanoseconds, to_unsigned, answer_or_zero,
}
use media_hub.Playbin.Messages.{
  Message, MissingPlugin, ElementMessage, on_new_message_async, process_missing_plugin_message,
  note_mime, process_message_element, send_buffer_data, send_frame_ready,
}

-- What happens while a seek is under way: a message, or a question for the position, which the
-- pipeline answers by 0.
pub data Event : Type 0 where
  message : ℤ → ℤ → Message → Event
  asked : Option ℤ → Event

unfoldable pub happen : Event → State → State
happen (message x y m) s = on_new_message_async x y m s
happen (asked length) s = (position (some (pos 0)) length s).1

unfoldable pub happen_all : List Event → State → State
happen_all [] s = s
happen_all (e ∷ rest) s = happen_all rest (happen e s)

-- Anything but the message that the seek is done; the questions are about a stream that has a duration.
abbrev pub IsBefore : Event → Type 0
IsBefore (message x y Message.async_done) = ⊥
IsBefore (message x y _) = Unit
IsBefore (asked length) = 0 < duration length

-- A seek is under way, and `n` was reported last.
abbrev IsHeld : ℕ → State → Type 0
IsHeld n s = (s.is_seeking ≡ true) × (s.previous_position ≡ n)

note_mime-IsHeld : (n : ℕ) (o : Option Text) (s : State) → IsHeld n s → IsHeld n (note_mime o s)
note_mime-IsHeld n none s h = h
note_mime-IsHeld n (some t) s h = go (contains (codes "audio") t) (contains (codes "video") t)
  where
    go :
        (a b : Bool)
        → IsHeld n (
            if a
            then record s { is_missing_audio_codec = true }
            else if b
            then record s { is_missing_video_codec = true }
            else s)
    go true b = h
    go false true = h
    go false false = h

missing-IsHeld :
    (n : ℕ) (m : MissingPlugin) (s : State)
    → IsHeld n s
    → IsHeld n (process_missing_plugin_message m s)
unfolding process_missing_plugin_message
missing-IsHeld n m s h = go (text_eq m.kind (codes "decoder")) m.has_detail
  where
    go : (a b : Bool) → IsHeld n (if a then (if b then note_mime m.mime s else s) else s)
    go true true = note_mime-IsHeld n m.mime s h
    go true false = h
    go false b = h

element-IsHeld :
    (n : ℕ) (m : ElementMessage) (s : State) → IsHeld n s → IsHeld n (process_message_element m s)
unfolding process_message_element send_buffer_data send_frame_ready
element-IsHeld n m s h =
    go (text_eq m.name (codes "buffer-export-data")) (text_eq m.name (codes "frame-ready")) m.buffer
  where
    go :
        (a b : Bool) (o : Option (ℤ × BufferMetadata))
        → IsHeld n (
            if a
            then elim o [ none ↦ s | some (fd, meta) ↦ send_buffer_data fd meta s ]
            else if b
            then send_frame_ready s
            else s)
    go true b none = h
    go true b (some (fd, meta)) = h
    go false true o = h
    go false false o = h

message-IsHeld :
    (n : ℕ) (x y : ℤ) (m : Message) (s : State)
    → IsBefore (message x y m)
    → IsHeld n s
    → IsHeld n (on_new_message_async x y m s)
unfolding on_new_message_async
message-IsHeld n x y (Message.error e) s b h = h
message-IsHeld n x y (Message.warning e) s b h = h
message-IsHeld n x y (Message.info e) s b h = h
message-IsHeld n x y (Message.state_changed g source) s b h = go (text_eq source (codes "playbin"))
  where
    go :
        (a : Bool)
        → IsHeld n (if a then record s { audio_stream_id = x; video_stream_id = y } else s)
    go true = h
    go false = h
message-IsHeld n x y (Message.missing_plugin m) s b h = missing-IsHeld n m s h
message-IsHeld n x y (Message.element m) s b h = element-IsHeld n m s h
message-IsHeld n x y (Message.tag none) s b h = h
message-IsHeld n x y (Message.tag (some t)) s b h = h
message-IsHeld n x y Message.async_done s b h = absurd b
message-IsHeld n x y Message.eos s b h = h
message-IsHeld n x y (Message.buffering k) s b h = h
message-IsHeld n x y Message.other s b h = h

-- A question for the position gives the one reported before, and changes nothing.
position-IsHeld :
    (n : ℕ) (length : Option ℤ) (s : State)
    → 0 < duration length
    → IsHeld n s
    → position (some (pos 0)) length s ≡ (n, s)
unfolding position
position-IsHeld n length s d (a, b) = ground arith

happen-IsHeld : (n : ℕ) (e : Event) (s : State) → IsBefore e → IsHeld n s → IsHeld n (happen e s)
unfolding happen
happen-IsHeld n (message x y m) s b h = message-IsHeld n x y m s b h
happen-IsHeld n (asked length) s d h =
    subst (λ r. IsHeld n r.1) (sym (position-IsHeld n length s d h)) h

happen_all-IsHeld :
    (n : ℕ) (events : List Event) (s : State)
    → All IsBefore events
    → IsHeld n s
    → IsHeld n (happen_all events s)
unfolding happen_all
happen_all-IsHeld n [] s b h = h
happen_all-IsHeld n (e ∷ rest) s b h =
    happen_all-IsHeld n rest (happen e s) b.1 (happen-IsHeld n e s b.0 h)

reported_lem :
    (answer length : Option ℤ) (s : State)
    → (position answer length s).1.previous_position ≡ (position answer length s).0
unfolding position
reported_lem answer length s = go (to_unsigned (answer_or_zero answer)) _
  where
    go :
        (now : ℕ) (b : Bool)
        → (hold_or_report b now s).1.previous_position ≡ (hold_or_report b now s).0
    go now true = refl
    go now false = refl

async_done_lem :
    (x y : ℤ) (s : State)
    → s.is_seeking ≡ true
    → on_new_message_async x y Message.async_done s
      ≡ record s { is_seeking = false; output = Output.on_seeked_to 0 ∷ s.output }
unfolding on_new_message_async
async_done_lem x y s e = ground arith

zero_lem :
    (length : Option ℤ) (s : State)
    → s.is_seeking ≡ false
    → (position (some (pos 0)) length s).0 ≡ 0
unfolding position
zero_lem length s e = ground arith

seek_lem :
    (accepted : Bool) (us ns : ℤ) (s : State)
    → to_nanoseconds us ≡ some ns
    → seek accepted us s
      ≡ some (accepted, put_out (Output.seek_simple ns) (record s { is_seeking = true }))
unfolding seek
seek_lem accepted us ns s e = ground arith

-- After a position was reported and a seek was asked for, accepted or not, to a place whose nanoseconds fit: at each question
-- for the position that the pipeline answers by 0 while it gives a positive duration, the position reported stays that one, whatever
-- messages come in, until the message that the seek is done; without such a duration nothing is said here, as 0 is then reported and kept. The end of the seek is signalled once, and the pipeline's 0 is reported from then on.
pub seek_holds_position :
    (answer length : Option ℤ) (accepted : Bool) (us ns : ℤ) (s : State) (events : List Event)
    (later : Option ℤ) (x y : ℤ)
    → to_nanoseconds us ≡ some ns
    → All IsBefore events
    → 0 < duration later
    → (t : State) × (seek accepted us (position answer length s).1 ≡ some (accepted, t))
      × ((position (some (pos 0)) later (happen_all events t)).0 ≡ (position answer length s).0)
      × ((on_new_message_async x y Message.async_done (happen_all events t)).output
          ≡ Output.on_seeked_to 0 ∷ (happen_all events t).output)
      × ((position
            (some (pos 0))
            later
            (on_new_message_async x y Message.async_done (happen_all events t))).0
          ≡ 0)
seek_holds_position answer length accepted us ns s events later x y e before d =
    let n = (position answer length s).0 in
    let t : State =
      put_out (Output.seek_simple ns) (record (position answer length s).1 { is_seeking = true }) in
    let h = happen_all-IsHeld n events t before (refl, reported_lem answer length s) in
    let u = happen_all events t in
    (
      t,
      seek_lem accepted us ns (position answer length s).1 e,
      ap (λ r. r.0) (position-IsHeld n later u d h),
      ap (λ v. v.output) (async_done_lem x y u h.0),
      subst (λ v. (position (some (pos 0)) later v).0 ≡ 0) (sym (async_done_lem x y u h.0))
          (zero_lem later _ refl),
    )
