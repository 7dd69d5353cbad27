-- ===== src/Metadata/Wire.antt =====
-- How values stand in the bus's messages: src/core/media/codec.h.
use media_hub.Prelude.{
  ℕ, ◌%◌, ◌^◌, Bool, true, false, not, ◌&&◌, ◌||◌, Option, none, some, List, [], ◌∷◌, Text, text_eq,
  get_elem?, length, if◌then◌else◌, ◌==◌,
}
use media_hub.Prelude.Int.{ℤ}
use media_hub.Media.{PlaybackStatus, LoopStatus, AudioStreamRole, Lifetime, PlayerError}
use media_hub.Playbin.State.{Orientation}
use media_hub.Metadata.{MetaData, album_key, image_key, preview_image_key, length_key, set_album}

pub data Variant : Type 0 where
  text : Text → Variant
  int64 : ℤ → Variant

abbrev pub is_hidden : Text → Bool
is_hidden key = text_eq key image_key || text_eq key preview_image_key

abbrev pub is_length : Text → Text → Bool
is_length key value = text_eq key length_key && not (length value == 0)

abbrev pub as_int : Option ℤ → Option Variant
as_int none = none
as_int (some n) = some (Variant.int64 n)

-- `lexical_cast` is boost's, to an int64_t; none where it throws.
unfoldable pub encode_value : (Text → Option ℤ) → Text → Text → Option Variant
encode_value lexical_cast key value =
    if is_length key value then as_int (lexical_cast value) else some (Variant.text value)

abbrev pub add_entry :
    Text → Option Variant → Option (List (Text × Variant)) → Option (List (Text × Variant))
add_entry key none rest = none
add_entry key (some v) none = none
add_entry key (some v) (some entries) = some ((key, v) ∷ entries)

unfoldable pub encode_meta_data : (Text → Option ℤ) → MetaData → Option (List (Text × Variant))
unfolding encode_value
encode_meta_data lexical_cast [] = some []
encode_meta_data lexical_cast ((key, value) ∷ md) =
    let rest = encode_meta_data lexical_cast md in
    if is_hidden key then rest else add_entry key (encode_value lexical_cast key value) rest

-- A variant of another type cannot be read as a text.
abbrev pub decode_entry : Bool → Variant → MetaData → Option MetaData
decode_entry true (Variant.text t) md = some (set_album t md)
decode_entry true (Variant.int64 n) md = none
decode_entry false v md = some md

infixl 5 ◌read◌
abbrev pub ◌read◌ : Option MetaData → (MetaData → Option MetaData) → Option MetaData
none read f = none
some md read f = f md

unfoldable pub decode_meta_data : List (Text × Variant) → MetaData → Option MetaData
decode_meta_data [] md = some md
decode_meta_data ((key, v) ∷ entries) md =
    decode_entry (text_eq key album_key) v md read decode_meta_data entries

-- The enumerations, by number.
abbrev pub statuses : List PlaybackStatus
statuses =
    PlaybackStatus.null ∷ PlaybackStatus.ready ∷ PlaybackStatus.playing ∷ PlaybackStatus.paused
    ∷ PlaybackStatus.stopped ∷ []

unfoldable pub encode_playback_status : PlaybackStatus → ℕ
encode_playback_status PlaybackStatus.null = 0
encode_playback_status PlaybackStatus.ready = 1
encode_playback_status PlaybackStatus.playing = 2
encode_playback_status PlaybackStatus.paused = 3
encode_playback_status PlaybackStatus.stopped = 4

-- None where the number names no enumerator.
unfoldable pub decode_playback_status : ℕ → Option PlaybackStatus
decode_playback_status n = get_elem? statuses n

abbrev pub loops : List LoopStatus
loops = LoopStatus.none ∷ LoopStatus.track ∷ LoopStatus.playlist ∷ []

unfoldable pub encode_loop_status : LoopStatus → ℕ
encode_loop_status LoopStatus.none = 0
encode_loop_status LoopStatus.track = 1
encode_loop_status LoopStatus.playlist = 2

unfoldable pub decode_loop_status : ℕ → Option LoopStatus
decode_loop_status n = get_elem? loops n

abbrev pub roles : List AudioStreamRole
roles =
    AudioStreamRole.alarm ∷ AudioStreamRole.alert ∷ AudioStreamRole.multimedia
    ∷ AudioStreamRole.phone ∷ []

unfoldable pub encode_audio_stream_role : AudioStreamRole → ℕ
encode_audio_stream_role AudioStreamRole.alarm = 0
encode_audio_stream_role AudioStreamRole.alert = 1
encode_audio_stream_role AudioStreamRole.multimedia = 2
encode_audio_stream_role AudioStreamRole.phone = 3

unfoldable pub decode_audio_stream_role : ℕ → Option AudioStreamRole
decode_audio_stream_role n = get_elem? roles n

abbrev pub orientations : List Orientation
orientations =
    Orientation.rotate0 ∷ Orientation.rotate90 ∷ Orientation.rotate180 ∷ Orientation.rotate270 ∷ []

unfoldable pub encode_orientation : Orientation → ℕ
encode_orientation Orientation.rotate0 = 0
encode_orientation Orientation.rotate90 = 1
encode_orientation Orientation.rotate180 = 2
encode_orientation Orientation.rotate270 = 3

unfoldable pub decode_orientation : ℕ → Option Orientation
decode_orientation n = get_elem? orientations n

abbrev pub lifetimes : List Lifetime
lifetimes = Lifetime.normal ∷ Lifetime.resumable ∷ []

unfoldable pub encode_lifetime : Lifetime → ℕ
encode_lifetime Lifetime.normal = 0
encode_lifetime Lifetime.resumable = 1

unfoldable pub decode_lifetime : ℕ → Option Lifetime
decode_lifetime n = get_elem? lifetimes n

abbrev pub errors : List PlayerError
errors =
    PlayerError.no_error ∷ PlayerError.resource_error ∷ PlayerError.format_error
    ∷ PlayerError.network_error ∷ PlayerError.access_denied_error
    ∷ PlayerError.service_missing_error ∷ []

unfoldable pub encode_error : PlayerError → ℕ
encode_error PlayerError.no_error = 0
encode_error PlayerError.resource_error = 1
encode_error PlayerError.format_error = 2
encode_error PlayerError.network_error = 3
encode_error PlayerError.access_denied_error = 4
encode_error PlayerError.service_missing_error = 5

unfoldable pub decode_error : ℕ → Option PlayerError
decode_error n = get_elem? errors n

-- A width or a height, which is a uint32_t already.
unfoldable pub encode_dimension : ℕ → ℕ
encode_dimension n = n % 2 ^ 32

unfoldable pub decode_dimension : ℕ → ℕ
decode_dimension n = n % 2 ^ 32
