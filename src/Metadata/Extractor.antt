-- ===== src/Metadata/Extractor.antt =====
-- The metadata of a uri's tags: src/core/media/gstreamer/meta_data_extractor.h. The tags and the
-- pipeline are GStreamer's: what they hold and answer is an argument.
use media_hub.Prelude.{
  ℕ, suc, Bool, Option, none, some, List, [], ◌∷◌, ◌++◌, Text, codes, text_dec, text_eq, decimal,
  lookup, if◌then◌else◌,
}
use media_hub.Prelude.Int.{ℤ, pos, negsuc}
use media_hub.Metadata.{MetaData, set, image_key, preview_image_key}

-- The names that MPRIS has for GStreamer's tags.
abbrev pub gstreamer_to_mpris_tag_lut : List (Text × Text)
gstreamer_to_mpris_tag_lut =
    (codes "album", codes "xesam:album")
    ∷ (codes "album-artist", codes "xesam:albumArtist")
    ∷ (codes "artist", codes "xesam:artist")
    ∷ (codes "lyrics", codes "xesam:asText")
    ∷ (codes "comment", codes "xesam:comment")
    ∷ (codes "composer", codes "xesam:composer")
    ∷ (codes "date", codes "xesam:comment")
    ∷ (codes "album-disc-number", codes "xesam:discNumber")
    ∷ (codes "genre", codes "xesam:genre")
    ∷ (codes "title", codes "xesam:title")
    ∷ (codes "track-number", codes "xesam:trackNumber")
    ∷ (codes "user-rating", codes "xesam:userRating")
    ∷ (codes "image", image_key)
    ∷ (codes "preview-image", preview_image_key)
    ∷ []

-- A tag's value by its type; none where the list has no value for it. A float's and a double's text
-- is what the stream prints for it.
pub data TagValue : Type 0 where
  boolean : Option ℕ → TagValue
  int : Option ℤ → TagValue
  uint : Option ℕ → TagValue
  int64 : Option ℤ → TagValue
  uint64 : Option ℕ → TagValue
  float : Option Text → TagValue
  double : Option Text → TagValue
  string : Option Text → TagValue
  other_type : TagValue

abbrev print_int : ℤ → Text
print_int (pos n) = decimal n
print_int (negsuc n) = b'-' ∷ decimal (suc n)

abbrev printed : {A : Type 0} → (A → Text) → Option A → Text
printed f none = []
printed f (some a) = f a

abbrev same : Text → Text
same t = t

unfoldable pub print_value : TagValue → Text
print_value (TagValue.boolean o) = printed decimal o
print_value (TagValue.int o) = printed print_int o
print_value (TagValue.uint o) = printed decimal o
print_value (TagValue.int64 o) = printed print_int o
print_value (TagValue.uint64 o) = printed decimal o
print_value (TagValue.float o) = printed same o
print_value (TagValue.double o) = printed same o
print_value (TagValue.string o) = printed same o
print_value TagValue.other_type = []

abbrev pub name_or_tag : Text → Option Text → Text
name_or_tag tag none = tag
name_or_tag tag (some name) = name

abbrev pub tag_name : Text → Text
tag_name tag = name_or_tag tag (lookup text_dec tag gstreamer_to_mpris_tag_lut)

-- An image's text is "true", behind what the value prints.
unfoldable pub tag_text : Text → TagValue → Text
unfolding print_value
tag_text name v =
    print_value v
    ++ (if text_eq name preview_image_key then codes "true" else [])
    ++ (if text_eq name image_key then codes "true" else [])

unfoldable pub on_tag_available : List (Text × TagValue) → MetaData → MetaData
unfolding tag_text
on_tag_available [] md = md
on_tag_available ((tag, v) ∷ rest) md =
    on_tag_available rest (set (tag_name tag) (tag_text (tag_name tag) v) md)

-- What the bus delivers while the pipeline is set to paused.
pub data Message : Type 0 where
  tag : List (Text × TagValue) → Message
  async_done : Message
  other : Message

-- The metadata at the first async-done message; none without one. A second one, which sets the
-- promise again, throws on the bus's side, after the future has its value.
unfoldable pub collect : List Message → MetaData → Option MetaData
unfolding on_tag_available
collect [] md = none
collect (Message.tag tags ∷ rest) md = collect rest (on_tag_available tags md)
collect (Message.async_done ∷ rest) md = some md
collect (Message.other ∷ rest) md = collect rest md

-- `messages` are those of the four seconds. None where the code throws.
unfoldable pub meta_data_for_track_with_uri : Bool → List Message → Option MetaData
unfolding collect
meta_data_for_track_with_uri is_valid messages = if is_valid then collect messages [] else none
