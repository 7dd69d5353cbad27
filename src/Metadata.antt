-- ===== src/Metadata.antt =====
-- Metadata of tracks: include/core/media/track.h and src/core/media/metadata.cpp.
use media_hub.Prelude.{
  ℕ, Bool, true, false, not, Option, none, some, List, [], ◌∷◌, Text, codes, text_dec, lookup, put,
  is_some, length, if◌then◌else◌, ◌==◌,
}
pub mod Extractor
pub mod Current
pub mod Wire
pub mod RoundTrip

-- A map from a key to its text, one entry for each key.
abbrev pub MetaData : Type 0
MetaData = List (Text × Text)

abbrev pub album_key : Text
album_key = codes "xesam:album"

abbrev pub artist_key : Text
artist_key = codes "xesam:artist"

abbrev pub title_key : Text
title_key = codes "xesam:title"

abbrev pub last_used_key : Text
last_used_key = codes "xesam:lastUsed"

abbrev pub image_key : Text
image_key = codes "tag:image"

abbrev pub preview_image_key : Text
preview_image_key = codes "tag::previewImage"

abbrev pub art_url_key : Text
art_url_key = codes "mpris:artUrl"

abbrev pub length_key : Text
length_key = codes "mpris:length"

abbrev pub track_id_key : Text
track_id_key = codes "mpris:trackid"

abbrev pub count : Text → MetaData → Bool
count key md = is_some (lookup text_dec key md)

abbrev pub set : Text → Text → MetaData → MetaData
set key value md = put text_dec key value md

-- None where `at` throws.
abbrev pub get : Text → MetaData → Option Text
get key md = lookup text_dec key md

abbrev pub text_is_set : Option Text → Bool
text_is_set none = false
text_is_set (some []) = false
text_is_set (some (c ∷ cs)) = true

unfoldable pub is_set : Text → MetaData → Bool
is_set key md = text_is_set (get key md)

-- `escape` is g_uri_escape_string with the reserved characters and UTF-8 allowed.
abbrev escaped : (Text → Option Text) → Option Text → Text
escaped escape none = []
escaped escape (some t) = elim (escape t) [ none ↦ [] | some e ↦ e ]

unfoldable pub encode : (Text → Option Text) → Text → MetaData → Text
unfolding is_set
encode escape key md = if not (is_set key md) then [] else escaped escape (get key md)

unfoldable pub set_album : Text → MetaData → MetaData
set_album = set album_key

unfoldable pub set_artist : Text → MetaData → MetaData
set_artist = set artist_key

unfoldable pub set_title : Text → MetaData → MetaData
set_title = set title_key

unfoldable pub set_track_id : Text → MetaData → MetaData
set_track_id = set track_id_key

unfoldable pub set_track_length : Text → MetaData → MetaData
set_track_length = set length_key

unfoldable pub set_art_url : Text → MetaData → MetaData
set_art_url = set art_url_key

unfoldable pub set_last_used : Text → MetaData → MetaData
set_last_used = set last_used_key
