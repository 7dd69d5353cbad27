-- ===== src/Playbin/Uris.antt =====
-- Uris and content types: `encode_uri`, `decode_uri`, `file_info_from_uri` and the file tests.
use media_hub.Prelude.{
  Bool, false, Option, none, some, [], ◌∷◌, Text, codes, text_eq, starts_with, if◌then◌else◌,
  length, ltb,
}
use media_hub.UriCheck.{Glib, UriCheck, empty_check, set}

-- What the code asks GLib and GIO, besides what UriCheck asks.
pub record Gio : Type 0 where
  pub glib : Glib
  pub uri_escape_string : Text → Option Text  -- the reserved characters and UTF-8 allowed
  pub filename_to_uri : Text → Option Text
  pub fast_content_type : Text → Option Text  -- none without a GFileInfo
  pub content_type : Text → Option Text

-- `std::make_shared<UriCheck>(uri)`.
unfoldable pub new_check : Gio → Text → UriCheck
new_check g uri = set g.glib uri empty_check

abbrev pub text_or_empty : Option Text → Text
text_or_empty none = []
text_or_empty (some t) = t

-- A scheme that is not empty.
unfoldable pub has_scheme : Gio → Text → Bool
has_scheme g uri = ltb 0 (length (text_or_empty (g.glib.uri_parse_scheme uri)))

abbrev pub escape : Gio → Option Text → Text
escape g none = []
escape g (some t) = text_or_empty (g.uri_escape_string t)

-- With no result `g_filename_to_uri` has set an error, with one it has not: the test of `error` behind it is not reached.
unfoldable pub encode_uri : Gio → Text → Text
unfolding new_check has_scheme
encode_uri g [] = []
encode_uri g (c ∷ cs) =
    let uri : Text = c ∷ cs in
    if has_scheme g uri
    then (if (new_check g uri).is_encoded then uri else escape g (some uri))
    else escape g (g.filename_to_uri uri)

unfoldable pub decode_uri : Gio → Text → Text
decode_uri g [] = []
decode_uri g (c ∷ cs) = text_or_empty (g.glib.uri_unescape_string (c ∷ cs))

-- The empty text where there is no answer.
unfoldable pub file_info_from_uri : Gio → Text → Text
file_info_from_uri g uri =
    let fast = text_or_empty (g.fast_content_type uri) in
    if text_eq fast (codes "application/octet-stream")
    then text_or_empty (g.content_type uri)
    else fast

abbrev pub type_or_any : Text → Text
type_or_any [] = codes "audio/video/"
type_or_any (c ∷ cs) = c ∷ cs

unfoldable pub get_file_content_type : Gio → Text → Text
get_file_content_type g [] = []
get_file_content_type g (c ∷ cs) = type_or_any (file_info_from_uri g (encode_uri g (c ∷ cs)))

unfoldable pub is_audio_file : Gio → Text → Bool
is_audio_file g [] = false
is_audio_file g (c ∷ cs) = starts_with (codes "audio/") (get_file_content_type g (c ∷ cs))

unfoldable pub is_video_file : Gio → Text → Bool
is_video_file g [] = false
is_video_file g (c ∷ cs) = starts_with (codes "video/") (get_file_content_type g (c ∷ cs))
