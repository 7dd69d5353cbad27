-- ===== src/UriCheck.antt =====
-- `UriCheck`: src/core/media/util/uri_check.h. GLib's functions are parameters.
use media_hub.Prelude.{
  Bool, true, false, not, ◌&&◌, ◌||◌, Option, none, some, [], ◌∷◌, Text, codes, text_eq, length,
  ltb, if◌then◌else◌, ◌==◌,
}

-- What the class asks GLib.
pub record Glib : Type 0 where
  pub uri_unescape_string : Text → Option Text
  pub uri_parse_scheme : Text → Option Text
  pub has_file_info : Text → Bool  -- whether g_file_query_info gives an answer without an error

pub record UriCheck : Type 0 where
  pub uri : Text
  pub is_encoded : Bool
  pub is_local_file : Bool
  pub file_exists : Bool

abbrev pub empty_check : UriCheck
empty_check = record { uri = []; is_encoded = false; is_local_file = false; file_exists = false }

abbrev shorter : Text → Option Text → Bool
shorter uri none = false
shorter uri (some t) = ltb (length t) (length uri)

unfoldable pub determine_if_encoded : Glib → Text → Bool
determine_if_encoded g [] = false
determine_if_encoded g (c ∷ cs) = shorter (c ∷ cs) (g.uri_unescape_string (c ∷ cs))

abbrev scheme_or_empty : Option Text → Text
scheme_or_empty none = []
scheme_or_empty (some t) = t

-- `uri_.at(1)` throws where the uri is ".", and the code then answers no.
unfoldable pub determine_if_local_file : Glib → Text → Bool
determine_if_local_file g [] = false
determine_if_local_file g (c ∷ []) =
    if c == b'/'
    then true
    else if c == b'.'
    then false
    else text_eq (scheme_or_empty (g.uri_parse_scheme (c ∷ []))) (codes "file")
determine_if_local_file g (c ∷ d ∷ cs) =
    c == b'/'
    || c == b'.' && d == b'/'
    || text_eq (scheme_or_empty (g.uri_parse_scheme (c ∷ d ∷ cs))) (codes "file")

unfoldable pub determine_if_file_exists : Glib → Bool → Text → Bool
determine_if_file_exists g is_local uri = if not is_local then false else g.has_file_info uri

unfoldable pub set : Glib → Text → UriCheck → UriCheck
set g [] k = k
set g (c ∷ cs) k =
    let is_local = determine_if_local_file g (c ∷ cs) in
    record {
      uri = c ∷ cs;
      is_encoded = determine_if_encoded g (c ∷ cs);
      is_local_file = is_local;
      file_exists = determine_if_file_exists g is_local (c ∷ cs);
    }

abbrev pub clear : UriCheck → UriCheck
clear k = record k { uri = [] }

-- The test of the track list's requests.
abbrev pub is_valid_uri : UriCheck → Bool
is_valid_uri k = not k.is_local_file || k.is_local_file && k.file_exists
