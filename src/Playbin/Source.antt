-- ===== src/Playbin/Source.antt =====
-- The uri of a Playbin and the headers of its source.
use media_hub.Prelude.{
  Bool, ◌&&◌, Option, List, [], ◌∷◌, Text, codes, lookup, text_dec, if◌then◌else◌, ◌==◌,
}
use media_hub.Playbin.State.{MediaFileType, Output, State, put_out}
use media_hub.Playbin.Uris.{
  Gio, new_check, encode_uri, decode_uri, is_audio_file, is_video_file, text_or_empty,
}
use media_hub.Playbin.Pipeline.{reset_pipeline}

-- `has_current`: whether the pipeline has a current uri.
unfoldable pub prepare_uri : Gio → Text → Text
unfolding encode_uri decode_uri new_check
prepare_uri g uri =
    let check = new_check g uri in
    if check.is_local_file
    then encode_uri g (if check.is_encoded then decode_uri g uri else uri)
    else uri

unfoldable pub file_type_of : Gio → Text → MediaFileType → MediaFileType
file_type_of g uri old =
    if is_video_file g uri
    then MediaFileType.video
    else if is_audio_file g uri
    then MediaFileType.audio
    else old

unfoldable pub set_uri : Gio → Bool → Text → List (Text × Text) → Bool → State → State
unfolding reset_pipeline prepare_uri file_type_of
set_uri g has_current uri headers do_pipeline_reset s =
    let t = if has_current && do_pipeline_reset then reset_pipeline s else s in
    let tmp_uri = prepare_uri g uri in
    record (put_out (Output.set_pipeline_uri tmp_uri) t) {
      file_type = file_type_of g tmp_uri t.file_type;
      request_headers = headers;
    }

-- `g_strsplit(text, ";", 0)`: no piece of the empty text.
split_pieces : Text → List Text
split_pieces [] = [] ∷ []
split_pieces (c ∷ cs) = elim (split_pieces cs) [
  | [] ↦ []
  | p ∷ ps ↦ if c == b';' then [] ∷ p ∷ ps else (c ∷ p) ∷ ps
]

unfoldable pub split_cookies : Text → List Text
unfolding split_pieces
split_cookies [] = []
split_cookies (c ∷ cs) = split_pieces (c ∷ cs)

-- The source element's properties that can be set.
abbrev set_header : Option Text → Bool → (Text → Output) → State → State
set_header Option.none has f s = s
set_header (Option.some t) has f s = if has then put_out (f t) s else s

unfoldable pub setup_source : Bool → Bool → State → State
unfolding split_cookies
setup_source has_cookies has_user_agent s =
    set_header (lookup text_dec (codes "User-Agent") s.request_headers) has_user_agent
      Output.set_user_agent
      (set_header (lookup text_dec (codes "Cookie") s.request_headers) has_cookies
        (λ t. Output.set_cookies (split_cookies t)) s)

unfoldable pub uri : Option Text → Text
uri current_uri = text_or_empty current_uri
