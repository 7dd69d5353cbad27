-- ===== src/Apparmor/Authenticator.antt =====
-- `ExistingAuthenticator::authenticate_open_uri_request`.
use media_hub.Prelude.{
  Bool, true, false, ◌&&◌, ◌||◌, Option, none, some, ◌++◌, Text, codes, text_eq, contains,
  if◌then◌else◌,
}
use media_hub.Apparmor.Uri.{Uri, parse_uri}
use media_hub.Apparmor.Context.{
  Context, profile_name, unity_name, unity8_snap_name, mediaplayer_snap_name, music_snap_name,
  messaging_app,
}

-- All confined apps can access their own files.
abbrev pub in_own_directory : Context → Uri → Bool
in_own_directory c u =
    contains (codes ".local/share/" ++ (c.package_name ++ codes "/")) u.path
    || contains (codes ".cache/" ++ (c.package_name ++ codes "/")) u.path

abbrev pub in_messaging_directory : Context → Uri → Bool
in_messaging_directory c u =
    text_eq (profile_name c) messaging_app
    && (contains (codes ".local/share/com.ubuntu." ++ (profile_name c ++ codes "/")) u.path
        || contains (codes ".cache/com.ubuntu." ++ (profile_name c ++ codes "/")) u.path)

abbrev pub in_own_opt : Context → Uri → Bool
in_own_opt c u = contains (codes "opt/click.ubuntu.com/") u.path && contains c.package_name u.path

abbrev pub is_camera_sound : Context → Uri → Bool
is_camera_sound c u =
    (contains (codes "/system/media/audio/ui/") u.path
      || contains (codes "/android/system/media/audio/ui/") u.path)
    && text_eq c.package_name (codes "com.ubuntu.camera")

-- The clients that may open the user's music and videos.
abbrev pub is_media_client : Context → Bool
is_media_client c =
    text_eq c.package_name (codes "com.ubuntu.music")
    || text_eq c.package_name (codes "com.ubuntu.gallery")
    || text_eq (profile_name c) unity_name
    || text_eq (profile_name c) unity8_snap_name
    || text_eq (profile_name c) mediaplayer_snap_name
    || text_eq (profile_name c) music_snap_name

abbrev pub in_media_directory : Uri → Bool
in_media_directory u =
    contains (codes "Music/") u.path
    || contains (codes "Videos/") u.path
    || contains (codes "/media") u.path

abbrev pub is_system_sound : Uri → Bool
is_system_sound u = contains (codes "/usr/share/sounds") u.path

abbrev pub is_streaming : Uri → Bool
is_streaming u =
    text_eq u.scheme (codes "http")
    || text_eq u.scheme (codes "https")
    || text_eq u.scheme (codes "rtsp")

-- Why a request is answered as it is; all but the last allow it.
pub data Verdict : Type 0 where
  is_unconfined own_directory messaging_directory own_opt : Verdict
  camera_sound media_directory system_sound streaming : Verdict
  not_allowed : Verdict

unfoldable pub judge : Context → Uri → Verdict
judge c u =
    if in_own_directory c u
    then Verdict.own_directory
    else if in_messaging_directory c u
    then Verdict.messaging_directory
    else if in_own_opt c u
    then Verdict.own_opt
    else if is_camera_sound c u
    then Verdict.camera_sound
    else if is_media_client c && in_media_directory u
    then Verdict.media_directory
    else if is_system_sound u
    then Verdict.system_sound
    else if is_streaming u
    then Verdict.streaming
    else Verdict.not_allowed

abbrev judge_parsed : Context → Option Uri → Option Verdict
judge_parsed c none = none
judge_parsed c (some u) = some (judge c u)

-- `none` where the uri does not parse, and the code throws.
unfoldable pub authenticate : Context → Text → Option Verdict
authenticate c uri =
    if c.is_unconfined then some Verdict.is_unconfined else judge_parsed c (parse_uri uri)

-- `std::get<0>` of the result.
abbrev pub is_allowed : Verdict → Bool
is_allowed Verdict.not_allowed = false
is_allowed _ = true
