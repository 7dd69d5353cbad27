-- ===== src/Tests/Access.antt =====
-- Uris and profile names at concrete inputs.
use media_hub.Prelude.{
  ◌≡◌, ◌≢◌, refl, true, false, ◌&&◌, some, none, [], ◌∷◌, ◌++◌, Text, codes, arith, insert_at,
  if◌then◌else◌, ◌⊎◌, inr,
}
use media_hub.Apparmor.Uri.{Uri, parse_uri, has_newline}
use media_hub.Apparmor.Context.{Context}
use media_hub.Apparmor.Authenticator.{Verdict, authenticate, is_allowed}
use media_hub.Apparmor.Policy.{Decides, Permits, authenticate_policy}
use media_hub.UriCheck.{Glib, UriCheck, empty_check, is_valid_uri, set}
use media_hub.TrackList.State.{State, done, ◌>>◌, pure}
use media_hub.TrackList.Cursor.{find_track}
use media_hub.TrackList.Editing.{add_tracks_with_uri_at, new_id, query_uri_for_track}
use media_hub.TrackList.Invariant.{IsValid}
use media_hub.TrackList.Current.{IsCurrent}
use media_hub.TrackList.Requests.{
  Reply, Handled, handle_add_track_with_uri_at, handle_add_tracks_with_uri_at,
}
use media_hub.TrackList.Permitted.{add_tracks_or_refuse, add_request_correct, allows, allows_all}
use media_hub.Tests.Fixtures.{plain, plain-IsValid, id1}

abbrev stream : Text
stream = codes "http://a/b"

stream-one_line : has_newline stream ≡ false
unfolding has_newline
stream-one_line = refl

-- The music app's context.
abbrev music : Context
music = record {
  name = codes "com.ubuntu.music_music_1";
  is_unconfined = false;
  is_unity = false;
  has_package_name = true;
  groups = some (codes "com.ubuntu.music", codes "music");
  package_name = codes "com.ubuntu.music";
}

abbrev glib : Glib
glib = record {
  uri_unescape_string = λ t. some t;
  uri_parse_scheme = λ t. none;
  has_file_info = λ t. false;
}

authenticate_policy_example :
    (u : Uri) × ((v : Verdict) × ((parse_uri stream ≡ some u)
        × (authenticate music stream ≡ some v)
        × Decides (is_allowed v) ((music.is_unconfined ≡ true) ⊎ Permits music u)))
authenticate_policy_example = authenticate_policy music stream stream-one_line

abbrev app_id : Text
app_id = (codes "p" ++ b'_' ∷ codes "a") ++ b'_' ∷ codes "1"

app_id-one_line : has_newline app_id ≡ false
unfolding has_newline
app_id-one_line = refl

add_tracks_or_refuse_example :
    (l : UriCheck) × (handle_add_tracks_with_uri_at glib music
        (stream ∷ stream ∷ [])
        []
        empty_check
        plain
      ≡ Handled.answered l (
          if allows_all music (stream ∷ stream ∷ [])
          then (do add_tracks_with_uri_at (stream ∷ stream ∷ []) []; pure Reply.ok) plain
          else done Reply.insufficient_permissions plain))
add_tracks_or_refuse_example =
    add_tracks_or_refuse glib music stream (stream ∷ []) [] empty_check plain
      (stream-one_line, (stream-one_line, tt))

add_request_correct_example :
    let l = set glib stream empty_check in
    ((is_valid_uri l && allows music stream ≡ false)
      × (r : Reply) × (r ≢ Reply.ok)
      × (handle_add_track_with_uri_at glib music stream [] true empty_check plain
          ≡ Handled.answered l (done r plain)))
    ⊎ ((is_valid_uri l && allows music stream ≡ true)
        × (t : State) × (handle_add_track_with_uri_at glib music stream [] true empty_check plain
            ≡ Handled.answered l (done Reply.ok t))
        × IsValid t
        × (t.tracks ≡ insert_at plain.tracks (find_track plain []) (new_id plain))
        × (query_uri_for_track t (new_id plain) ≡ stream)
        × IsCurrent t (if true then new_id plain else id1))
add_request_correct_example =
    add_request_correct glib music stream [] id1 true empty_check plain stream-one_line
      plain-IsValid (omega arith) (inr (0, refl, refl))
