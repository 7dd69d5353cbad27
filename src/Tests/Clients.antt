-- ===== src/Tests/Clients.antt =====
-- A player with two tracks at concrete inputs.
use media_hub.Prelude.{◌≡◌, ◌≢◌, refl, true, false, ◌&&◌, ◌⊎◌, some, none, [], ◌∷◌, Text, codes}
use media_hub.Media.{EngineState, AudioStreamRole}
use media_hub.Engine
use media_hub.Apparmor.Uri.{has_newline}
use media_hub.Apparmor.Context.{Context}
use media_hub.UriCheck.{Glib, empty_check, is_valid_uri, set}
use media_hub.TrackList.State.{TrackId, null}
use media_hub.TrackList.Next.{forward}
use media_hub.TrackList.Permitted.{allows}
use media_hub.Player.Glue.{Player, Pipeline}
use media_hub.Player.Actions.{next, open_uri_extended, on_about_to_finish}
use media_hub.Player.Advancing.{IsAdvanced, on_about_to_finish_correct}
use media_hub.Player.Opening.{IsOpened}
use media_hub.Player.Skipping.{IsSkipped, next_correct}
use media_hub.Player.Leaving.{sounding, open_uri_extended-undefined}
use media_hub.Player.Requests.{OpenReply, Opened, handle_open_uri}
use media_hub.Player.Permitted.{IsRefusal, open_request_correct}
use media_hub.Tests.Fixtures.{plain, id0, id1}

abbrev song : Text
song = codes "http://a/b"

-- The pipeline accepts all.
abbrev pub willing : Pipeline
willing = record { plays = true; stops = true }

abbrev pub two : Player
two = record {
  list = record plain { meta_data_cache = (id0, (song, [])) ∷ [] };
  engine = record { state = EngineState.playing; output = [] };
  wakelocks = sounding 0 [] [];
  audio_stream_role = AudioStreamRole.multimedia;
  has_service = true;
  doing_abandon = false;
  doing_go_to_track = false;
  opened = [];
  can_play = true;
  can_pause = true;
  can_go_previous = true;
  can_go_next = true;
  output = [];
}

on_about_to_finish_correct_example :
    (t : Player) × (on_about_to_finish willing two ≡ some t)
    × IsAdvanced two 0 id1 (forward two.list.loop_status 2 0) t
    × (t.engine ≡ Engine.on_about_to_finish two.engine)
    × (t.doing_go_to_track ≡ false)
on_about_to_finish_correct_example =
    on_about_to_finish_correct willing two 0 id1 refl refl refl refl refl

next_correct_example :
    (x : TrackId) × ((t : Player) × (next willing two ≡ some (x, t))
      × IsSkipped willing two 0 (forward two.list.loop_status 2 0) t)
next_correct_example = next_correct willing two 0 id1 refl refl refl refl

song-filled : song ≢ []
song-filled e = cc

abbrev idle : Player
idle = record two { list = record plain { tracks = []; current_track = null } }

open_uri_extended-undefined_example :
    on_about_to_finish willing (open_uri_extended song idle).1 ≡ none
open_uri_extended-undefined_example =
    open_uri_extended-undefined willing song idle refl refl refl refl

song-one_line : has_newline song ≡ false
unfolding has_newline
song-one_line = refl

abbrev music : Context
music = record {
  name = codes "com.ubuntu.music_music_1";
  is_unconfined = false;
  is_unity = false;
  has_package_name = true;
  groups = some (codes "com.ubuntu.music", codes "music");
  package_name = codes "com.ubuntu.music";
}

abbrev glib : Glib
glib = record {
  uri_unescape_string = λ t. some t;
  uri_parse_scheme = λ t. some (codes "http");
  has_file_info = λ t. false;
}

open_request_correct_example :
    let l = set glib song empty_check in
    ((is_valid_uri l && allows music song ≡ false)
      × (r : OpenReply) × IsRefusal r
      × (handle_open_uri willing glib music song empty_check two ≡ Opened.answered l r two))
    ⊎ ((is_valid_uri l && allows music song ≡ true)
        × (t : Player) × (handle_open_uri willing glib music song empty_check two
            ≡ Opened.answered l (OpenReply.result true) t)
        × IsOpened song two t)
open_request_correct_example =
    open_request_correct willing glib music song empty_check two song-one_line song-filled
