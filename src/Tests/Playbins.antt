-- ===== src/Tests/Playbins.antt =====
-- The playbin at concrete inputs.
use media_hub.Prelude.{
  ◌≡◌, ◌<◌, refl, true, false, Option, none, some, List, [], ◌∷◌, Text, codes, arith, starts_with,
  if◌then◌else◌,
}
use media_hub.Prelude.Int.{ℤ, pos}
use media_hub.Media.{Lifetime}
use media_hub.Engine.{GstState}
use media_hub.UriCheck.{Glib}
use media_hub.Playbin.State.{MediaFileType, Backend, StateChange, Output, State, minus_one}
use media_hub.Playbin.Uris.{Gio}
use media_hub.Playbin.Position.{position, duration, seek}
use media_hub.Playbin.Change.{Caps, set_state_and_wait}
use media_hub.Playbin.Messages.{Message, on_new_message_async, connect_to_consumer}
use media_hub.Playbin.Seeking.{Event, message, asked, happen_all, seek_holds_position}
use media_hub.Playbin.Sizes.{last_signalled, IsTold, dimensions-IsTold}
use media_hub.Playbin.Pipeline.{reset, reset_pipeline}
use media_hub.Playbin.Position.{can_play_streams}
use media_hub.Playbin.Known.{Arrival, run, any, lacks_audio, lacks_video, last_selected}
use media_hub.Playbin.Messages.{Socket}
use media_hub.Playbin.Streams.{playable, can_play_correct}
use media_hub.Playbin.Sockets.{opened, connect_to_consumer_correct, AfterDeath, reset-AfterDeath}

abbrev fresh : State
fresh = record {
  file_type = MediaFileType.none;
  video_sink = true;
  audio_sink = true;
  is_seeking = false;
  previous_position = 0;
  cached_video_dimensions = record { height = 0; width = 0 };
  request_headers = [];
  player_lifetime = Lifetime.normal;
  is_missing_audio_codec = false;
  is_missing_video_codec = false;
  audio_stream_id = minus_one;
  video_stream_id = minus_one;
  current_new_state = GstState.null;
  key = 1;
  backend = Backend.mir;
  video_sink_name = codes "mirsink";
  sock_consumer = none;
  output = [];
}

-- A minute of music, of which half a minute was played; a seek to its start.
abbrev half : Option ℤ
half = some (pos 30_000_000_000)

abbrev minute : Option ℤ
minute = some (pos 60_000_000_000)

abbrev meanwhile : List Event
meanwhile = asked minute ∷ message (pos 0) minus_one (Message.buffering (pos 5)) ∷ asked minute ∷ []

minute_long : 0 < duration minute
unfolding duration
minute_long = omega arith

seek_holds_position_example :
    (t : State) × (seek true (pos 0) (position half minute fresh).1 ≡ some (true, t))
    × ((position (some (pos 0)) minute (happen_all meanwhile t)).0 ≡ (position half minute fresh).0)
    × ((on_new_message_async (pos 0) minus_one Message.async_done (happen_all meanwhile t)).output
        ≡ Output.on_seeked_to 0 ∷ (happen_all meanwhile t).output)
    × ((position
          (some (pos 0))
          minute
          (on_new_message_async (pos 0) minus_one Message.async_done (happen_all meanwhile t))).0
        ≡ 0)
seek_holds_position_example =
    seek_holds_position half minute true (pos 0) (pos 0) fresh meanwhile minute (pos 0) minus_one
      refl (minute_long, (tt, (minute_long, tt))) minute_long

abbrev caps : Caps
caps = record { width = some (pos 640); height = some (pos 480) }

dimensions-IsTold_example :
    IsTold
      (set_state_and_wait StateChange.async StateChange.success
        (some caps ∷ [])
        GstState.playing
        false
        fresh).1
unfolding last_signalled
dimensions-IsTold_example =
    dimensions-IsTold StateChange.async StateChange.success (some caps ∷ []) GstState.playing false
      fresh refl

-- A file system with one video and one page.
abbrev plain_glib : Glib
plain_glib = record {
  uri_unescape_string = λ t. some t;
  uri_parse_scheme = λ t. none;
  has_file_info = λ t. true;
}

abbrev page : Text
page = codes "p"

abbrev clip : Text
clip = codes "v"

abbrev two_files : Gio
two_files = record {
  glib = plain_glib;
  uri_escape_string = λ t. some t;
  filename_to_uri = λ t. some t;
  fast_content_type =
      λ t. if starts_with page t then some (codes "text/html") else some (codes "video/mp4");
  content_type = λ t. none;
}

-- A missing decoder for video; the pipeline has then chosen an audio stream only.
abbrev news : List Arrival
news =
    record {
      current_audio = minus_one;
      current_video = minus_one;
      message =
          Message.missing_plugin
            (record { kind = codes "decoder"; has_detail = true; mime = some (codes "video/x") });
    }
    ∷ record {
      current_audio = pos 0;
      current_video = minus_one;
      message = Message.state_changed GstState.paused (codes "playbin");
    }
    ∷ []

can_play_correct_example :
    can_play_streams (run news (reset_pipeline fresh))
    ≡ playable (record {
      missing_audio = any lacks_audio news;
      missing_video = any lacks_video news;
      audio = last_selected (λ a. a.current_audio) news minus_one;
      video = last_selected (λ a. a.current_video) news minus_one;
    })
can_play_correct_example = can_play_correct news fresh

-- Another socket is held, and the new one cannot be connected.
abbrev refused : Socket
refused = record { descriptor = some 7; binds = λ t. true; connects = λ t. false }

abbrev linked : State
linked = record fresh { sock_consumer = some 6 }

connect_to_consumer_correct_example :
    (opened (connect_to_consumer refused linked).1 ≡ 7 ∷ opened linked)
    × ((connect_to_consumer refused linked).1.sock_consumer
        ≡ (if (connect_to_consumer refused linked).0 then some 7 else none))
connect_to_consumer_correct_example = connect_to_consumer_correct refused linked

reset-AfterDeath_example : AfterDeath Lifetime.normal linked (reset linked)
reset-AfterDeath_example = reset-AfterDeath linked
