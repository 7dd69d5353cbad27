-- ===== src/Playbin/Types.antt =====
-- The type that a Playbin has of its file.
use media_hub.Prelude.{◌≡◌, Bool, true, false, List, Text, arith}
use media_hub.Playbin.State.{MediaFileType, State}
use media_hub.Playbin.Uris.{Gio, is_video_file, is_audio_file}
use media_hub.Playbin.Source.{set_uri, prepare_uri, file_type_of}

-- Opening a video and then, without a reset of the pipeline in between, a uri whose content is neither video nor audio leaves the
-- playbin with the type of the video.
pub file_type-stale :
    (g : Gio) (video page : Text) (headers others : List (Text × Text)) (s : State)
    (current again reset : Bool)
    → is_video_file g (prepare_uri g video) ≡ true
    → is_video_file g (prepare_uri g page) ≡ false
    → is_audio_file g (prepare_uri g page) ≡ false
    → (set_uri g again page others false (set_uri g current video headers reset s)).file_type
      ≡ MediaFileType.video
unfolding set_uri file_type_of
file_type-stale g video page headers others s current again reset v nv na = ground arith
