-- ===== src/Tests/Engines.antt =====
-- An engine and its player at concrete inputs: an error of a missing plugin while a song plays.
use media_hub.Prelude.{◌≡◌, ◌≢◌, ◌⊎◌, false, some, [], codes}
use media_hub.Media.{PlayerError}
use media_hub.Engine.{
  GError, CoreCode, GstState, Output, from_gst_error, on_playbin_error, on_playbin_state_changed,
  put_out,
}
use media_hub.Player.Glue.{Player}
use media_hub.Player.Actions.{on_client_disconnected}
use media_hub.Player.Failing.{handled, failed, playbin_errors_correct}
use media_hub.Tests.Clients.{two, willing}

playbin_errors_correct_example :
    let g = GError.core CoreCode.missing_plugin in
    (((from_gst_error g ≡ PlayerError.no_error)
        × (on_playbin_error (handled willing false two) g two.engine ≡ two.engine))
      ⊎ ((from_gst_error g ≢ PlayerError.no_error)
          × (on_playbin_error (handled willing false two) g two.engine
              ≡ failed willing (from_gst_error g) two.engine)))
    × (on_playbin_state_changed
          (handled willing false two)
          false
          GstState.paused
          (codes "playbin")
          two.engine
        ≡ failed willing PlayerError.format_error two.engine)
    × ((t : Player) × ((on_client_disconnected willing false
              (record two { engine = put_out Output.reset two.engine })
            ≡ some t)
          × (t.list.tracks ≡ [])))
playbin_errors_correct_example =
    playbin_errors_correct willing false (GError.core CoreCode.missing_plugin) two
