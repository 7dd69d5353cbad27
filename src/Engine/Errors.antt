-- ===== src/Engine/Errors.antt =====
-- Which errors reach the player.
use media_hub.Prelude.{
  ◌≡◌, ◌≢◌, refl, ◌⊎◌, inl, inr, false, not, text_eq, text_dec, codes, if◌then◌else◌,
}
use media_hub.Media.{PlayerError}
use media_hub.Engine.{
  GError, StreamCode, GstState, Output, State, put_out, from_gst_error, from_gst_errorwarning,
  on_playbin_error, on_playbin_state_changed, gst_state_to_player_status, is_no_error,
  reset_playbin,
}

-- An error that is reported behind the reset and what its handler does; or no error.
abbrev pub Reports : (State → State) → PlayerError → State → State → Type 0
Reports disconnected e s t =
    ((e ≡ PlayerError.no_error) × (t ≡ s))
    ⊎ ((e ≢ PlayerError.no_error)
        × (t ≡ put_out (Output.error e) (disconnected (put_out Output.reset s))))

reports :
    (disconnected : State → State) (e : PlayerError) (s : State)
    → Reports disconnected e s (
        let t = if not (is_no_error e) then reset_playbin disconnected s else s in
        if not (is_no_error e) then put_out (Output.error e) t else t)
reports disconnected PlayerError.no_error s = inl (refl, refl)
reports disconnected PlayerError.resource_error s = inr ((λ q. cc), refl)
reports disconnected PlayerError.format_error s = inr ((λ q. cc), refl)
reports disconnected PlayerError.network_error s = inr ((λ q. cc), refl)
reports disconnected PlayerError.access_denied_error s = inr ((λ q. cc), refl)
reports disconnected PlayerError.service_missing_error s = inr ((λ q. cc), refl)

-- A message of the pipeline about an error either stands for none and changes nothing, or resets
-- the pipeline, whose client then counts as gone, and then reports the error to the player. Missing
-- codecs are of the first kind; they are reported as a format error, after a reset, when the
-- pipeline comes to a pause with no stream that it can play.
pub errors_reset_and_report :
    (disconnected : State → State) (g : GError) (s : State)
    → Reports disconnected (from_gst_error g) s (on_playbin_error disconnected g s)
      × (on_playbin_error disconnected (GError.stream StreamCode.codec_not_found) s ≡ s)
      × (on_playbin_state_changed disconnected false GstState.paused (codes "playbin") s
          ≡ put_out (Output.error PlayerError.format_error) (disconnected (put_out Output.reset s)))
unfolding on_playbin_error from_gst_errorwarning on_playbin_state_changed gst_state_to_player_status
    from_gst_error text_eq text_dec
errors_reset_and_report disconnected g s = (reports disconnected (from_gst_error g) s, refl, refl)
