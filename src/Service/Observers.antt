-- ===== src/Service/Observers.antt =====
-- `ServiceImplementation`'s constructor: what each observed change does.
use media_hub.Prelude.{Bool, true, false, [], ◌∷◌, ◌++◌}
use media_hub.PlayerStore.{PlayerKey}
use media_hub.Service.State.{Controls, State, OutputState, Call}
use media_hub.Service.Pausing.{
  pause_other_sessions, pause_all_multimedia_sessions, resume_paused_multimedia_sessions,
  resume_multimedia_session, client_disconnected,
}

-- `power::Level`.
pub data Level : Type 0 where
  unknown ok low very_low critical : Level

-- `telephony::CallMonitor::State`.
pub data CallState : Type 0 where
  off_hook on_hook : CallState

pub data RecordingState : Type 0 where
  stopped started : RecordingState

pub data Event : Type 0 where
  battery_level : Level → Event
  warning_active : Bool → Event
  output : OutputState → Event
  call_state : CallState → Event
  recording : RecordingState → Event
  disconnected : PlayerKey → Event
  started_playing : PlayerKey → Event  -- a player asks to pause the others

unfoldable pub on_battery_level : Controls → Level → State → State
on_battery_level c Level.low s = pause_all_multimedia_sessions c false s
on_battery_level c Level.very_low s = pause_all_multimedia_sessions c false s
on_battery_level c _ s = s

unfoldable pub on_warning_active : Controls → Bool → State → State
on_warning_active c true s = s
on_warning_active c false s = resume_multimedia_session c s

abbrev pub pause_for_output : Controls → OutputState → State → State
pause_for_output c OutputState.speaker s = pause_all_multimedia_sessions c false s
pause_for_output c _ s = s

unfoldable pub on_output : Controls → OutputState → State → State
on_output c o s = record (pause_for_output c o s) { audio_output_state = o }

unfoldable pub on_call_state : Controls → CallState → State → State
on_call_state c CallState.off_hook s = pause_all_multimedia_sessions c true s
on_call_state c CallState.on_hook s = resume_paused_multimedia_sessions c false s

abbrev pub call : Call → State → State
call x s = record s { calls = s.calls ++ x ∷ [] }

unfoldable pub on_recording : Controls → RecordingState → State → State
on_recording c RecordingState.started s =
    pause_all_multimedia_sessions c false (call Call.acquire_display s)
on_recording c RecordingState.stopped s = call Call.release_display s

unfoldable pub step : Controls → Event → State → State
unfolding on_battery_level on_warning_active on_output on_call_state on_recording
step c (Event.battery_level l) s = on_battery_level c l s
step c (Event.warning_active b) s = on_warning_active c b s
step c (Event.output o) s = on_output c o s
step c (Event.call_state x) s = on_call_state c x s
step c (Event.recording r) s = on_recording c r s
step c (Event.disconnected k) s = client_disconnected k s
step c (Event.started_playing k) s = pause_other_sessions c k s
