-- ===== src/Service/ResumeKey.antt =====
-- The session that `resume_multimedia_session` is to resume.
use media_hub.Prelude.{
  ◌≡◌, refl, ◌∙◌, Bool, true, false, Bool-cases, ◌&&◌, ◌||◌, inl, inr, Option, none, some, List, [],
  ◌∷◌, if◌then◌else◌,
}
use media_hub.PlayerStore.{PlayerKey, PlayerPtr, player_for_key}
use media_hub.Service.State.{
  Controls, State, Call, OutputState, call_play, call_pause, max_key, is_paused, is_normal,
  is_multimedia,
}
use media_hub.Service.Pausing.{
  pause_all_multimedia_sessions, resume_each, resume_paused_multimedia_sessions,
  resume_multimedia_session, pause_each, plays_multimedia, pause_other_sessions,
  client_disconnected, pauses_for, pause_others, resumed, pause_noted, resume_found,
  pause_others_for, end_session, play_session, update_current,
}
use media_hub.Service.Observers.{
  Event, Level, CallState, RecordingState, step, call, on_warning_active, on_battery_level,
  on_output, on_call_state, on_recording,
}

either-resume_key :
    (b : Bool) (t s : State)
    → t.resume_key ≡ s.resume_key
    → (if b then t else s).resume_key ≡ s.resume_key
either-resume_key true t s e = e
either-resume_key false t s e = refl

pause_each-resume_key :
    (c : Controls) (b : Bool) (xs : List (PlayerKey × PlayerPtr)) (s : State)
    → (pause_each c b xs s).resume_key ≡ s.resume_key
unfolding pause_each pause_noted call_pause
pause_each-resume_key c b [] s = refl
pause_each-resume_key c b ((k, p) ∷ rest) s =
    pause_each-resume_key c b rest _
    ∙ either-resume_key (plays_multimedia s.objects p) (pause_noted c b k p s) s refl

pause_others-resume_key :
    (c : Controls) (key : PlayerKey) (cur : PlayerPtr) (xs : List (PlayerKey × PlayerPtr))
    (s : State)
    → (pause_others c key cur xs s).resume_key ≡ s.resume_key
unfolding pause_others call_pause
pause_others-resume_key c key cur [] s = refl
pause_others-resume_key c key cur ((k, p) ∷ rest) s =
    pause_others-resume_key c key cur rest _
    ∙ either-resume_key (pauses_for key cur s k p) (call_pause c p s) s refl

pause_others_for-resume_key :
    (c : Controls) (key : PlayerKey) (s : State) (o : Option PlayerPtr)
    → (pause_others_for c key s o).resume_key ≡ s.resume_key
pause_others_for-resume_key c key s none = refl
pause_others_for-resume_key c key s (some p) = pause_others-resume_key c key p s.store.map s

play_session-resume_key :
    (c : Controls) (k : PlayerKey) (p : PlayerPtr) (s : State)
    → (play_session c k p s).resume_key ≡ s.resume_key
unfolding play_session call_play pause_other_sessions
play_session-resume_key c k p s =
    either-resume_key (is_multimedia (s.objects p).audio_stream_role)
      (update_current k (pause_others_for c k s (player_for_key k s.store))) s
      (pause_others_for-resume_key c k s (player_for_key k s.store))

resumed-resume_key :
    (c : Controls) (v : Bool) (k : PlayerKey) (b : Bool) (s : State) (o : Option PlayerPtr)
    → (resumed c v k b s o).resume_key ≡ s.resume_key
resumed-resume_key c v k b s none = refl
resumed-resume_key c v k b s (some p) =
    either-resume_key ((v || (s.objects p).is_audio_source) && b) (play_session c k p s) s
      (play_session-resume_key c k p s)

resume_each-resume_key :
    (c : Controls) (v : Bool) (xs : List (PlayerKey × Bool)) (s : State)
    → (resume_each c v xs s).resume_key ≡ s.resume_key
unfolding resume_each
resume_each-resume_key c v [] s = refl
resume_each-resume_key c v ((k, b) ∷ rest) s =
    let o = player_for_key k s.store in
    resume_each-resume_key c v rest (resumed c v k b s o) ∙ resumed-resume_key c v k b s o

end_session-resume_key :
    (key : PlayerKey) (s : State) (o : Option PlayerPtr)
    → (end_session key s o).resume_key ≡ s.resume_key
end_session-resume_key key s none = refl
end_session-resume_key key s (some p) = elim (Bool-cases (is_normal (s.objects p).lifetime)) [
  | inl e ↦ rw e refl
  | inr e ↦ rw e refl
]

resume_found-resume_key :
    (c : Controls) (s : State) (o : Option PlayerPtr)
    → s.resume_key ≡ max_key
    → (resume_found c s o).resume_key ≡ max_key
resume_found-resume_key c s none h = h
resume_found-resume_key c s (some p) h =
    elim (Bool-cases (is_paused (s.objects p).playback_status)) [
      | inl e ↦ rw e refl
      | inr e ↦ rw e h
    ]

-- Once the key of the session to resume is the greatest one, as the constructor sets it, it is so
-- after every event; and while no player has that key, the end of a battery warning changes
-- nothing: no session is resumed.
pub resume_key_never_set :
    (c : Controls) (s : State)
    → s.resume_key ≡ max_key
    → ((e : Event) → (step c e s).resume_key ≡ max_key)
      × (player_for_key max_key s.store ≡ none → step c (Event.warning_active false) s ≡ s)
unfolding step on_battery_level on_warning_active on_output on_call_state on_recording
    pause_all_multimedia_sessions resume_paused_multimedia_sessions resume_multimedia_session
    client_disconnected pause_other_sessions
resume_key_never_set c s h = (kept, idle)
  where
    paused :
        (b : Bool) (t : State)
        → t.resume_key ≡ s.resume_key
        → (pause_all_multimedia_sessions c b t).resume_key ≡ max_key
    paused b t e = pause_each-resume_key c b t.store.map t ∙ e ∙ h

    kept : (e : Event) → (step c e s).resume_key ≡ max_key
    kept (Event.battery_level Level.unknown) = h
    kept (Event.battery_level Level.ok) = h
    kept (Event.battery_level Level.low) = paused false s refl
    kept (Event.battery_level Level.very_low) = paused false s refl
    kept (Event.battery_level Level.critical) = h
    kept (Event.warning_active true) = h
    kept (Event.warning_active false) =
        resume_found-resume_key c s (player_for_key s.resume_key s.store) h
    kept (Event.output OutputState.earpiece) = h
    kept (Event.output OutputState.speaker) = paused false s refl
    kept (Event.output OutputState.external) = h
    kept (Event.call_state CallState.off_hook) = paused true s refl
    kept (Event.call_state CallState.on_hook) =
        resume_each-resume_key c false s.paused_sessions s ∙ h
    kept (Event.recording RecordingState.started) = paused false (call Call.acquire_display s) refl
    kept (Event.recording RecordingState.stopped) = h
    kept (Event.disconnected k) = end_session-resume_key k s (player_for_key k s.store) ∙ h
    kept (Event.started_playing k) =
        pause_others_for-resume_key c k s (player_for_key k s.store) ∙ h

    idle : player_for_key max_key s.store ≡ none → step c (Event.warning_active false) s ≡ s
    idle e = rw (h, e) refl
