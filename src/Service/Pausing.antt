-- ===== src/Service/Pausing.antt =====
-- `ServiceImplementation`: pausing and resuming sessions, and the end of one.
use media_hub.Prelude.{
  Bool, not, ◌&&◌, ◌||◌, Option, none, some, List, [], ◌∷◌, ◌++◌, if◌then◌else◌, ◌==◌,
}
use media_hub.PlayerStore.{
  PlayerStore, PlayerKey, PlayerPtr, player_for_key, remove_player_for_key,
  set_current_player_for_key,
}
use media_hub.Service.State.{
  PlayerObject, Controls, State, is_playing, is_paused, is_multimedia, is_normal, call_pause,
  call_play, max_key,
}

-- The four criteria to pause a player for the one at `current_player`.
abbrev pub pauses_for : PlayerKey → PlayerPtr → State → PlayerKey → PlayerPtr → Bool
pauses_for key current_player s other_key other =
    is_playing (s.objects other).playback_status
    && not (other_key == key)
    && is_multimedia (s.objects current_player).audio_stream_role
    && is_multimedia (s.objects other).audio_stream_role

unfoldable pub pause_others :
    Controls → PlayerKey → PlayerPtr → List (PlayerKey × PlayerPtr) → State → State
pause_others c key cur [] s = s
pause_others c key cur ((k, p) ∷ rest) s =
    pause_others c key cur rest (if pauses_for key cur s k p then call_pause c p s else s)

abbrev pub pause_others_for : Controls → PlayerKey → State → Option PlayerPtr → State
pause_others_for c key s none = s
pause_others_for c key s (some cur) = pause_others c key cur s.store.map s

unfoldable pub pause_other_sessions : Controls → PlayerKey → State → State
pause_other_sessions c key s = pause_others_for c key s (player_for_key key s.store)

abbrev pub keep_store : PlayerStore → Option PlayerStore → PlayerStore
keep_store old none = old
keep_store old (some new) = new

-- `update_current_player`, as far as the store goes; a key that the store does not know throws, and is known here.
abbrev pub update_current : PlayerKey → State → State
update_current key s = record s {
  store = keep_store s.store (set_current_player_for_key key s.store);
}

-- `play()` of the player with a key: one of the multimedia role first pauses the others and becomes the current player.
unfoldable pub play_session : Controls → PlayerKey → PlayerPtr → State → State
unfolding call_play pause_other_sessions
play_session c key p s = call_play c p (
    if is_multimedia (s.objects p).audio_stream_role
    then update_current key (pause_other_sessions c key s)
    else s)

-- Whether a multimedia player is playing.
abbrev pub plays_multimedia : (PlayerPtr → PlayerObject) → PlayerPtr → Bool
plays_multimedia objects p =
    is_playing (objects p).playback_status && is_multimedia (objects p).audio_stream_role

unfoldable pub pause_noted : Controls → Bool → PlayerKey → PlayerPtr → State → State
pause_noted c resume k p s =
    call_pause c p (record s { paused_sessions = s.paused_sessions ++ (k, resume) ∷ [] })

unfoldable pub pause_each : Controls → Bool → List (PlayerKey × PlayerPtr) → State → State
pause_each c resume [] s = s
pause_each c resume ((k, p) ∷ rest) s =
    pause_each c resume rest
      (if plays_multimedia s.objects p then pause_noted c resume k p s else s)

unfoldable pub pause_all_multimedia_sessions : Controls → Bool → State → State
pause_all_multimedia_sessions c resume s = pause_each c resume s.store.map s

-- A key without a player is passed over.
abbrev pub resumed : Controls → Bool → PlayerKey → Bool → State → Option PlayerPtr → State
resumed c video k after_call s none = s
resumed c video k after_call s (some p) =
    if (video || (s.objects p).is_audio_source) && after_call then play_session c k p s else s

unfoldable pub resume_each : Controls → Bool → List (PlayerKey × Bool) → State → State
resume_each c video [] s = s
resume_each c video ((k, after_call) ∷ rest) s =
    resume_each c video rest (resumed c video k after_call s (player_for_key k s.store))

unfoldable pub resume_paused_multimedia_sessions : Controls → Bool → State → State
resume_paused_multimedia_sessions c video s = record (resume_each c video s.paused_sessions s) {
  paused_sessions = [];
}

abbrev pub resume_found : Controls → State → Option PlayerPtr → State
resume_found c s none = s
resume_found c s (some p) =
    if is_paused (s.objects p).playback_status
    then record (play_session c s.resume_key p s) { resume_key = max_key }
    else s

unfoldable pub resume_multimedia_session : Controls → State → State
resume_multimedia_session c s = resume_found c s (player_for_key s.resume_key s.store)

abbrev pub end_session : PlayerKey → State → Option PlayerPtr → State
end_session key s none = s
end_session key s (some p) =
    if is_normal (s.objects p).lifetime
    then record s { store = remove_player_for_key key s.store }
    else s

-- What the player's `on_client_disconnected` posts.
unfoldable pub client_disconnected : PlayerKey → State → State
client_disconnected key s = end_session key s (player_for_key key s.store)
