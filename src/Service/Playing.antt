-- ===== src/Service/Playing.antt =====
-- A player that starts to play: `play()` of src/core/media/player_implementation.cpp.
use media_hub.Prelude.{
  ◌≡◌, ◌⊎◌, refl, ap, ◌∙◌, true, Bool-cases, inl, inr, some, List, [], ◌∷◌, ◌++◌, All, arith, ◌==◌,
}
use media_hub.Media.{AudioStreamRole}
use media_hub.PlayerStore.{
  PlayerStore, PlayerKey, PlayerPtr, player_for_key, set_current_player_for_key,
}
use media_hub.Service.State.{
  PlayerObject, Controls, State, Call, call_play, set_object, is_multimedia,
}
use media_hub.Service.Pausing.{play_session, pause_other_sessions, update_current}
use media_hub.Service.Exclusive.{IsPausing, IsQuiet, pause_other_sessions_correct}

-- Quiet, or a session of the player itself.
abbrev pub IsBeside :
    PlayerKey → PlayerPtr → (PlayerPtr → PlayerObject) → PlayerKey × PlayerPtr → Type 0
IsBeside key p objects e = (e.1 ≡ p) ⊎ IsQuiet key objects e

beside :
    (key : PlayerKey) (p : PlayerPtr) (o : PlayerObject) (h : PlayerPtr → PlayerObject)
    (k : PlayerKey) (q : PlayerPtr)
    → IsQuiet key h (k, q)
    → IsBeside key p (set_object p o h) (k, q)
beside key p o h k q z = elim (Bool-cases (q == p)) [
  | inl same ↦ inl (ground arith)
  | inr other ↦ rw other (inr z)
]

IsBeside-All :
    (key : PlayerKey) (p : PlayerPtr) (o : PlayerObject) (h : PlayerPtr → PlayerObject)
    (xs : List (PlayerKey × PlayerPtr))
    → All (IsQuiet key h) xs
    → All (IsBeside key p (set_object p o h)) xs
IsBeside-All key p o h [] a = tt
IsBeside-All key p o h ((k, q) ∷ xs) (a, r) = (beside key p o h k q a, IsBeside-All key p o h xs r)

abbrev put_current : PlayerPtr → PlayerStore → PlayerStore
put_current p st = record st { current_player = some p }

stored :
    (key : PlayerKey) (p : PlayerPtr) (u : State)
    → player_for_key key u.store ≡ some p
    → (update_current key u).store ≡ record u.store { current_player = some p }
unfolding set_current_player_for_key
stored key p u known = rw known refl

-- If a pause leaves a player that does not play, in its old role, then the start of a known player of the multimedia role makes it the current player and starts it behind the pauses, and every session of another key and another player is then not of that role or does not play.
pub play_session_correct :
    (c : Controls)
    → IsPausing c
    → (key : PlayerKey) (p : PlayerPtr) (s : State) → player_for_key key s.store ≡ some p
    → (s.objects p).audio_stream_role ≡ AudioStreamRole.multimedia
    → let t = play_session c key p s in
      let u = pause_other_sessions c key s in
      All (IsBeside key p t.objects) s.store.map
      × (t.objects p ≡ c.on_play (u.objects p))
      × (t.store ≡ record s.store { current_player = some p })
      × (t.calls ≡ u.calls ++ Call.play p ∷ [])
unfolding play_session call_play
play_session_correct c h key p s known m =
    let u = pause_other_sessions c key s in
    let (quiet, _, same) = pause_other_sessions_correct c h key p s known m in
    let role : is_multimedia (s.objects p).audio_stream_role ≡ true = ap is_multimedia m in
    rw role (
      IsBeside-All key p (c.on_play (u.objects p)) u.objects s.store.map quiet,
      ground arith,
      stored key p u (ap (player_for_key key) same ∙ known) ∙ ap (put_current p) same,
      refl,
    )
