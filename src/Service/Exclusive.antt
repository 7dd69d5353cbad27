-- ===== src/Service/Exclusive.antt =====
-- `pause_other_sessions` of src/core/media/service_implementation.cpp, and the sessions behind it.
use media_hub.Prelude.{
  ◌≡◌, ◌≢◌, ◌⊎◌, refl, ap, true, subst, ◌∙◌, false, Bool-cases, inl, inr, some, List, [], ◌∷◌, All,
  arith, if◌then◌else◌, ◌==◌,
}
use media_hub.Media.{PlaybackStatus, AudioStreamRole}
use media_hub.PlayerStore.{PlayerKey, PlayerPtr, player_for_key}
use media_hub.Service.State.{PlayerObject, Controls, State, is_playing, is_multimedia, call_pause}
use media_hub.Service.Pausing.{pauses_for, pause_others, pause_other_sessions}

-- A pause leaves a player that does not play, in its old role.
abbrev pub IsPausing : Controls → Type 0
IsPausing c =
    (o : PlayerObject)
    → (is_playing (c.on_pause o).playback_status ≡ false)
      × ((c.on_pause o).audio_stream_role ≡ o.audio_stream_role)

-- A session of another key that is of another role or does not play.
abbrev pub IsQuiet : PlayerKey → (PlayerPtr → PlayerObject) → PlayerKey × PlayerPtr → Type 0
IsQuiet key objects e =
    (e.0 ≡ key)
    ⊎ (((objects e.1).audio_stream_role ≢ AudioStreamRole.multimedia)
        ⊎ ((objects e.1).playback_status ≢ PlaybackStatus.playing))

module _ (c : Controls) (h : IsPausing c) (key : PlayerKey) (cur : PlayerPtr) where
  paused_here :
      (s : State) (k : PlayerKey) (p : PlayerPtr)
      → pauses_for key cur (call_pause c p s) k p ≡ false
  unfolding call_pause
  paused_here s k p = let q = (h (s.objects p)).0 in ground arith

  role_kept :
      (s : State) (q p : PlayerPtr)
      → ((call_pause c q s).objects p).audio_stream_role ≡ (s.objects p).audio_stream_role
  unfolding call_pause
  role_kept s q p =
      let e = (h (s.objects q)).1 in
      elim (Bool-cases (p == q)) [
        | inl same ↦ let i : p ≡ q = ground arith in ground (arith, e, i)
        | inr other ↦ ground (arith, other)
      ]

  other_kept :
      (s : State) (q p : PlayerPtr) → (p == q) ≡ false → (call_pause c q s).objects p ≡ s.objects p
  unfolding call_pause
  other_kept s q p e = ground (arith, e)

  stays :
      (s : State) (k : PlayerKey) (q p : PlayerPtr)
      → pauses_for key cur s k p ≡ false
      → pauses_for key cur (call_pause c q s) k p ≡ false
  stays s k q p e = elim (Bool-cases (p == q)) [
    | inl same ↦
        let i : p ≡ q = ground arith in
        subst (λ r. pauses_for key cur (call_pause c r s) k p ≡ false) i (paused_here s k p)
    | inr other ↦ rw (other_kept s q p other, role_kept s q cur) e
  ]

  -- One round of the enumeration.
  abbrev visit : State → PlayerKey → PlayerPtr → State
  visit s k p = if pauses_for key cur s k p then call_pause c p s else s

  visited :
      (s : State) (k : PlayerKey) (p : PlayerPtr) → pauses_for key cur (visit s k p) k p ≡ false
  visited s k p = elim (Bool-cases (pauses_for key cur s k p)) [
    | inl y ↦ rw y (paused_here s k p)
    | inr n ↦ rw n n
  ]

  stays_visit :
      (s : State) (k j : PlayerKey) (q p : PlayerPtr)
      → pauses_for key cur s k p ≡ false
      → pauses_for key cur (visit s j q) k p ≡ false
  stays_visit s k j q p e = elim (Bool-cases (pauses_for key cur s j q)) [
    | inl y ↦ rw y (stays s k q p e)
    | inr n ↦ rw n e
  ]

  stays_all :
      (rest : List (PlayerKey × PlayerPtr)) (s : State) (k : PlayerKey) (p : PlayerPtr)
      → pauses_for key cur s k p ≡ false
      → pauses_for key cur (pause_others c key cur rest s) k p ≡ false
  unfolding pause_others
  stays_all [] s k p e = e
  stays_all ((j, q) ∷ rest) s k p e = stays_all rest (visit s j q) k p (stays_visit s k j q p e)

  pause_others_lem :
      (rest : List (PlayerKey × PlayerPtr)) (s : State)
      → All (λ e. pauses_for key cur (pause_others c key cur rest s) e.0 e.1 ≡ false) rest
  unfolding pause_others
  pause_others_lem [] s = tt
  pause_others_lem ((k, p) ∷ rest) s =
      (stays_all rest (visit s k p) k p (visited s k p), pause_others_lem rest (visit s k p))

  visit_store : (s : State) (k : PlayerKey) (p : PlayerPtr) → (visit s k p).store ≡ s.store
  unfolding call_pause
  visit_store s k p = ground arith

  store_kept :
      (rest : List (PlayerKey × PlayerPtr)) (s : State)
      → (pause_others c key cur rest s).store ≡ s.store
  unfolding pause_others
  store_kept [] s = refl
  store_kept ((k, p) ∷ rest) s = store_kept rest (visit s k p) ∙ visit_store s k p

  visit_role :
      (s : State) (k : PlayerKey) (q p : PlayerPtr)
      → ((visit s k q).objects p).audio_stream_role ≡ (s.objects p).audio_stream_role
  visit_role s k q p = elim (Bool-cases (pauses_for key cur s k q)) [
    | inl y ↦ rw y (role_kept s q p)
    | inr n ↦ rw n refl
  ]

  roles_kept :
      (rest : List (PlayerKey × PlayerPtr)) (s : State) (p : PlayerPtr)
      → ((pause_others c key cur rest s).objects p).audio_stream_role
        ≡ (s.objects p).audio_stream_role
  unfolding pause_others
  roles_kept [] s p = refl
  roles_kept ((k, q) ∷ rest) s p = roles_kept rest (visit s k q) p ∙ visit_role s k q p

  pauses_for-IsQuiet :
      (s : State) (k : PlayerKey) (p : PlayerPtr)
      → (s.objects cur).audio_stream_role ≡ AudioStreamRole.multimedia
      → pauses_for key cur s k p ≡ false
      → IsQuiet key s.objects (k, p)
  pauses_for-IsQuiet s k p m e = elim (Bool-cases (k == key)) [
    | inl same ↦ inl (ground arith)
    | inr other ↦ elim (Bool-cases (is_multimedia (s.objects p).audio_stream_role)) [
      | inl y ↦ elim (Bool-cases (is_playing (s.objects p).playback_status)) [
        | inl z ↦ absurd (clash m other y z e)
        | inr z ↦ inr (inr (λ q. let r = ap is_playing q in cc))
      ]
      | inr y ↦ inr (inl (λ q. let r = ap is_multimedia q in cc))
    ]
  ]
    where
      clash :
          (s.objects cur).audio_stream_role ≡ AudioStreamRole.multimedia
          → (k == key) ≡ false
          → is_multimedia (s.objects p).audio_stream_role ≡ true
          → is_playing (s.objects p).playback_status ≡ true
          → pauses_for key cur s k p ≡ false
          → ⊥
      clash m a b d e = let r = ap is_multimedia m in ground arith

  IsQuiet-All :
      (xs : List (PlayerKey × PlayerPtr)) (s : State)
      → (s.objects cur).audio_stream_role ≡ AudioStreamRole.multimedia
      → All (λ e. pauses_for key cur s e.0 e.1 ≡ false) xs
      → All (IsQuiet key s.objects) xs
  IsQuiet-All [] s m h = tt
  IsQuiet-All ((k, p) ∷ xs) s m (a, h) = (pauses_for-IsQuiet s k p m a, IsQuiet-All xs s m h)

  -- If a pause leaves a player that does not play, in its old role, then after the other sessions were paused for a known player of the multimedia role, every session with another key is not of that role or does not play, every player has the role it had, and the store is the same.
  pub pause_other_sessions_correct :
      (s : State)
      → player_for_key key s.store ≡ some cur
      → (s.objects cur).audio_stream_role ≡ AudioStreamRole.multimedia
      → let t = pause_other_sessions c key s in
        All (IsQuiet key t.objects) s.store.map
        × ((p : PlayerPtr) → (t.objects p).audio_stream_role ≡ (s.objects p).audio_stream_role)
        × (t.store ≡ s.store)
  unfolding pause_other_sessions
  pause_other_sessions_correct s known m =
      let xs = s.store.map in
      rw known (
        IsQuiet-All xs (pause_others c key cur xs s) (roles_kept xs s cur ∙ m)
            (pause_others_lem xs s),
        (λ p. roles_kept xs s p),
        store_kept xs s,
      )
