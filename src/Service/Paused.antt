-- ===== src/Service/Paused.antt =====
-- Which sessions the service pauses.
use mathlib.Core.List.{append_assoc, append-nil}
use media_hub.Prelude.{
  ◌≡◌, ◌≢◌, refl, ◌∙◌, Bool, true, false, Bool-cases, ◌&&◌, inl, inr, List, [], ◌∷◌, ◌++◌, map,
  if◌then◌else◌, arith,
}
use media_hub.PlayerStore.{PlayerKey, PlayerPtr}
use media_hub.Service.State.{
  PlayerObject, Controls, State, Call, set_object, call_pause, is_multimedia, is_playing,
}
use media_hub.Service.Pausing.{
  plays_multimedia, pause_noted, pause_each, pause_all_multimedia_sessions,
}

abbrev pub Entries : Type 0
Entries = List (PlayerKey × PlayerPtr)

-- No entry has the pointer `p`.
abbrev pub Apart : PlayerPtr → Entries → Type 0
Apart p [] = Unit
Apart p ((k, q) ∷ rest) = (q ≢ p) × Apart p rest

-- No two entries have the same pointer.
abbrev pub Separate : Entries → Type 0
Separate [] = Unit
Separate ((k, p) ∷ rest) = Apart p rest × Separate rest

-- The entries whose player is a multimedia player that plays.
unfoldable pub sounding : (PlayerPtr → PlayerObject) → Entries → Entries
sounding objects [] = []
sounding objects ((k, p) ∷ rest) =
    let others = sounding objects rest in
    if plays_multimedia objects p then (k, p) ∷ others else others

-- One player after another is paused.
unfoldable pub paused_objects :
    Controls → Entries → (PlayerPtr → PlayerObject) → PlayerPtr → PlayerObject
paused_objects c [] objects = objects
paused_objects c ((k, p) ∷ rest) objects =
    paused_objects c rest (set_object p (c.on_pause (objects p)) objects)

abbrev pub pause_call : PlayerKey × PlayerPtr → Call
pause_call e = Call.pause e.1

abbrev pub noted : Bool → PlayerKey × PlayerPtr → PlayerKey × Bool
noted resume e = (e.0, resume)

sounding-set_object :
    (p : PlayerPtr) (o : PlayerObject) (h : PlayerPtr → PlayerObject) (xs : Entries)
    → Apart p xs
    → sounding (set_object p o h) xs ≡ sounding h xs
unfolding sounding
sounding-set_object p o h [] a = refl
sounding-set_object p o h ((k, q) ∷ rest) a = ground (arith, sounding-set_object p o h rest a.1)

abbrev pub after_pause : Controls → Bool → Entries → State → State
after_pause c resume xs s = record s {
  objects = paused_objects c xs s.objects;
  paused_sessions = s.paused_sessions ++ map (noted resume) xs;
  calls = s.calls ++ map pause_call xs;
}

pub pause_each_lem :
    (c : Controls) (resume : Bool) (xs : Entries) (s : State)
    → Separate xs
    → pause_each c resume xs s ≡ after_pause c resume (sounding s.objects xs) s
unfolding pause_each sounding paused_objects pause_noted call_pause
pause_each_lem c resume [] s sep = rw (append-nil s.paused_sessions, append-nil s.calls) refl
pause_each_lem c resume ((k, p) ∷ rest) s sep = elim (Bool-cases (plays_multimedia s.objects p)) [
  | inl e ↦
      rw
        (
          e,
          pause_each_lem c resume rest (pause_noted c resume k p s) sep.1,
          sounding-set_object p (c.on_pause (s.objects p)) s.objects rest sep.0,
          append_assoc s.paused_sessions,
          append_assoc s.calls,
        )
        refl
  | inr e ↦ rw (e) (pause_each_lem c resume rest s sep.1)
]

paused_objects-Apart :
    (c : Controls) (p : PlayerPtr) (xs : Entries) (h : PlayerPtr → PlayerObject)
    → Apart p xs
    → paused_objects c xs h p ≡ h p
unfolding paused_objects
paused_objects-Apart c p [] h a = refl
paused_objects-Apart c p ((k, q) ∷ rest) h a =
    ground (arith, paused_objects-Apart c p rest (set_object q (c.on_pause (h q)) h) a.1)

sounding-Apart :
    (p : PlayerPtr) (h : PlayerPtr → PlayerObject) (xs : Entries)
    → Apart p xs
    → Apart p (sounding h xs)
unfolding sounding
sounding-Apart p h [] a = tt
sounding-Apart p h ((k, q) ∷ rest) a = ground (arith, sounding-Apart p h rest a.1)

-- A paused player no longer plays.
abbrev pub PauseStops : Controls → Type 0
PauseStops c = (o : PlayerObject) → is_playing (c.on_pause o).playback_status ≡ false

set_object-same :
    (p : PlayerPtr) (o : PlayerObject) (h : PlayerPtr → PlayerObject) → set_object p o h p ≡ o
set_object-same p o h = ground arith

silent_head :
    (k : PlayerKey) (p : PlayerPtr) (h : PlayerPtr → PlayerObject) (rest : Entries)
    → plays_multimedia h p ≡ false
    → sounding h rest ≡ []
    → sounding h ((k, p) ∷ rest) ≡ []
unfolding sounding
silent_head k p h rest e f = rw e f

sounding-nil : (h : PlayerPtr → PlayerObject) → sounding h [] ≡ []
unfolding sounding
sounding-nil h = refl

sounding-here :
    (k : PlayerKey) (p : PlayerPtr) (o : PlayerObject) (h : PlayerPtr → PlayerObject)
    (rest : Entries)
    → Apart p rest
    → plays_multimedia h p ≡ true
    → sounding h ((k, p) ∷ rest) ≡ (k, p) ∷ sounding (set_object p o h) rest
unfolding sounding
sounding-here k p o h rest a e = rw (e, sounding-set_object p o h rest a) refl

sounding-skip :
    (k : PlayerKey) (p : PlayerPtr) (h : PlayerPtr → PlayerObject) (rest : Entries)
    → plays_multimedia h p ≡ false
    → sounding h ((k, p) ∷ rest) ≡ sounding h rest
unfolding sounding
sounding-skip k p h rest e = rw e refl

still_silent :
    (h g : PlayerPtr → PlayerObject) (p : PlayerPtr) {o : PlayerObject}
    → g p ≡ o
    → (is_playing o.playback_status && is_multimedia o.audio_stream_role) ≡ false
    → plays_multimedia g p ≡ false
still_silent h g p e f = rw e f

stopped_silent :
    (o : PlayerObject)
    → is_playing o.playback_status ≡ false
    → (is_playing o.playback_status && is_multimedia o.audio_stream_role) ≡ false
stopped_silent o e = rw e refl

sounding-paused_objects :
    (c : Controls) (stops : PauseStops c) (xs : Entries) (h : PlayerPtr → PlayerObject)
    → Separate xs
    → sounding (paused_objects c (sounding h xs) h) xs ≡ []
unfolding paused_objects
sounding-paused_objects c stops [] h sep = sounding-nil _
sounding-paused_objects c stops ((k, p) ∷ rest) h sep = elim (Bool-cases (plays_multimedia h p)) [
  | inl e ↦
      let o = c.on_pause (h p) in
      let g = set_object p o h in
      let at_p =
        paused_objects-Apart c p (sounding g rest) g (sounding-Apart p g rest sep.0)
        ∙ set_object-same p o h in
      rw (sounding-here k p o h rest sep.0 e) (
        silent_head k p (paused_objects c (sounding g rest) g) rest
          (still_silent h (paused_objects c (sounding g rest) g) p at_p
            (stopped_silent o (stops (h p))))
          (sounding-paused_objects c stops rest g sep.1))
  | inr e ↦ rw (sounding-skip k p h rest e) (
      silent_head k p (paused_objects c (sounding h rest) h) rest
        (still_silent h (paused_objects c (sounding h rest) h) p
          (paused_objects-Apart c p (sounding h rest) h (sounding-Apart p h rest sep.0)) e)
        (sounding-paused_objects c stops rest h sep.1))
]

-- When no player is held under two keys and a paused player does not play, the multimedia players
-- that play are paused, in the store's order, and noted with the flag; no other player changes,
-- and then no multimedia player of the store plays.
pub pause_all_correct :
    (c : Controls) (resume : Bool) (s : State)
    → PauseStops c
    → Separate s.store.map
    → let t = pause_all_multimedia_sessions c resume s in
      let xs = sounding s.objects s.store.map in
      (t.calls ≡ s.calls ++ map pause_call xs)
      × (t.paused_sessions ≡ s.paused_sessions ++ map (noted resume) xs)
      × (t.store ≡ s.store)
      × ((p : PlayerPtr) → Apart p xs → t.objects p ≡ s.objects p)
      × (sounding t.objects t.store.map ≡ [])
unfolding pause_all_multimedia_sessions
pause_all_correct c resume s stops sep =
    let xs = sounding s.objects s.store.map in
    rw (pause_each_lem c resume s.store.map s sep) (
      refl,
      refl,
      refl,
      (λ p a. paused_objects-Apart c p xs s.objects a),
      sounding-paused_objects c stops s.store.map s.objects sep,
    )
