-- ===== src/Service/Created.antt =====
-- What the requests that create a session promise.
use media_hub.Prelude.{
  ◌+◌, ◌-◌, ◌%◌, ◌^◌, ◌<◌, ◌≡◌, ◌≢◌, refl, sym, ◌∙◌, Bool, true, Option-cases, none, some, ◌∷◌,
  Text, text_dec, lookup, put, emplace, lookup-put, lookup-put_other, lookup-emplace, ℕ_discrete,
  arith, inl, inr,
}
use media_hub.Media.{Lifetime}
use media_hub.PlayerStore.{PlayerKey, PlayerPtr, player_for_key, add_player_for_key}
use media_hub.Service.Sessions.{
  Sessions, Result, Reply, next_uuid, create_session_info, place_player, session_path,
  handle_create_session, handle_create_fixed_session, handle_resume_session,
}

-- Every key in use is below the counter, and the counter does not wrap at its next increment.
abbrev pub KeysBelow : Sessions → Type 0
KeysBelow s =
    ((k : PlayerKey) (p : PlayerPtr) → player_for_key k s.store ≡ some p → k < s.session_counter)
    × (s.session_counter < 2 ^ 32 - 1)

free_key : (s : Sessions) → KeysBelow s → player_for_key s.session_counter s.store ≡ none
free_key s (below, _) = elim (Option-cases (player_for_key s.session_counter s.store)) [
  | inl e ↦ e
  | inr (p, e) ↦ let h = below s.session_counter p e in absurd (omega (arith, h))
]

-- A session of either kind in `t`, new against `s`: it has a key and a player of its own, and no
-- other key finds anything else.
abbrev pub NewSession : Lifetime → Sessions → Sessions → Type 0
NewSession l s t =
    (player_for_key s.session_counter s.store ≡ none)
    × (player_for_key s.session_counter t.store ≡ some s.allocated)
    × ((k : PlayerKey)
        → k ≢ s.session_counter
        → player_for_key k t.store ≡ player_for_key k s.store)
    × (t.lifetimes s.allocated ≡ l)
    × ((k : PlayerKey) (p : PlayerPtr) → player_for_key k t.store ≡ some p → k < t.session_counter)

place_player-NewSession :
    (s : Sessions) (l : Lifetime)
    → KeysBelow s
    → NewSession l s (place_player s.session_counter l (create_session_info s))
unfolding place_player create_session_info add_player_for_key
place_player-NewSession s l (below, room) =
    let key = s.session_counter in
    (
      free_key s (below, room),
      lookup-put ℕ_discrete key s.allocated s.store.map,
      (λ k n. lookup-put_other ℕ_discrete k key s.allocated s.store.map n),
      ground arith,
      bound,
    )
  where
    bound :
        (k : PlayerKey) (p : PlayerPtr)
        → lookup ℕ_discrete k (put ℕ_discrete s.session_counter s.allocated s.store.map) ≡ some p
        → k < (s.session_counter + 1) % 2 ^ 32
    bound k p e = elim (ℕ_discrete k s.session_counter) [
      | yes q ↦ omega (arith, q)
      | no n ↦
          let h =
            below k p (
              sym (lookup-put_other ℕ_discrete k s.session_counter s.allocated s.store.map n)
              ∙ e) in
          omega (arith, h)
    ]

-- While the counter has not reached its last value, a request for a session, with a uuid that is
-- new, is answered with a path and that uuid; the uuid finds a key that was free, this key finds
-- the new player, which is not resumable, and no other key finds anything else.
pub handle_create_session_correct :
    (sender : Text) (s : Sessions)
    → KeysBelow s
    → lookup text_dec (next_uuid s) s.uuid_player_map ≡ none
    → (t : Sessions) × (handle_create_session true sender s ≡ Result.ok t)
      × (t.replies ≡ Reply.session (session_path s.session_counter) (next_uuid s) ∷ s.replies)
      × (lookup text_dec (next_uuid s) t.uuid_player_map ≡ some s.session_counter)
      × NewSession Lifetime.normal s t
unfolding handle_create_session place_player create_session_info
handle_create_session_correct sender s below new =
    let made = place_player-NewSession s Lifetime.normal below in
    (
      _,
      refl,
      refl,
      lookup-emplace text_dec (next_uuid s) s.session_counter s.uuid_player_map new,
      made,
    )

-- A request for a named session, under a name that is new, makes a session with a resumable
-- player; while that player is known, every later request for the name and every request to resume
-- the session's key is answered with the same path and changes nothing else.
pub fixed_session_found_again :
    (created : Bool) (name : Text) (s : Sessions)
    → KeysBelow s
    → lookup text_dec name s.named_player_map ≡ none
    → (t : Sessions) × (handle_create_fixed_session true name s ≡ Result.ok t)
      × NewSession Lifetime.resumable s t
      × (t.replies ≡ Reply.path (session_path s.session_counter) ∷ s.replies)
      × (handle_create_fixed_session created name t
          ≡ Result.ok
              (record t { replies = Reply.path (session_path s.session_counter) ∷ t.replies }))
      × (handle_resume_session s.session_counter t
          ≡ Result.ok
              (record t { replies = Reply.path (session_path s.session_counter) ∷ t.replies }))
unfolding handle_create_fixed_session place_player create_session_info handle_resume_session
fixed_session_found_again created name s below new =
    let made = place_player-NewSession s Lifetime.resumable below in
    let f = lookup-emplace text_dec name s.session_counter s.named_player_map new in
    let u = place_player s.session_counter Lifetime.resumable (create_session_info s) in
    let t : Sessions = record u {
      named_player_map = emplace text_dec name s.session_counter s.named_player_map;
      replies = Reply.path (session_path s.session_counter) ∷ s.replies;
    } in
    (t, rw new refl, made, refl, rw (f, made.1) refl, rw made.1 refl)
