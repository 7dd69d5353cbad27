-- ===== src/Service/Permissions.antt =====
-- Which client may detach, reattach and destroy a session.
use media_hub.Prelude.{
  ◌≡◌, refl, false, Bool-cases, none, some, ◌∷◌, Text, text_dec, lookup, ℕ_discrete, arith, inl,
  inr, if◌then◌else◌, length, ◌==◌,
}
use media_hub.Media.{Lifetime}
use media_hub.PlayerStore.{PlayerKey, PlayerPtr, player_for_key}
use media_hub.Service.Sessions.{
  Sessions, Result, Reply, handle_detach_session, may_detach, set_lifetime,
}

set_lifetime-same :
    (p : PlayerPtr) (l : Lifetime) (f : PlayerPtr → Lifetime) → set_lifetime p l f p ≡ l
set_lifetime-same p l f = ground arith

-- Where some session has a uuid, a request to detach an unknown uuid ends in an exception that the
-- handler does not catch. A request to detach a known session is answered with success whoever
-- asks: it makes the player resumable if the session is attached and its registered peer asks,
-- and it never changes who owns the session, whether it is attached, or its peer.
pub detach_correct :
    (uuid sender : Text) (s : Sessions)
    → (length s.uuid_player_map == 0) ≡ false
    → (lookup text_dec uuid s.uuid_player_map ≡ none
        → handle_detach_session uuid sender s ≡ Result.escapes s)
      × ((key : PlayerKey) (p : PlayerPtr)
          → lookup text_dec uuid s.uuid_player_map ≡ some key
          → player_for_key key s.store ≡ some p
          → (t : Sessions) × (handle_detach_session uuid sender s ≡ Result.ok t)
            × (t.replies ≡ Reply.done ∷ s.replies)
            × (t.lifetimes p ≡ (
                if may_detach sender (lookup ℕ_discrete key s.player_owner_map)
                then Lifetime.resumable
                else s.lifetimes p))
            × (t.player_owner_map ≡ s.player_owner_map))
unfolding handle_detach_session
detach_correct uuid sender s some_uuid = ((λ unknown. rw (some_uuid, unknown) refl), found)
  where
    found :
        (key : PlayerKey) (p : PlayerPtr)
        → lookup text_dec uuid s.uuid_player_map ≡ some key
        → player_for_key key s.store ≡ some p
        → (t : Sessions) × (handle_detach_session uuid sender s ≡ Result.ok t)
          × (t.replies ≡ Reply.done ∷ s.replies)
          × (t.lifetimes p ≡ (
              if may_detach sender (lookup ℕ_discrete key s.player_owner_map)
              then Lifetime.resumable
              else s.lifetimes p))
          × (t.player_owner_map ≡ s.player_owner_map)
    found key p known player =
        elim (Bool-cases (may_detach sender (lookup ℕ_discrete key s.player_owner_map))) [
          | inl e ↦
              let t : Sessions = record s {
                lifetimes = set_lifetime p Lifetime.resumable s.lifetimes;
                replies = Reply.done ∷ s.replies;
              } in
              (
                t,
                rw (some_uuid, known, e, player) refl,
                refl,
                rw e (set_lifetime-same p Lifetime.resumable s.lifetimes),
                refl,
              )
          | inr e ↦
              let t : Sessions = record s { replies = Reply.done ∷ s.replies } in
              (t, rw (some_uuid, known, e) refl, refl, rw e refl, refl)
        ]
