-- ===== src/Service/Sessions.antt =====
-- `ServiceSkeleton::Private`: the requests that create, find and end sessions. A handler that asks
-- who its client is goes on when the answer comes: `resolved`.
use media_hub.Prelude.{
  ℕ, ◌+◌, ◌%◌, ◌^◌, Bool, true, false, ◌&&◌, Option, none, some, List, [], ◌∷◌, ◌++◌, Text, codes,
  decimal, text_dec, text_eq, if◌then◌else◌, ◌==◌, length, lookup, emplace, erase, ℕ_discrete,
  get_elem?, erase_at,
}
use media_hub.Media.{Lifetime}
use media_hub.PlayerStore.{
  PlayerStore, PlayerKey, PlayerPtr, player_for_key, has_player_for_key, add_player_for_key,
}

-- The tuple of `player_owner_map`: the owner's profile, attached or not, and its name on the bus.
pub record Owner : Type 0 where
  pub profile : Text
  pub attached : Bool
  pub peer : Text

-- What goes on when the client's context is known.
pub data Pending : Type 0 where
  attach : PlayerKey → Text → Pending
  reattach : PlayerKey → Text → Pending
  destroy : PlayerKey → Text → Pending

pub data ServiceError : Type 0 where
  creating_session detaching_session reattaching_session : ServiceError
  destroying_session creating_fixed_session resuming_session : ServiceError

pub data Reply : Type 0 where
  done : Reply
  session : Text → Text → Reply  -- the object path and the uuid
  path : Text → Reply
  error : ServiceError → Reply

pub record Sessions : Type 0 where
  pub store : PlayerStore
  pub lifetimes : PlayerPtr → Lifetime
  pub allocated : ℕ  -- the number of players made
  pub session_counter : ℕ  -- unsigned int
  pub uuids : ℕ → Text  -- what the generator gives
  pub drawn : ℕ
  pub uuid_player_map : List (Text × PlayerKey)
  pub player_owner_map : List (PlayerKey × Owner)
  pub named_player_map : List (Text × PlayerKey)
  pub pending : List Pending
  pub reconnected : List PlayerPtr
  pub abandoned : List PlayerPtr
  pub replies : List Reply  -- the latest first

-- A handler answers, or lets an exception that it does not catch escape.
pub data Result : Type 0 where
  ok : Sessions → Result
  escapes : Sessions → Result

abbrev pub reply : Reply → Sessions → Result
reply r s = Result.ok (record s { replies = r ∷ s.replies })

abbrev pub fail : ServiceError → Sessions → Result
fail e s = reply (Reply.error e) s

abbrev pub later : Pending → Sessions → Sessions
later p s = record s { pending = s.pending ++ p ∷ [] }

unfoldable pub session_path : PlayerKey → Text
session_path key = codes "/core/ubuntu/media/Service/sessions/" ++ decimal key

-- `create_session_info`: the counter and the generator move on.
unfoldable pub create_session_info : Sessions → Sessions
create_session_info s = record s {
  session_counter = (s.session_counter + 1) % 2 ^ 32;
  drawn = s.drawn + 1;
}

abbrev pub next_uuid : Sessions → Text
next_uuid s = s.uuids s.drawn

abbrev pub set_lifetime : PlayerPtr → Lifetime → (PlayerPtr → Lifetime) → PlayerPtr → Lifetime
set_lifetime p l f q = if q == p then l else f q

-- A new player under `key`.
unfoldable pub place_player : PlayerKey → Lifetime → Sessions → Sessions
place_player key l s = record s {
  store = add_player_for_key key s.allocated s.store;
  lifetimes = set_lifetime s.allocated l s.lifetimes;
  allocated = s.allocated + 1;
}

-- `created` is false where `create_session` throws std::runtime_error.
unfoldable pub handle_create_session : Bool → Text → Sessions → Result
handle_create_session created sender s =
    let key = s.session_counter in
    let uuid = next_uuid s in
    let t = create_session_info s in
    let u = place_player key Lifetime.normal t in
    if created
    then reply (Reply.session (session_path key) uuid) (
        later (Pending.attach key sender)
          (record u { uuid_player_map = emplace text_dec uuid key u.uuid_player_map }))
    else fail ServiceError.creating_session t

-- The registered peer is the one that asks. The copy `info` that the code changes is dropped.
abbrev pub may_detach : Text → Option Owner → Bool
may_detach sender none = false
may_detach sender (some info) = info.attached && text_eq info.peer sender

abbrev make_resumable : Sessions → Option PlayerPtr → Result
make_resumable s none = Result.escapes s
make_resumable s (some p) =
    reply Reply.done (record s { lifetimes = set_lifetime p Lifetime.resumable s.lifetimes })

abbrev detach_found : Text → Sessions → Option PlayerKey → Result
detach_found sender s none = Result.escapes s
detach_found sender s (some key) =
    if may_detach sender (lookup ℕ_discrete key s.player_owner_map)
    then make_resumable s (player_for_key key s.store)
    else reply Reply.done s

unfoldable pub handle_detach_session : Text → Text → Sessions → Result
handle_detach_session uuid sender s =
    if length s.uuid_player_map == 0
    then reply Reply.done s
    else detach_found sender s (lookup text_dec uuid s.uuid_player_map)

abbrev reattach_found : Text → Sessions → Option PlayerKey → Result
reattach_found sender s none = fail ServiceError.reattaching_session s
reattach_found sender s (some key) =
    if has_player_for_key key s.store
    then Result.ok (later (Pending.reattach key sender) s)
    else fail ServiceError.reattaching_session s

unfoldable pub handle_reattach_session : Text → Text → Sessions → Result
handle_reattach_session uuid sender s =
    reattach_found sender s (lookup text_dec uuid s.uuid_player_map)

abbrev destroy_found : Text → Text → Sessions → Option PlayerKey → Result
destroy_found uuid sender s none = fail ServiceError.destroying_session s
destroy_found uuid sender s (some key) =
    if has_player_for_key key s.store
    then Result.ok (
        later (Pending.destroy key sender)
          (record s { uuid_player_map = erase text_dec uuid s.uuid_player_map }))
    else fail ServiceError.destroying_session s

unfoldable pub handle_destroy_session : Text → Text → Sessions → Result
handle_destroy_session uuid sender s =
    destroy_found uuid sender s (lookup text_dec uuid s.uuid_player_map)

abbrev find_session : ServiceError → PlayerKey → Sessions → Result
find_session e key s =
    if has_player_for_key key s.store then reply (Reply.path (session_path key)) s else fail e s

abbrev fixed_new : Bool → Text → Sessions → Result
fixed_new created name s =
    let key = s.session_counter in
    let t = create_session_info s in
    let u = place_player key Lifetime.resumable t in
    if created
    then reply (Reply.path (session_path key))
        (record u { named_player_map = emplace text_dec name key u.named_player_map })
    else fail ServiceError.creating_session t

abbrev fixed_found : Bool → Text → Sessions → Option PlayerKey → Result
fixed_found created name s none = fixed_new created name s
fixed_found created name s (some key) = find_session ServiceError.creating_fixed_session key s

unfoldable pub handle_create_fixed_session : Bool → Text → Sessions → Result
handle_create_fixed_session created name s =
    fixed_found created name s (lookup text_dec name s.named_player_map)

unfoldable pub handle_resume_session : PlayerKey → Sessions → Result
handle_resume_session key s = find_session ServiceError.resuming_session key s

abbrev reconnect : PlayerKey → Sessions → Option PlayerPtr → Result
reconnect key s none = Result.escapes s
reconnect key s (some p) =
    reply (Reply.path (session_path key)) (record s { reconnected = p ∷ s.reconnected })

-- The new peer is written to a copy, which is dropped.
unfoldable pub reattached : PlayerKey → Text → Sessions → Option Owner → Result
reattached key context s none = Result.escapes s
reattached key context s (some info) =
    if text_eq info.profile context
    then reconnect key s (player_for_key key s.store)
    else fail ServiceError.reattaching_session s

abbrev abandon : Sessions → Option PlayerPtr → Result
abandon s none = Result.escapes s
abandon s (some p) = reply Reply.done (record s {
  lifetimes = set_lifetime p Lifetime.normal s.lifetimes;
  abandoned = p ∷ s.abandoned;
})

unfoldable pub destroyed : PlayerKey → Text → Sessions → Option Owner → Result
destroyed key context s none = Result.escapes s
destroyed key context s (some info) =
    if text_eq info.profile context
    then abandon (record s { player_owner_map = erase ℕ_discrete key s.player_owner_map })
        (player_for_key key s.store)
    else fail ServiceError.destroying_session s

unfoldable pub attached : PlayerKey → Text → Text → Sessions → Result
attached key sender context s =
    let owner : Owner = record { profile = context; attached = true; peer = sender } in
    Result.ok (record s { player_owner_map = emplace ℕ_discrete key owner s.player_owner_map })

abbrev go_on : Text → Sessions → Pending → Result
go_on context s (Pending.attach key sender) = attached key sender context s
go_on context s (Pending.reattach key sender) =
    reattached key context s (lookup ℕ_discrete key s.player_owner_map)
go_on context s (Pending.destroy key sender) =
    destroyed key context s (lookup ℕ_discrete key s.player_owner_map)

abbrev resolve_found : ℕ → Text → Sessions → Option Pending → Result
resolve_found i context s none = Result.ok s
resolve_found i context s (some p) = go_on context (record s { pending = erase_at s.pending i }) p

-- The answer for the i-th handler that waits: its client's profile.
unfoldable pub resolved : ℕ → Text → Sessions → Result
resolved i context s = resolve_found i context s (get_elem? s.pending i)
