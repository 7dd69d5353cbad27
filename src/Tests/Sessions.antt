-- ===== src/Tests/Sessions.antt =====
-- Sessions at concrete inputs.
use media_hub.Prelude.{◌≡◌, refl, true, some, none, [], ◌∷◌, arith, lookup, text_dec, codes}
use media_hub.Media.{Lifetime}
use media_hub.Service.Sessions.{
  Sessions, Result, Reply, Owner, next_uuid, session_path, handle_create_session,
}
use media_hub.Service.Created.{KeysBelow, NewSession, handle_create_session_correct}

-- A service just started.
abbrev started : Sessions
started = record {
  store = record { map = []; current_player = none };
  lifetimes = λ p. Lifetime.normal;
  allocated = 0;
  session_counter = 0;
  uuids = λ n. codes "u";
  drawn = 0;
  uuid_player_map = [];
  player_owner_map = [];
  named_player_map = [];
  pending = [];
  reconnected = [];
  abandoned = [];
  replies = [];
}

started-KeysBelow : KeysBelow started
unfolding lookup
started-KeysBelow = ((λ k p e. cc), omega arith)

handle_create_session_correct_example :
    (t : Sessions) × (handle_create_session true (codes ":1") started ≡ Result.ok t)
    × (t.replies ≡ Reply.session (session_path 0) (next_uuid started) ∷ [])
    × (lookup text_dec (next_uuid started) t.uuid_player_map ≡ some 0)
    × NewSession Lifetime.normal started t
unfolding lookup
handle_create_session_correct_example =
    handle_create_session_correct (codes ":1") started started-KeysBelow refl

abbrev owner : Owner
owner = record { profile = codes "a"; attached = true; peer = codes ":1" }

-- One session, of the client `:1` with the profile `a`.
abbrev one : Sessions
one = record started {
  store = record { map = (0, 0) ∷ []; current_player = none };
  allocated = 1;
  session_counter = 1;
  uuid_player_map = (codes "u", 0) ∷ [];
  player_owner_map = (0, owner) ∷ [];
}
