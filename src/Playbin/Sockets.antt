-- ===== src/Playbin/Sockets.antt =====
-- The socket to the consumer of the video's buffers, and the death of the client.
use media_hub.Prelude.{
  ℕ, ◌≡◌, refl, ap, Bool, true, false, Option, none, some, List, [], ◌∷◌, ◌++◌, map, codes, decimal,
  if◌then◌else◌,
}
use media_hub.Media.{Lifetime}
use media_hub.Engine.{GstState}
use media_hub.Playbin.State.{MediaFileType, Output, State, put_out, close_fd, close_consumer}
use media_hub.Playbin.Pipeline.{reset_pipeline, reset, is_resumable}
use media_hub.Playbin.Position.{can_play_streams}
use media_hub.Playbin.Messages.{Socket, connect_to_consumer, connect_with}

-- The descriptors that were closed, the latest first.
unfoldable pub closed : List Output → List ℕ
closed [] = []
closed (Output.close_socket fd ∷ rest) = fd ∷ closed rest
closed (_ ∷ rest) = closed rest

abbrev pub held_fds : Option ℕ → List ℕ
held_fds none = []
held_fds (some fd) = fd ∷ []

-- What was opened is held or was closed.
abbrev pub opened : State → List ℕ
opened s = held_fds s.sock_consumer ++ closed s.output

closed-close_fd :
    (o : Option ℕ) (s : State) → closed (close_fd o s).output ≡ held_fds o ++ closed s.output
unfolding closed
closed-close_fd none s = refl
closed-close_fd (some fd) s = refl

-- Connecting to the consumer first closes the socket that is held. A socket that it opens is then
-- held if it could be bound and connected, as the result says, and is closed otherwise: no
-- descriptor is lost or closed twice.
pub connect_to_consumer_correct :
    (k : Socket) (s : State)
    → (opened (connect_to_consumer k s).1 ≡ held_fds k.descriptor ++ opened s)
      × ((connect_to_consumer k s).1.sock_consumer
          ≡ (if (connect_to_consumer k s).0 then k.descriptor else none))
unfolding connect_to_consumer close_consumer closed
connect_to_consumer_correct k s =
    go k.descriptor (k.binds (codes "media-hub-server" ++ decimal s.key))
      (k.connects (codes "media-consumer" ++ decimal s.key))
  where
    go :
        (o : Option ℕ) (b c : Bool)
        → let r = connect_with o b c (record (close_fd s.sock_consumer s) { sock_consumer = o }) in
          (opened r.1 ≡ held_fds o ++ opened s) × (r.1.sock_consumer ≡ (if r.0 then o else none))
    go none b c = (closed-close_fd s.sock_consumer s, refl)
    go (some fd) true true = (ap (λ xs. fd ∷ xs) (closed-close_fd s.sock_consumer s), refl)
    go (some fd) true false = (ap (λ xs. fd ∷ xs) (closed-close_fd s.sock_consumer s), refl)
    go (some fd) false c = (ap (λ xs. fd ∷ xs) (closed-close_fd s.sock_consumer s), refl)

close_fd_lem :
    (o : Option ℕ) (u : State)
    → u.sock_consumer ≡ o
    → ((close_fd o u).file_type ≡ u.file_type)
      × (can_play_streams (close_fd o u) ≡ can_play_streams u)
      × ((close_fd o u).sock_consumer ≡ none)
      × (held_fds (close_fd o u).sock_consumer ++ closed (close_fd o u).output
          ≡ held_fds o ++ closed u.output)
      × (Output.client_disconnected ∷ (close_fd o u).output
          ≡ Output.client_disconnected ∷ map Output.close_socket (held_fds o) ++ u.output)
unfolding closed can_play_streams
close_fd_lem none u e = (refl, refl, e, ap (λ o. held_fds o ++ closed u.output) e, refl)
close_fd_lem (some fd) u e = (refl, refl, refl, refl, refl)

-- What the death of its client leaves of a playbin.
abbrev pub AfterDeath : Lifetime → State → State → Type 0
AfterDeath Lifetime.resumable s t = t ≡ put_out Output.client_disconnected s
AfterDeath Lifetime.normal s t =
    (t.file_type ≡ MediaFileType.none)
    × (can_play_streams t ≡ false)
    × (t.sock_consumer ≡ none)
    × (opened t ≡ opened s)
    × (t.output
        ≡ Output.client_disconnected ∷ map Output.close_socket (held_fds s.sock_consumer)
          ++ Output.element_set_state GstState.null ∷ s.output)

by_lifetime :
    (l : Lifetime) (s : State)
    → AfterDeath l s
        (put_out Output.client_disconnected (if is_resumable l then s else reset_pipeline s))
unfolding reset_pipeline can_play_streams closed
by_lifetime Lifetime.resumable s = refl
by_lifetime Lifetime.normal s = close_fd_lem s.sock_consumer _ refl

-- When the client dies, a player that can be resumed keeps all of its pipeline's state, while any
-- other one closes its socket, forgets the type of its file and has no stream that it can play; in both
-- cases the client's going is signalled, once and at last, behind the null state and the closing of the socket that was held.
pub reset-AfterDeath : (s : State) → AfterDeath s.player_lifetime s (reset s)
unfolding reset
reset-AfterDeath s = by_lifetime s.player_lifetime s
