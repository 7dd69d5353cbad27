-- ===== src/Player/Skipping.antt =====
-- What a client's request for the next track does to the player.
use media_hub.Prelude.{
  ℕ, ◌≡◌, refl, ap, ◌∙◌, get_elem?-lt, Bool, true, false, Option, none, some, [], ◌∷◌, get_elem?,
  lt_of_get_elem?, length, arith, if◌then◌else◌,
}
use media_hub.Engine
use media_hub.TrackList.State.{TrackId, UriType, at}
use media_hub.TrackList.Editing.{query_uri_for_track}
use media_hub.TrackList.Next.{next_in_order, forward, forward-Within, Within}
use media_hub.Player.Glue.{
  Player, Pipeline, open_if_any, with_engine, on_list, on_signals, on_signal, on_go_to_track,
  on_end_of_tracklist, stop_unless, play_if, is_playing, is_idle,
}
use media_hub.Player.Actions.{next}
use media_hub.Player.Advancing.{moved, update_lem, quiet}

play_if_lem :
    (b : Bool) (p : Pipeline) (s : Player)
    → ((play_if b p s).list ≡ s.list)
      × ((play_if b p s).opened ≡ s.opened)
      × ((play_if b p s).engine ≡ (if b then (Engine.play p.plays s.engine).1 else s.engine))
unfolding with_engine
play_if_lem true p s = (refl, refl, refl)
play_if_lem false p s = (refl, refl, refl)

stop_unless_engine :
    (b : Bool) (p : Pipeline) (s : Player)
    → ((stop_unless b p s).list ≡ s.list)
      × ((stop_unless b p s).opened ≡ s.opened)
      × ((stop_unless b p s).engine ≡ (if b then s.engine else (Engine.stop p.stops s.engine).1))
unfolding with_engine
stop_unless_engine true p s = (refl, refl, refl)
stop_unless_engine false p s = (refl, refl, refl)

module _ (p : Pipeline) (s : Player) (i : ℕ) (id : TrackId) (sh : s.list.shuffle ≡ false)
    (c : s.list.current_track ≡ at i) (e : get_elem? s.list.tracks i ≡ some id) where
  module _ (j : ℕ) (x : TrackId) (free : s.doing_go_to_track ≡ false)
      (f : forward s.list.loop_status (length s.list.tracks) i ≡ some j)
      (g : get_elem? s.list.tracks j ≡ some x) where
    went : Player
    went =
        play_if (is_playing s.wakelocks.playback_status) p
          (open_if_any (query_uri_for_track s.list x) true (moved s j))

    go_to_lem : on_go_to_track p x (moved s j) ≡ went
    unfolding on_go_to_track went query_uri_for_track
    go_to_lem = ground (arith, free)

    skip_lem : next p s ≡ some (x, went)
    unfolding next on_list on_signals on_signal
    skip_lem =
        let t : Player = record s { list = record s.list { current_track = at j; sent = [] } } in
        ground (
          arith,
          next_in_order (quiet s.list) i sh c id e,
          f,
          g,
          update_lem t j sh refl (lt_of_get_elem? s.list.tracks j g),
          go_to_lem,
        )

  stay_lem :
      forward s.list.loop_status (length s.list.tracks) i ≡ none
      → next p s
        ≡ some (id, stop_unless (is_idle s.engine.state) p (record s { list = quiet s.list }))
  unfolding next on_list on_signals on_signal on_end_of_tracklist
  stay_lem f = ground (arith, next_in_order (quiet s.list) i sh c id e, f)

-- What the request leaves: at the end of the list the engine is stopped, elsewhere the uri of the
-- track that is current then was opened, and the engine plays again if the player was playing.
abbrev pub IsSkipped : Pipeline → Player → ℕ → Option ℕ → Player → Type 0
IsSkipped p s i none t =
    (t.list.current_track ≡ at i)
    × (t.opened ≡ s.opened)
    × (t.engine ≡ (if is_idle s.engine.state then s.engine else (Engine.stop p.stops s.engine).1))
IsSkipped p s i (some j) t =
    (t.list.current_track ≡ at j)
    × ((x : TrackId) × (get_elem? s.list.tracks j ≡ some x)
        × (t.opened ≡ (open_if_any (query_uri_for_track s.list x) true s).opened))
    × (t.engine ≡ (
        if is_playing s.wakelocks.playback_status
        then (Engine.play p.plays s.engine).1
        else s.engine))

opened-open_if_any :
    (uri : UriType) (s t : Player)
    → t.opened ≡ s.opened
    → ((open_if_any uri true t).opened ≡ (open_if_any uri true s).opened)
      × ((open_if_any uri true t).list ≡ t.list)
      × ((open_if_any uri true t).engine ≡ t.engine)
opened-open_if_any [] s t e = (e, refl, refl)
opened-open_if_any (u ∷ us) s t e = (ap (λ xs. (u ∷ us, true) ∷ xs) e, refl, refl)

module _ (p : Pipeline) (s : Player) (i : ℕ) (id : TrackId) (sh : s.list.shuffle ≡ false)
    (c : s.list.current_track ≡ at i) (e : get_elem? s.list.tracks i ≡ some id)
    (free : s.doing_go_to_track ≡ false) where
  went-IsSkipped :
      (j : ℕ) (x : TrackId)
      → get_elem? s.list.tracks j ≡ some x
      → IsSkipped p s i (some j) (
          play_if
            (is_playing s.wakelocks.playback_status)
            p
            (open_if_any (query_uri_for_track s.list x) true (moved s j)))
  went-IsSkipped j x g =
      let u = open_if_any (query_uri_for_track s.list x) true (moved s j) in
      let a = play_if_lem (is_playing s.wakelocks.playback_status) p u in
      let b = opened-open_if_any (query_uri_for_track s.list x) s (moved s j) refl in
      (
        ap (λ l. l.current_track) (a.0 ∙ b.1),
        (x, g, a.1 ∙ b.0),
        a.2
            ∙ ap
                (λ v.
                  if is_playing s.wakelocks.playback_status then (Engine.play p.plays v).1 else v)
                b.2,
      )

  -- With a current track and shuffle off, outside of the change of tracks, a client's request for the next track succeeds. Where the loop status
  -- gives a track (`forward`), it is current, its uri, if it has one, is opened with a reset of the pipeline, and the engine is told to play exactly if the player was playing.
  -- At the end of the list the current track stays, nothing is opened, and the engine is stopped unless it is idle.
  pub next_correct :
      (x : TrackId) × ((t : Player) × (next p s ≡ some (x, t))
        × IsSkipped p s i (forward s.list.loop_status (length s.list.tracks) i) t)
  unfolding went
  next_correct = go (forward s.list.loop_status (length s.list.tracks) i) refl (
      forward-Within s.list.loop_status (length s.list.tracks) i
        (lt_of_get_elem? s.list.tracks i e))
    where
      go :
          (o : Option ℕ)
          → forward s.list.loop_status (length s.list.tracks) i ≡ o
          → Within (length s.list.tracks) o
          → (x : TrackId) × ((t : Player) × (next p s ≡ some (x, t)) × IsSkipped p s i o t)
      go none f w =
          let a =
            stop_unless_engine (is_idle s.engine.state) p (record s { list = quiet s.list }) in
          (id, (_, stay_lem p s i id sh c e f, (ap (λ l. l.current_track) a.0 ∙ c, a.1, a.2)))
      go (some j) f w =
          let (x, g) = get_elem?-lt s.list.tracks j w in
          (x, (_, skip_lem p s i id sh c e j x free f g, went-IsSkipped j x g))
