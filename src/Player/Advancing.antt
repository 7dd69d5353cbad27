-- ===== src/Player/Advancing.antt =====
-- What a player does when the engine says that the current track is about to finish.
use media_hub.Prelude.{
  text_eq_refl, text_dec, decide_yes, decide_no, inl, inr, ◌⊎◌, ◌≢◌, sym, subst, ℕ, suc, ◌<◌, ◌≡◌,
  refl, ap, Bool, true, false, not, ◌||◌, Option, none, some, List, [], ◌∷◌, length, get_elem?,
  get_elem?-lt, lt_of_get_elem?, text_eq, arith, ltb, ◌==◌,
}
use media_hub.Media.{EngineState}
use media_hub.Engine
use media_hub.TrackList.State.{State as ListState, TrackId, UriType, at, done}
use media_hub.TrackList.Cursor.{has_previous}
use media_hub.TrackList.Navigation
use media_hub.TrackList.Editing.{query_uri_for_track}
use media_hub.TrackList.Current.{current_lem}
use media_hub.TrackList.Next.{next_in_order, forward, forward-Within, Within, has_next_lem}
use media_hub.Player.Glue.{
  Player, Pipeline, Output, put_out, with_engine, loops, on_list, on_signals, on_signal,
  update_mpris_properties, properties, on_go_to_track, on_end_of_tracklist,
}
use media_hub.Player.Actions.{
  advance_list, about_to_finish_handler, on_about_to_finish, unlock, advance_to,
}

-- The properties with track `j` current, in list order.
abbrev pub refreshed : ℕ → Player → Player
refreshed j s = record s {
  can_play = ltb 0 (length s.list.tracks);
  can_pause = ltb 0 (length s.list.tracks);
  can_go_previous = not (j == 0) || loops s.list.loop_status;
  can_go_next = ltb (suc j) (length s.list.tracks) || loops s.list.loop_status;
}

has_previous_lem :
    (l : ListState) (j : ℕ)
    → l.shuffle ≡ false
    → l.current_track ≡ at j
    → j < length l.tracks
    → has_previous l ≡ done (not (j == 0)) l
unfolding has_previous
has_previous_lem l j sh c h = ground arith

pub update_lem :
    (s : Player) (j : ℕ)
    → s.list.shuffle ≡ false
    → s.list.current_track ≡ at j
    → j < length s.list.tracks
    → update_mpris_properties s ≡ some (refreshed j s)
unfolding update_mpris_properties properties
update_lem s j sh c h =
    ground (arith, has_previous_lem s.list j sh c h, has_next_lem s.list j sh c h)

pub locked_lem :
    (p : Pipeline) (id : TrackId) (s : Player)
    → s.doing_go_to_track ≡ true
    → on_go_to_track p id s ≡ s
unfolding on_go_to_track
locked_lem p id s e = ground arith

idle_lem :
    (p : Pipeline) (s : Player) → s.engine.state ≡ EngineState.ready → on_end_of_tracklist p s ≡ s
unfolding on_end_of_tracklist
idle_lem p s e = ground arith

abbrev pub quiet : ListState → ListState
quiet l = record l { sent = [] }

-- On to track `j`, with the signals handled.
abbrev pub moved : Player → ℕ → Player
moved s j = refreshed j (record s { list = record s.list { current_track = at j; sent = [] } })

module _ (p : Pipeline) (s : Player) (i : ℕ) (id : TrackId) (sh : s.list.shuffle ≡ false)
    (c : s.list.current_track ≡ at i) (e : get_elem? s.list.tracks i ≡ some id) where
  next_end :
      s.engine.state ≡ EngineState.ready
      → forward s.list.loop_status (length s.list.tracks) i ≡ none
      → on_list p Navigation.next s ≡ some (id, record s { list = quiet s.list })
  unfolding on_list on_signals on_signal
  next_end r f = ground (
    arith,
    next_in_order (quiet s.list) i sh c id e,
    f,
    idle_lem p (record s { list = quiet s.list }) r,
  )

  next_go :
      (j : ℕ) (x : TrackId)
      → s.doing_go_to_track ≡ true
      → forward s.list.loop_status (length s.list.tracks) i ≡ some j
      → get_elem? s.list.tracks j ≡ some x
      → on_list p Navigation.next s ≡ some (x, moved s j)
  unfolding on_list on_signals on_signal
  next_go j x locked f g =
      let t : Player = record s { list = record s.list { current_track = at j; sent = [] } } in
      ground (
        arith,
        next_in_order (quiet s.list) i sh c id e,
        f,
        g,
        update_lem t j sh refl (lt_of_get_elem? s.list.tracks j g),
        locked_lem p x (refreshed j t) locked,
      )

-- The uri of the next track is opened once, and the pipeline is not reset for it; nothing is opened for the same track, or for a track without a uri.
abbrev pub IsOpened :
    TrackId → TrackId → UriType → List (UriType × Bool) → List (UriType × Bool) → Type 0
IsOpened id x uri before after =
    ((id ≡ x) × (after ≡ before))
    ⊎ (((id ≢ x) × (uri ≡ []) × (after ≡ before))
        ⊎ ((id ≢ x) × (uri ≢ []) × (after ≡ (uri, false) ∷ before)))

-- Where the list stands next, and what is opened.
abbrev pub IsAdvanced : Player → ℕ → TrackId → Option ℕ → Player → Type 0
IsAdvanced s i id none t = (t.list.current_track ≡ at i) × (t.opened ≡ s.opened)
IsAdvanced s i id (some j) t =
    (t.list.current_track ≡ at j)
    × ((x : TrackId) × ((get_elem? s.list.tracks j ≡ some x)
          × IsOpened id x (query_uri_for_track s.list x) s.opened t.opened))

advanced-IsOpened :
    (id x : TrackId) (uri : UriType) (s : Player)
    → IsOpened id x uri s.opened (advance_to (text_eq id x) uri s).opened
unfolding text_eq
advanced-IsOpened id x uri s = elim (text_dec id x) [
  | yes e ↦ rw (decide_yes (text_dec id x) e) (inl (e, refl))
  | no n ↦ rw (decide_no (text_dec id x) n) (inr (go uri n))
]
  where
    go :
        (u : UriType)
        → id ≢ x
        → ((id ≢ x) × (u ≡ []) × ((advance_to false u s).opened ≡ s.opened))
          ⊎ ((id ≢ x) × (u ≢ []) × ((advance_to false u s).opened ≡ (u, false) ∷ s.opened))
    go [] n = inl (n, refl, refl)
    go (c ∷ cs) n = inr (n, (λ e. cc), refl)

advance_lem :
    (b : Bool) (uri : UriType) (s t : Player)
    → t.opened ≡ s.opened
    → ((advance_to b uri t).opened ≡ (advance_to b uri s).opened)
      × ((advance_to b uri t).list.current_track ≡ t.list.current_track)
      × ((advance_to b uri t).engine ≡ t.engine)
advance_lem true uri s t e = (e, refl, refl)
advance_lem false [] s t e = (e, refl, refl)
advance_lem false (u ∷ us) s t e = (ap (λ xs. (u ∷ us, false) ∷ xs) e, refl, refl)

module _ (p : Pipeline) (s : Player) (i : ℕ) (id : TrackId) (sh : s.list.shuffle ≡ false)
    (c : s.list.current_track ≡ at i) (e : get_elem? s.list.tracks i ≡ some id)
    (r : s.engine.state ≡ EngineState.ready) (locked : s.doing_go_to_track ≡ true) where
  advance_list_end :
      forward s.list.loop_status (length s.list.tracks) i ≡ none
      → advance_list p s ≡ some (record s { list = quiet s.list })
  unfolding advance_list
  advance_list_end f = ground (
    arith,
    current_lem s.list i id c e,
    next_end p s i id sh c e r f,
    current_lem (quiet s.list) i id c e,
    text_eq_refl id,
  )

  advance_list_go :
      (j : ℕ) (x : TrackId)
      → forward s.list.loop_status (length s.list.tracks) i ≡ some j
      → get_elem? s.list.tracks j ≡ some x
      → advance_list p s
        ≡ some (advance_to (text_eq id x) (query_uri_for_track s.list x) (moved s j))
  unfolding advance_list query_uri_for_track
  advance_list_go j x f g = ground (
    arith,
    current_lem s.list i id c e,
    next_go p s i id sh c e j x locked f g,
    current_lem (moved s j).list j x refl g,
  )

-- The player as the list's part finds it.
abbrev primed : Player → Player
primed s =
    put_out Output.about_to_finish
      (record (with_engine (Engine.on_about_to_finish s.engine) s) { doing_go_to_track = true })

module _ (p : Pipeline) (s : Player) (i : ℕ) (id : TrackId) (sh : s.list.shuffle ≡ false)
    (c : s.list.current_track ≡ at i) (e : get_elem? s.list.tracks i ≡ some id)
    (alive : s.doing_abandon ≡ false) (free : s.doing_go_to_track ≡ false) where
  handler_lem :
      (t : Player) → advance_list p (primed s) ≡ some t → on_about_to_finish p s ≡ some (unlock t)
  unfolding on_about_to_finish about_to_finish_handler with_engine
  handler_lem t a = ground (arith, alive, free, a)

  -- With a current track, shuffle off and the player not abandoned, when the current track is about to finish, the list moves on as its loop status says
  -- (`forward`), and the uri of the track it comes to is opened at once and only once, without a reset of the pipeline, if that is another track
  -- and has a uri; at the end of the list nothing is opened. The engine is ready and is not stopped, and the mutex is free again.
  pub on_about_to_finish_correct :
      (t : Player) × (on_about_to_finish p s ≡ some t)
      × IsAdvanced s i id (forward s.list.loop_status (length s.list.tracks) i) t
      × (t.engine ≡ Engine.on_about_to_finish s.engine)
      × (t.doing_go_to_track ≡ false)
  unfolding with_engine unlock Engine.on_about_to_finish
  on_about_to_finish_correct = go (forward s.list.loop_status (length s.list.tracks) i) refl (
      forward-Within s.list.loop_status (length s.list.tracks) i
        (lt_of_get_elem? s.list.tracks i e))
    where
      go :
          (o : Option ℕ)
          → forward s.list.loop_status (length s.list.tracks) i ≡ o
          → Within (length s.list.tracks) o
          → (t : Player) × (on_about_to_finish p s ≡ some t)
            × IsAdvanced s i id o t
            × (t.engine ≡ Engine.on_about_to_finish s.engine)
            × (t.doing_go_to_track ≡ false)
      go none f w = (
        unlock (record (primed s) { list = quiet s.list }),
        handler_lem _ (advance_list_end p (primed s) i id sh c e refl refl f),
        (c, refl),
        refl,
        refl,
      )
      go (some j) f w =
          let (x, g) = get_elem?-lt s.list.tracks j w in
          let a =
            advance_lem (text_eq id x) (query_uri_for_track s.list x) s (moved (primed s) j) refl in
          (
            unlock (advance_to (text_eq id x) (query_uri_for_track s.list x) (moved (primed s) j)),
            handler_lem _ (advance_list_go p (primed s) i id sh c e refl refl j x f g),
            (
              a.1,
              (
                x,
                (
                  g,
                  subst (IsOpened id x (query_uri_for_track s.list x) s.opened) (sym a.0)
                      (advanced-IsOpened id x (query_uri_for_track s.list x) s),
                ),
              ),
            ),
            a.2,
            refl,
          )
