-- ===== src/TrackList/NextShuffled.antt =====
-- What `next` does while shuffle is on.
use media_hub.Prelude.{
  ℕ, suc, ◌≡◌, sym, ap, ◌∙◌, Bool, true, false, Option, none, some, length, get_elem?, get_elem?-lt,
  lt_of_get_elem?, find-get_elem?, get_elem?-find, find, text_dec, arith, ltb, dec_lt,
}
use media_hub.Media.{LoopStatus}
use media_hub.TrackList.State.{TrackId, at, State, Outcome, done, fault, advance_lt, read_lem}
use media_hub.TrackList.Cursor.{current, set_current_track, has_next, get_current_shuffled}
use media_hub.TrackList.Navigation.{next, announce, choose_next, step_forward, wrap_forward}
use media_hub.TrackList.Invariant.{IsValid, listed_of_shuffled, shuffled_of_listed}
use media_hub.TrackList.Next.{
  forward, forward-Within, Within, arrive, end_of, announce_all, announce_go,
}

-- The choice of place `q` of the shuffled order, or of none.
abbrev pub aim_shuffled : State → Option ℕ → Outcome Bool
aim_shuffled s none = done false s
aim_shuffled s (some q) = elim (get_elem? s.shuffled_tracks q) [
  | none ↦ fault
  | some x ↦ done true (record s { current_track = at (find text_dec x s.tracks) })
]

abbrev pub land_shuffled : State → TrackId → Option ℕ → Outcome TrackId
land_shuffled s c none = done c (end_of s)
land_shuffled s c (some q) = elim (get_elem? s.shuffled_tracks q) [
  | none ↦ fault
  | some x ↦ done x (arrive s (find text_dec x s.tracks) x)
]

module _ (s : State) (v : IsValid s) (i : ℕ) (id : TrackId) (sh : s.shuffle ≡ true)
    (c : s.current_track ≡ at i) (e : get_elem? s.tracks i ≡ some id) where
  pub current_lem : current s ≡ done id s
  unfolding current
  current_lem = ground arith

  pub get_current_shuffled_lem :
      get_current_shuffled s ≡ done (find text_dec id s.shuffled_tracks) s
  unfolding get_current_shuffled
  get_current_shuffled_lem = ground (arith, current_lem)

  pub has_next_shuffled_lem :
      has_next s
      ≡ done (ltb (suc (find text_dec id s.shuffled_tracks)) (length s.shuffled_tracks)) s
  unfolding has_next
  has_next_shuffled_lem =
      let h = lt_of_get_elem? s.tracks i e in
      let p = shuffled_of_listed s v sh i e in
      ground (
        arith,
        get_current_shuffled_lem,
        advance_lt (length s.shuffled_tracks) (find text_dec id s.shuffled_tracks) s,
      )

  pub same_cursor : record s { current_track = at (find text_dec id s.tracks) } ≡ s
  same_cursor = λ k. record s {
    current_track = (ap at (find-get_elem? text_dec s.tracks i v.distinct e) ∙ sym c) k;
  }

  pub set_current_shuffled :
      (q : ℕ) (x : TrackId)
      → get_elem? s.shuffled_tracks q ≡ some x
      → set_current_track x s ≡ done tt (record s { current_track = at (find text_dec x s.tracks) })
  unfolding set_current_track
  set_current_shuffled q x f = ground (arith, listed_of_shuffled s v sh q f)

  step_forward_lem :
      step_forward s
      ≡ aim_shuffled s
          (forward LoopStatus.none (length s.shuffled_tracks) (find text_dec id s.shuffled_tracks))
  unfolding step_forward forward
  step_forward_lem =
      let p = find text_dec id s.shuffled_tracks in
      let n = length s.shuffled_tracks in
      let h = shuffled_of_listed s v sh i e in
      elim (dec_lt (suc p) n) [
        | yes more ↦
            let (x, f) = get_elem?-lt s.shuffled_tracks (suc p) more in
            ground
              (arith, get_current_shuffled_lem, advance_lt n p s, set_current_shuffled (suc p) x f)
        | no last ↦ ground (arith, get_current_shuffled_lem, advance_lt n p s)
      ]

  wrap_forward_lem :
      (x : TrackId)
      → get_elem? s.shuffled_tracks 0 ≡ some x
      → wrap_forward s ≡ done true (record s { current_track = at (find text_dec x s.tracks) })
  unfolding wrap_forward
  wrap_forward_lem x f =
      ground (arith, read_lem s.shuffled_tracks 0 s f, set_current_shuffled 0 x f)

  choose_next_shuffled :
      (l : LoopStatus)
      → choose_next l s
        ≡ aim_shuffled s (forward l (length s.shuffled_tracks) (find text_dec id s.shuffled_tracks))
  unfolding choose_next forward
  choose_next_shuffled LoopStatus.none = step_forward_lem
  choose_next_shuffled LoopStatus.track =
      let h = shuffled_of_listed s v sh i e in
      ground (arith, same_cursor, get_elem?-find text_dec id s.shuffled_tracks h)
  choose_next_shuffled LoopStatus.playlist =
      let p = find text_dec id s.shuffled_tracks in
      let n = length s.shuffled_tracks in
      let h = shuffled_of_listed s v sh i e in
      elim (dec_lt (suc p) n) [
        | yes more ↦ ground (arith, has_next_shuffled_lem, step_forward_lem)
        | no last ↦
            let (x, f) = get_elem?-lt s.shuffled_tracks 0 (omega arith) in
            ground (arith, has_next_shuffled_lem, wrap_forward_lem x f)
      ]

  pub announce_shuffled :
      (o : Option ℕ)
      → Within (length s.shuffled_tracks) o
      → announce_all (aim_shuffled s o) ≡ land_shuffled s id o
  unfolding announce
  announce_shuffled none h = ground (arith, current_lem)
  announce_shuffled (some q) h =
      let (x, f) = get_elem?-lt s.shuffled_tracks q h in
      let j = find text_dec x s.tracks in
      ground (
        arith,
        announce_go (record s { current_track = at j }) j x,
        get_elem?-find text_dec x s.tracks (listed_of_shuffled s v sh q f),
      )

  -- With shuffle on and a current track, on a valid list, `next` goes by the same rule (`forward`)
  -- along the shuffled order, and makes the track it finds there current.
  pub next_shuffled :
      next s
      ≡ land_shuffled s id
          (forward s.loop_status (length s.shuffled_tracks) (find text_dec id s.shuffled_tracks))
  unfolding next
  next_shuffled =
      let h = lt_of_get_elem? s.tracks i e in
      let p = find text_dec id s.shuffled_tracks in
      let n = length s.shuffled_tracks in
      ground (
        arith,
        choose_next_shuffled s.loop_status,
        announce_shuffled (forward s.loop_status n p)
            (forward-Within s.loop_status n p (shuffled_of_listed s v sh i e)),
      )
