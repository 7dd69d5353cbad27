-- ===== src/TrackList/Next.antt =====
-- What `next` does, on every branch.
use media_hub.Prelude.{
  ℕ, suc, ◌<◌, ◌≡◌, sym, ltb, Bool, true, false, Option, none, some, ◌∷◌, length, get_elem?,
  get_elem?-lt, lt_of_get_elem?, arith, dec_lt, if◌then◌else◌,
}
use media_hub.Media.{LoopStatus}
use media_hub.TrackList.State.{TrackId, at, Signal, State, Outcome, done, threw, fault}
use media_hub.TrackList.Cursor.{current, has_next}
use media_hub.TrackList.Navigation.{next, announce, choose_next, step_forward, wrap_forward}

abbrev pub arrive : State → ℕ → TrackId → State
arrive s i id = record s {
  current_track = at i;
  sent = Signal.go_to_track id ∷ Signal.track_changed id ∷ s.sent;
}

pub announce_go :
    (s : State) (i : ℕ) (id : TrackId)
    → s.current_track ≡ at i
    → get_elem? s.tracks i ≡ some id
    → announce true s ≡ done id (arrive s i id)
unfolding announce
announce_go s i id c e = ground arith

-- Where `next` goes from place `p` of `n` in the order of play; `none` at the end of it.
unfoldable pub forward : LoopStatus → ℕ → ℕ → Option ℕ
forward LoopStatus.track n p = some p
forward LoopStatus.playlist n p = if ltb (suc p) n then some (suc p) else some 0
forward LoopStatus.none n p = if ltb (suc p) n then some (suc p) else none

abbrev pub end_of : State → State
end_of s = record s { sent = Signal.end_of_tracklist ∷ s.sent }

-- The outcome of going to track `j`, or nowhere.
abbrev pub land : State → TrackId → Option ℕ → Outcome TrackId
land s c none = done c (end_of s)
land s c (some j) = elim (get_elem? s.tracks j) [ none ↦ fault | some id ↦ done id (arrive s j id) ]

-- The choice of track `j`, or of none, from track `i`.
abbrev pub aim : State → Option ℕ → Outcome Bool
aim s none = done false s
aim s (some j) = done true (record s { current_track = at j })

abbrev pub Within : ℕ → Option ℕ → Type 0
Within n none = Unit
Within n (some j) = j < n

pub forward-Within : (l : LoopStatus) (n p : ℕ) → p < n → Within n (forward l n p)
unfolding forward
forward-Within LoopStatus.none n p h = elim (dec_lt (suc p) n) [
  | yes q ↦ ground arith
  | no q ↦ ground arith
]
forward-Within LoopStatus.track n p h = h
forward-Within LoopStatus.playlist n p h = ground arith

abbrev pub announce_all : Outcome Bool → Outcome TrackId
announce_all (done go t) = announce go t
announce_all (threw e t) = threw e t
announce_all fault = fault

module _ (s : State) (i : ℕ) (sh : s.shuffle ≡ false) (c : s.current_track ≡ at i) where
  pub same_cursor : record s { current_track = at i } ≡ s
  same_cursor = λ k. record s { current_track = sym c k }

  pub has_next_lem : i < length s.tracks → has_next s ≡ done (ltb (suc i) (length s.tracks)) s
  unfolding has_next
  has_next_lem h = ground arith

  choose_next_lem :
      (l : LoopStatus)
      → i < length s.tracks
      → choose_next l s ≡ aim s (forward l (length s.tracks) i)
  unfolding choose_next forward step_forward wrap_forward
  choose_next_lem LoopStatus.none h = ground arith
  choose_next_lem LoopStatus.track h = ground (arith, same_cursor)
  choose_next_lem LoopStatus.playlist h = ground (arith, has_next_lem)

  pub announce_aim :
      (id : TrackId) (o : Option ℕ)
      → get_elem? s.tracks i ≡ some id
      → Within (length s.tracks) o
      → announce_all (aim s o) ≡ land s id o
  unfolding announce current
  announce_aim id none e h = ground arith
  announce_aim id (some j) e h =
      let (a, f) = get_elem?-lt s.tracks j h in
      ground (arith, announce_go (record s { current_track = at j }) j a)

  -- With shuffle off and a current track, `next` goes where the loop status says (`forward`): to the
  -- following track, to the same one, or from the last to the first; where it says nothing, it
  -- reports the end of the list and keeps the current track.
  pub next_in_order :
      (id : TrackId)
      → get_elem? s.tracks i ≡ some id
      → next s ≡ land s id (forward s.loop_status (length s.tracks) i)
  unfolding next
  next_in_order id e =
      let h = lt_of_get_elem? s.tracks i e in
      let o = forward s.loop_status (length s.tracks) i in
      ground (
        arith,
        choose_next_lem s.loop_status h,
        announce_aim id o e (forward-Within s.loop_status (length s.tracks) i h),
      )
