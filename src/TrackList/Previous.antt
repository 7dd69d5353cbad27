-- ===== src/TrackList/Previous.antt =====
-- What `previous` does, in list order and while shuffle is on.
use media_hub.Prelude.{
  ℕ, zero, suc, ◌-◌, ◌<◌, ◌≡◌, refl, ◌⊎◌, inl, inr, Bool, true, false, Bool-cases, Option, none,
  some, length, get_elem?, get_elem?-lt, lt_of_get_elem?, get_elem?-find, find, text_dec, arith,
  ltb, ◌==◌, if◌then◌else◌,
}
use media_hub.Media.{LoopStatus}
use media_hub.TrackList.State.{TrackId, at, State, done, read_lem}
use media_hub.TrackList.Cursor.{has_previous}
use media_hub.TrackList.Navigation.{
  previous, choose_previous, choose_previous_by, step_back, wrap_back, max_position,
}
use media_hub.TrackList.Invariant.{IsValid, shuffled_of_listed}
use media_hub.TrackList.Next.{Within, land, aim, same_cursor, announce_aim}
use media_hub.TrackList.NextShuffled.{
  aim_shuffled, land_shuffled, get_current_shuffled_lem, set_current_shuffled, announce_shuffled,
  same_cursor as same_cursor_shuffled,
}

-- Where `previous` goes from place `p` of `n`: late in a track, to that track.
unfoldable pub backward : Bool → LoopStatus → ℕ → ℕ → Option ℕ
backward true l n p = some p
backward false LoopStatus.track n p = some p
backward false LoopStatus.playlist n p = if p == 0 then some (n - 1) else some (p - 1)
backward false LoopStatus.none n p = if p == 0 then none else some (p - 1)

backward-Within : (late : Bool) (l : LoopStatus) (n p : ℕ) → p < n → Within n (backward late l n p)
unfolding backward
backward-Within true l n p h = h
backward-Within false LoopStatus.track n p h = h
backward-Within false LoopStatus.playlist n zero h = ground arith
backward-Within false LoopStatus.playlist n (suc p) h = ground arith
backward-Within false LoopStatus.none n zero h = tt
backward-Within false LoopStatus.none n (suc p) h = ground arith

abbrev pub is_late : State → Bool
is_late s = ltb max_position s.current_position

loop-cases :
    (l : LoopStatus) → (l ≡ LoopStatus.none) ⊎ (l ≡ LoopStatus.track) ⊎ (l ≡ LoopStatus.playlist)
loop-cases LoopStatus.none = inl refl
loop-cases LoopStatus.track = inr (inl refl)
loop-cases LoopStatus.playlist = inr (inr refl)

module _ (s : State) (i : ℕ) (sh : s.shuffle ≡ false) (c : s.current_track ≡ at i) where
  has_previous_lem : i < length s.tracks → has_previous s ≡ done (ltb 0 i) s
  unfolding has_previous
  has_previous_lem h = ground arith

  choose_by_lem :
      (l : LoopStatus)
      → i < length s.tracks
      → choose_previous_by l s ≡ aim s (backward false l (length s.tracks) i)
  unfolding choose_previous_by backward step_back wrap_back
  choose_by_lem LoopStatus.none h = ground arith
  choose_by_lem LoopStatus.track h = ground (arith, same_cursor s i sh c)
  choose_by_lem LoopStatus.playlist h = ground (arith, has_previous_lem)

  choose_previous_lem :
      i < length s.tracks
      → choose_previous s ≡ aim s (backward (is_late s) s.loop_status (length s.tracks) i)
  unfolding choose_previous
  choose_previous_lem h = elim (Bool-cases (is_late s)) [
    | inl late ↦ unfold backward in ground (arith, same_cursor s i sh c)
    | inr early ↦ ground (arith, choose_by_lem s.loop_status)
  ]

  -- With shuffle off and a current track, `previous` goes where the position and the loop status say
  -- (`backward`): to the same track, to the one before, or from the first to the last; where they
  -- say nothing, it reports the end of the list and keeps the current track.
  pub previous_in_order :
      (id : TrackId)
      → get_elem? s.tracks i ≡ some id
      → previous s ≡ land s id (backward (is_late s) s.loop_status (length s.tracks) i)
  unfolding previous
  previous_in_order id e =
      let h = lt_of_get_elem? s.tracks i e in
      let o = backward (is_late s) s.loop_status (length s.tracks) i in
      ground (
        arith,
        choose_previous_lem h,
        announce_aim s i sh c id o e
            (backward-Within (is_late s) s.loop_status (length s.tracks) i h),
      )

module _ (s : State) (v : IsValid s) (i : ℕ) (id : TrackId) (sh : s.shuffle ≡ true)
    (c : s.current_track ≡ at i) (e : get_elem? s.tracks i ≡ some id) where
  has_previous_shuffled : has_previous s ≡ done (ltb 0 (find text_dec id s.shuffled_tracks)) s
  unfolding has_previous
  has_previous_shuffled =
      let h = lt_of_get_elem? s.tracks i e in
      ground (arith, get_current_shuffled_lem s v i id sh c e)

  step_back_lem :
      step_back s
      ≡ aim_shuffled s (
          backward false LoopStatus.none
            (length s.shuffled_tracks)
            (find text_dec id s.shuffled_tracks))
  unfolding step_back backward
  step_back_lem =
      let p = find text_dec id s.shuffled_tracks in
      let h = shuffled_of_listed s v sh i e in
      let (x, f) = get_elem?-lt s.shuffled_tracks (p - 1) (omega arith) in
      ground (
        arith,
        get_current_shuffled_lem s v i id sh c e,
        read_lem s.shuffled_tracks (p - 1) s f,
        set_current_shuffled s v i id sh c e (p - 1) x f,
      )

  wrap_back_lem : wrap_back s ≡ aim_shuffled s (some (length s.shuffled_tracks - 1))
  unfolding wrap_back
  wrap_back_lem =
      let h = shuffled_of_listed s v sh i e in
      let (x, f) = get_elem?-lt s.shuffled_tracks (length s.shuffled_tracks - 1) (omega arith) in
      ground (
        arith,
        read_lem s.shuffled_tracks (length s.shuffled_tracks - 1) s f,
        set_current_shuffled s v i id sh c e (length s.shuffled_tracks - 1) x f,
      )

  stay_lem : done true s ≡ aim_shuffled s (some (find text_dec id s.shuffled_tracks))
  stay_lem =
      let h = shuffled_of_listed s v sh i e in
      ground (
        arith,
        same_cursor_shuffled s v i id sh c e,
        get_elem?-find text_dec id s.shuffled_tracks h,
      )

  choose_previous_shuffled :
      (late : Bool)
      → is_late s ≡ late
      → choose_previous s
        ≡ aim_shuffled s (
            backward late s.loop_status
              (length s.shuffled_tracks)
              (find text_dec id s.shuffled_tracks))
  unfolding choose_previous choose_previous_by backward
  choose_previous_shuffled true q = ground (arith, stay_lem)
  choose_previous_shuffled false q = elim (loop-cases s.loop_status) [
    | inl l ↦ ground (arith, step_back_lem)
    | inr (inl l) ↦ ground (arith, stay_lem)
    | inr (inr l) ↦ ground (arith, has_previous_shuffled, step_back_lem, wrap_back_lem)
  ]

  -- With shuffle on and a current track, on a valid list, `previous` goes by the same rule
  -- (`backward`) along the shuffled order, and makes the track it finds there current.
  pub previous_shuffled :
      previous s
      ≡ land_shuffled s id (
          backward
            (is_late s)
            s.loop_status
            (length s.shuffled_tracks)
            (find text_dec id s.shuffled_tracks))
  unfolding previous
  previous_shuffled =
      let h = lt_of_get_elem? s.tracks i e in
      let p = find text_dec id s.shuffled_tracks in
      let n = length s.shuffled_tracks in
      let o = backward (is_late s) s.loop_status n p in
      ground (
        arith,
        choose_previous_shuffled (is_late s) refl,
        announce_shuffled s v i id sh c e o
            (backward-Within (is_late s) s.loop_status n p (shuffled_of_listed s v sh i e)),
      )
