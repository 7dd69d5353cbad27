-- ===== src/TrackList/Navigation.antt =====
-- `TrackListSkeleton::next` and `previous`.
use media_hub.Prelude.{ℕ, ◌*◌, ◌-◌, Bool, true, false, [], length, if◌then◌else◌, ltb, ◌==◌}
use media_hub.Media.{LoopStatus}
use media_hub.TrackList.State.{
  TrackId, null, at, Signal, done, fault, M, ◌>>=◌, ◌>>◌, pure, emit, read, advance, branch,
}
use media_hub.TrackList.Cursor.{
  current_iterator, current, set_current_track, get_current_shuffled, next_iterator, has_next,
  has_previous,
}

-- The end of both functions: go to the current track, or say that the list has ended.
unfoldable pub announce : Bool → M TrackId
unfolding current
announce true = do
  id ← current
  emit (Signal.track_changed id)
  id' ← current
  emit (Signal.go_to_track id')
  current
announce false = do emit Signal.end_of_tracklist; current

unfoldable pub wrap_forward : M Bool
wrap_forward s =
    if s.shuffle
    then (do id ← read s.shuffled_tracks 0; set_current_track id; pure true) s
    else done true (record s { current_track = at 0 })

step_forward_shuffled : M Bool
step_forward_shuffled = do
  i ← get_current_shuffled
  λ s.
      (do
        j ← advance (length s.shuffled_tracks) i
        branch (j == length s.shuffled_tracks) (pure false)
            (do id ← read s.shuffled_tracks j; set_current_track id; pure true))
        s

step_forward_in_order : M Bool
unfolding next_iterator
step_forward_in_order = do
  i ← next_iterator
  λ s. if i == length s.tracks then done false s else done true (record s { current_track = at i })

unfoldable pub step_forward : M Bool
unfolding step_forward_shuffled step_forward_in_order
step_forward s = if s.shuffle then step_forward_shuffled s else step_forward_in_order s

-- The choice of `next`: whether to go to a track, which is then current.
unfoldable pub choose_next : LoopStatus → M Bool
choose_next LoopStatus.track = pure true
choose_next LoopStatus.playlist = do more ← has_next; branch more step_forward wrap_forward
choose_next LoopStatus.none = step_forward

unfoldable pub next : M TrackId
next s =
    if length s.tracks == 0 then done [] s else (do go ← choose_next s.loop_status; announce go) s

-- Five seconds, in nanoseconds.
abbrev pub max_position : ℕ
max_position = 5 * 1_000_000_000

unfoldable pub wrap_back : M Bool
wrap_back s =
    if s.shuffle
    then (do
      id ← read s.shuffled_tracks (length s.shuffled_tracks - 1)
      set_current_track id
      pure true)
        s
    else done true (record s { current_track = at (length s.tracks - 1) })

step_back_shuffled : M Bool
step_back_shuffled = do
  i ← get_current_shuffled
  λ s.
      if i == 0
      then done false s
      else (do id ← read s.shuffled_tracks (i - 1); set_current_track id; pure true) s

step_back_in_order : M Bool
unfolding current_iterator
step_back_in_order = do
  it ← current_iterator
  λ s. elim it [
    | null ↦ fault
    | at i ↦ if i == 0 then done false s else done true (record s { current_track = at (i - 1) })
  ]

unfoldable pub step_back : M Bool
unfolding step_back_shuffled step_back_in_order
step_back s = if s.shuffle then step_back_shuffled s else step_back_in_order s

unfoldable pub choose_previous_by : LoopStatus → M Bool
choose_previous_by LoopStatus.track = pure true
choose_previous_by LoopStatus.playlist = do more ← has_previous; branch more step_back wrap_back
choose_previous_by LoopStatus.none = step_back

-- Late in a track, `previous` starts that track again.
unfoldable pub choose_previous : M Bool
choose_previous s =
    if ltb max_position s.current_position then done true s else choose_previous_by s.loop_status s

unfoldable pub previous : M TrackId
previous s = if length s.tracks == 0 then done [] s else (do go ← choose_previous; announce go) s
