-- ===== src/TrackList/MoveErrors.antt =====
-- How `move_track` fails.
use media_hub.Prelude.{
  ℕ, ◌≡◌, ◌≢◌, true, some, [], length, text_dec, get_elem?, arith, decide_no, ◌==◌,
}
use media_hub.TrackList.State.{TrackId, null, at, Error, State, threw, fault}
use media_hub.TrackList.Cursor.{find_track, current}
use media_hub.TrackList.Editing.{move_track, relocate}
use media_hub.TrackList.Current.{current_lem}
use media_hub.TrackList.Moving.{length-ne-zero}

at_end : {m n : ℕ} → m ≡ n → (m == n) ≡ true
at_end h = ground arith

module _ (s : State) (id to : TrackId) (has_id : id ≢ []) (has_to : to ≢ []) (ne : id ≢ to) where
  module _ (i : ℕ) (c : TrackId) (e : s.current_track ≡ at i) (f : get_elem? s.tracks i ≡ some c)
      (many : length s.tracks ≢ 1) where
    missing_to :
        find_track s to ≡ length s.tracks
        → move_track id to s ≡ threw Error.failed_to_find_move_track_source s
    unfolding move_track
    missing_to h =
        rw (length-ne-zero id has_id, length-ne-zero to has_to, decide_no (text_dec id to) ne)
          (ground (arith, current_lem s i c e f))

    relocate_missing :
        find_track s id ≡ length s.tracks
        → relocate id (find_track s to) c s ≡ threw Error.failed_to_find_move_track_dest s
    unfolding relocate
    relocate_missing h = rw (at_end h)

    missing_id :
        find_track s to ≢ length s.tracks
        → find_track s id ≡ length s.tracks
        → move_track id to s ≡ threw Error.failed_to_find_move_track_dest s
    unfolding move_track
    missing_id g h =
        rw (length-ne-zero id has_id, length-ne-zero to has_to, decide_no (text_dec id to) ne)
          (ground (arith, current_lem s i c e f, relocate_missing h))

    -- On a list with a current track and not of one track alone, for two different ids that are not
    -- empty: with an unlisted destination the call throws the error of a missing source, with an unlisted
    -- source that of a missing destination; the list stays as it was.
    pub move_track_errors :
        (find_track s to ≡ length s.tracks
          → move_track id to s ≡ threw Error.failed_to_find_move_track_source s)
        × (find_track s to ≢ length s.tracks
            → find_track s id ≡ length s.tracks
            → move_track id to s ≡ threw Error.failed_to_find_move_track_dest s)
    move_track_errors = (missing_to, missing_id)

  -- On an empty list, with two different ids that are not empty and no current track, the current track is read through the sentinel: the
  -- call is undefined.
  pub move_track-empty : s.tracks ≡ [] → s.current_track ≡ null → move_track id to s ≡ fault
  unfolding move_track current
  move_track-empty e c =
      rw (length-ne-zero id has_id, length-ne-zero to has_to, decide_no (text_dec id to) ne)
        (ground arith)
