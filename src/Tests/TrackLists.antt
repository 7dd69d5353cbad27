-- ===== src/Tests/TrackLists.antt =====
-- Runs of the track list at concrete inputs.
use media_hub.Prelude.{◌≡◌, refl, false, [], ◌∷◌, Text}
use media_hub.Media.{LoopStatus}
use media_hub.TrackList.State.{null, at, State}
use media_hub.TrackList.Navigation.{next}
use media_hub.TrackList.Invariant.{IsValid}
use media_hub.TrackList.Next.{next_in_order, land, forward}
use media_hub.Prelude.{text_dec, find, length}
use media_hub.TrackList.NextShuffled.{next_shuffled, land_shuffled}
use media_hub.TrackList.Navigation.{previous}
use media_hub.TrackList.Previous.{previous_in_order, previous_shuffled, backward, is_late}
use media_hub.TrackList.PlayThrough.{play_through, IsPlayed}
use media_hub.Prelude.{Perm}
use media_hub.Tests.Fixtures.{shuffled, shuffled-IsValid, id0, id1}

abbrev list_path : Text
list_path = b'/' ∷ b'T' ∷ []

abbrev song : Text
song = b'a' ∷ []

-- A list as constructed.
abbrev fresh : State
fresh = record {
  path = list_path;
  tracks = [];
  current_track = null;
  loop_status = LoopStatus.none;
  current_position = 0;
  id_after_remove = [];
  track_counter = 0;
  meta_data_cache = [];
  shuffled_tracks = [];
  shuffle = false;
  rand = λ n. n;
  drawn = 0;
  sent = [];
}

-- Two tracks, the first one current.
abbrev two_tracks : State
two_tracks = record fresh {
  tracks = (b'x' ∷ []) ∷ (b'y' ∷ []) ∷ [];
  current_track = at 0;
  shuffled_tracks = (b'y' ∷ []) ∷ (b'x' ∷ []) ∷ [];
}

next_in_order_example : next two_tracks ≡ land two_tracks (b'x' ∷ []) (forward LoopStatus.none 2 0)
next_in_order_example = next_in_order two_tracks 0 refl refl (b'x' ∷ []) refl

next_shuffled_example :
    next shuffled
    ≡ land_shuffled shuffled id1 (
        forward shuffled.loop_status
          (length shuffled.shuffled_tracks)
          (find text_dec id1 shuffled.shuffled_tracks))
next_shuffled_example = next_shuffled shuffled shuffled-IsValid 0 id1 refl refl refl

previous_in_order_example :
    previous two_tracks
    ≡ land two_tracks
        (b'x' ∷ [])
        (backward (is_late two_tracks) two_tracks.loop_status (length two_tracks.tracks) 0)
previous_in_order_example = previous_in_order two_tracks 0 refl refl (b'x' ∷ []) refl

previous_shuffled_example :
    previous shuffled
    ≡ land_shuffled shuffled id1 (
        backward
          (is_late shuffled)
          shuffled.loop_status
          (length shuffled.shuffled_tracks)
          (find text_dec id1 shuffled.shuffled_tracks))
previous_shuffled_example = previous_shuffled shuffled shuffled-IsValid 0 id1 refl refl refl

-- The same list without a repetition.
abbrev once : State
once = record shuffled { loop_status = LoopStatus.none }

once-IsValid : IsValid once
once-IsValid = record {
  in_range = shuffled-IsValid.in_range;
  issued = shuffled-IsValid.issued;
  distinct = shuffled-IsValid.distinct;
  counted = shuffled-IsValid.counted;
  same_tracks = shuffled-IsValid.same_tracks;
}

play_through_example :
    Perm (id1 ∷ id0 ∷ []) once.tracks × ((t : State) × IsPlayed once id1 (id0 ∷ []) t)
play_through_example = play_through once id1 (id0 ∷ []) once-IsValid refl refl (0, refl, refl)
