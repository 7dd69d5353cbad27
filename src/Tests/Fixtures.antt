-- ===== src/Tests/Fixtures.antt =====
-- Track lists with two tracks, for the runs at concrete inputs.
use mathlib.Core.List.{Nodup-nil, Nodup-cons, not-mem-nil}
use mathlib.Core.List.Perm
use media_hub.Prelude.{
  ◌≡◌, ◌<◌, refl, true, false, [], ◌∷◌, List, Nodup, All, Text, arith, length, find, text_dec,
  find-lt_of_mem, mem_of_get_elem?, ◌≢◌,
}
use media_hub.Media.{LoopStatus}
use media_hub.TrackList.State.{TrackId, at, State, make_id}
use media_hub.TrackList.Invariant.{IsValid, IsIssued}
use media_hub.TrackList.Ids.{fresh_id, make_id-injective}

abbrev pub bus_path : Text
bus_path = b'/' ∷ b'T' ∷ []

abbrev pub id0 : TrackId
id0 = make_id bus_path 0

abbrev pub id1 : TrackId
id1 = make_id bus_path 1

abbrev pub ids : List TrackId
ids = id1 ∷ id0 ∷ []

-- The later track stands first and is current.
abbrev pub plain : State
plain = record {
  path = bus_path;
  tracks = ids;
  current_track = at 0;
  loop_status = LoopStatus.playlist;
  current_position = 0;
  id_after_remove = [];
  track_counter = 2;
  meta_data_cache = [];
  shuffled_tracks = [];
  shuffle = false;
  rand = λ n. n;
  drawn = 0;
  sent = [];
}

abbrev pub shuffled : State
shuffled = record plain { shuffle = true; shuffled_tracks = ids }

ids-IsIssued : All (IsIssued bus_path 2) ids
ids-IsIssued = ((1, omega arith, refl), ((0, omega arith, refl), tt))

id0-IsIssued : All (IsIssued bus_path 1) (id0 ∷ [])
id0-IsIssued = ((0, omega arith, refl), tt)

ids-distinct : Nodup ids
ids-distinct =
    Nodup-cons.1
      (fresh_id bus_path 1 (id0 ∷ []) id0-IsIssued, Nodup-cons.1 (not-mem-nil, Nodup-nil))

pub plain-IsValid : IsValid plain
plain-IsValid = record {
  in_range = omega arith;
  issued = ids-IsIssued;
  distinct = ids-distinct;
  counted = omega arith;
  same_tracks = λ h. absurd (cc h);
}

pub shuffled-IsValid : IsValid shuffled
shuffled-IsValid = record {
  in_range = omega arith;
  issued = ids-IsIssued;
  distinct = ids-distinct;
  counted = omega arith;
  same_tracks = λ h. Perm.refl ids;
}

pub listed0 : find text_dec id0 ids < length ids
listed0 = find-lt_of_mem text_dec id0 ids (mem_of_get_elem? ids 1 refl)

pub listed1 : find text_dec id1 ids < length ids
listed1 = find-lt_of_mem text_dec id1 ids (mem_of_get_elem? ids 0 refl)

pub id0-ne-id1 : id0 ≢ id1
id0-ne-id1 e = let q = make_id-injective bus_path 0 1 e in omega (arith, q)

pub find1 : find text_dec id1 ids ≡ 0
unfolding find
find1 = ground arith
