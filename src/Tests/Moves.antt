-- ===== src/Tests/Moves.antt =====
-- Moves and removals at concrete inputs.
use mathlib.Core.List.Perm
use media_hub.Prelude.{
  ℕ, ◌<◌, ◌≡◌, ◌≢◌, refl, ap, true, some, List, [], ◌∷◌, Perm, arith, length, get_elem?, Text,
}
use media_hub.TrackList.State.{TrackId, null, State, Signal, done, fault, make_id}
use media_hub.TrackList.Cursor.{find_track, current}
use media_hub.TrackList.GoTo.{handle_go_to_correct}
use media_hub.TrackList.Requests.{handle_go_to}
use media_hub.TrackList.Editing.{move_track}
use media_hub.TrackList.Invariant.{IsValid}
use media_hub.TrackList.Current.{IsCurrent}
use media_hub.TrackList.Moving.{move_track_correct}
use media_hub.TrackList.Requests.{Reply}
use media_hub.TrackList.Playlist.{
  Edit, apply_each, AllAllowed, Allowed, ChangesEach, edits_refine_collection,
}
use media_hub.Tests.Fixtures.{plain, plain-IsValid, id0, id1, ids, listed0, listed1, id0-ne-id1}

abbrev first : Text → ℕ
first [] = 0
first (c ∷ cs) = c

abbrev x : TrackId
x = b'x' ∷ []

abbrev y : TrackId
y = b'y' ∷ []

id0-ne-x : id0 ≢ x
unfolding make_id
id0-ne-x e = let q = ap first e in omega (arith, q)

x-ne-y : x ≢ y
x-ne-y e = let q = ap first e in omega (arith, q)

move_track_correct_example :
    (t : State) × (move_track id0 id1 plain ≡ done true t)
    × IsValid t
    × Perm t.tracks ids
    × (get_elem? t.tracks (find_track plain id1) ≡ some id0)
    × IsCurrent t id1
    × (t.sent ≡ Signal.track_moved id0 id1 ∷ plain.sent)
move_track_correct_example =
    move_track_correct plain plain-IsValid id0 id1 listed0 listed1 0 id1 refl refl id0-ne-id1

two_not_one : length plain.tracks ≢ 1
two_not_one e = omega (arith, e)

-- An empty list with no current track.
abbrev nothing : State
nothing = record plain { tracks = []; current_track = null }

handle_go_to_correct_example :
    (t : State) × (handle_go_to id0 plain ≡ done Reply.ok t)
    × (t.sent ≡ Signal.track_changed id0 ∷ Signal.go_to_track id0 ∷ [])
    × (find_track plain id0 < length ids → IsValid t × IsCurrent t id0)
    × (find_track plain id0 ≡ length ids → current t ≡ fault)
handle_go_to_correct_example = handle_go_to_correct id0 plain plain-IsValid

abbrev three_edits : List Edit
three_edits = Edit.move id0 id1 ∷ Edit.shuffle (λ xs. xs) true ∷ Edit.clear ∷ []

three_edits-AllAllowed : AllAllowed three_edits plain
unfolding AllAllowed Allowed
three_edits-AllAllowed =
    ((listed0, listed1, id0-ne-id1, λ e. cc), λ t e. (λ xs. Perm.refl xs, λ u f. (tt, λ w g. tt)))

edits_refine_collection_example :
    (t : State) × ((apply_each three_edits plain ≡ done tt t)
      × IsValid t
      × ChangesEach three_edits plain.tracks t.tracks)
edits_refine_collection_example =
    edits_refine_collection three_edits plain plain-IsValid three_edits-AllAllowed
