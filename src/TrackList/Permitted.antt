-- ===== src/TrackList/Permitted.antt =====
-- Whose requests add tracks.
use media_hub.Prelude.{
  ◌+◌, ◌<◌, ◌≡◌, ◌≢◌, refl, ap, ◌⊎◌, inl, inr, Bool, Bool-cases, true, false, ◌&&◌, Option, none,
  some, List, [], ◌∷◌, All, insert_at, if◌then◌else◌,
}
use media_hub.Apparmor.Uri.{has_newline}
use media_hub.Apparmor.Context.{Context}
use media_hub.Apparmor.Authenticator.{Verdict, authenticate, is_allowed}
use media_hub.Apparmor.Laws.{authenticate-permitted}
use media_hub.UriCheck.{Glib, UriCheck, is_valid_uri, set}
use media_hub.TrackList.State.{TrackId, UriType, State, Outcome, done, M, ◌>>◌, pure, size_max}
use media_hub.TrackList.Cursor.{find_track}
use media_hub.TrackList.Editing.{
  add_track_with_uri_at, add_tracks_with_uri_at, new_id, query_uri_for_track,
}
use media_hub.TrackList.Invariant.{IsValid}
use media_hub.TrackList.Current.{IsCurrent}
use media_hub.TrackList.AddTrack.{add_track_correct}
use media_hub.TrackList.Requests.{
  Reply, Handled, handle_add_track_with_uri_at, handle_add_tracks_with_uri_at, last_verdict,
  last_check,
}

-- The verdict on one uri.
abbrev allowed_by : Option Verdict → Bool
allowed_by none = false
allowed_by (some v) = is_allowed v

abbrev pub allows : Context → UriType → Bool
allows c track = allowed_by (authenticate c track)

abbrev is_empty : List UriType → Bool
is_empty [] = true
is_empty (x ∷ xs) = false

unfoldable pub allows_all : Context → List UriType → Bool
allows_all c [] = true
allows_all c (track ∷ rest) = allows c track && allows_all c rest

abbrev pub OneLine : UriType → Type 0
OneLine track = has_newline track ≡ false

answered_verdict :
    (c : Context) (track : UriType)
    → OneLine track
    → (v : Verdict) × (authenticate c track ≡ some v)
answered_verdict c track h = let (u, (v, (e, f, g))) = authenticate-permitted c track h in (v, f)

last_verdict_lem :
    (c : Context) (tracks : List UriType) (b : Bool)
    → All OneLine tracks
    → last_verdict c tracks b ≡ some (if is_empty tracks then b else allows_all c tracks)
unfolding last_verdict allows_all
last_verdict_lem c [] b h = refl
last_verdict_lem c (track ∷ rest) b h =
    let (v, e) = answered_verdict c track h.0 in
    elim (Bool-cases (is_allowed v)) [
      | inl a ↦ rw (e, a, last_verdict_lem c rest true h.1) (ap some (rest_allowed rest))
      | inr a ↦ rw (e, a) refl
    ]
  where
    rest_allowed :
        (xs : List UriType) → (if is_empty xs then true else allows_all c xs) ≡ allows_all c xs
    rest_allowed [] = refl
    rest_allowed (x ∷ xs) = refl

-- A request to add several uris, each of one line, adds all of them if the client may open every
-- one, and otherwise is refused and changes nothing; whether the files exist does not matter.
pub add_tracks_or_refuse :
    (g : Glib) (c : Context) (track : UriType) (rest : List UriType) (after : TrackId)
    (k : UriCheck) (s : State)
    → All OneLine (track ∷ rest)
    → (l : UriCheck) × (handle_add_tracks_with_uri_at g c (track ∷ rest) after k s
        ≡ Handled.answered l (
            if allows_all c (track ∷ rest)
            then (do add_tracks_with_uri_at (track ∷ rest) after; pure Reply.ok) s
            else done Reply.insufficient_permissions s))
unfolding handle_add_tracks_with_uri_at
add_tracks_or_refuse g c track rest after k s h = elim (Bool-cases (allows_all c (track ∷ rest))) [
  | inl a ↦
      (last_check g c (track ∷ rest) k, rw (last_verdict_lem c (track ∷ rest) false h, a) refl)
  | inr a ↦
      (last_check g c (track ∷ rest) k, rw (last_verdict_lem c (track ∷ rest) false h, a) refl)
]

then_reply :
    (m : M (Unit {0})) (r : Reply) (s t : State) → m s ≡ done tt t → (m >> pure r) s ≡ done r t
then_reply m r s t e =
    ap
      (λ o. elim o [
        | Outcome.done a x ↦ done r x
        | Outcome.threw f x ↦ Outcome.threw f x
        | Outcome.fault ↦ Outcome.fault
      ])
      e

-- A request to add one uri of one line, to a valid list with room for an id, is answered by an
-- error and changes nothing where a local file is not found or the client may not open it;
-- otherwise the list stays valid, the new track stands before `after` or last, answers with its
-- uri, and is current exactly if that was asked.
pub add_request_correct :
    (g : Glib) (c : Context) (track : UriType) (after current_id : TrackId) (make_current : Bool)
    (k : UriCheck) (s : State)
    → OneLine track
    → IsValid s
    → s.track_counter + 1 < size_max
    → IsCurrent s current_id
    → let l = set g track k in
      ((is_valid_uri l && allows c track ≡ false)
        × (r : Reply) × (r ≢ Reply.ok)
        × (handle_add_track_with_uri_at g c track after make_current k s
            ≡ Handled.answered l (done r s)))
      ⊎ ((is_valid_uri l && allows c track ≡ true)
          × (t : State) × (handle_add_track_with_uri_at g c track after make_current k s
              ≡ Handled.answered l (done Reply.ok t))
          × IsValid t
          × (t.tracks ≡ insert_at s.tracks (find_track s after) (new_id s))
          × (query_uri_for_track t (new_id s) ≡ track)
          × IsCurrent t (if make_current then new_id s else current_id))
unfolding handle_add_track_with_uri_at
add_request_correct g c track after current_id make_current k s h v room cur =
    let (x, e) = answered_verdict c track h in
    let (t, f, a, b, d, i) = add_track_correct track after current_id s v room cur make_current in
    elim (Bool-cases (is_valid_uri (set g track k))) [
      | inr n ↦ inl (rw n refl, Reply.uri_not_found, (λ q. cc), rw (e, n) refl)
      | inl y ↦ elim (Bool-cases (is_allowed x)) [
        | inr n ↦
            inl (rw (y, e, n) refl, Reply.insufficient_permissions, (λ q. cc), rw (e, y, n) refl)
        | inl m ↦ inr (
          rw (y, e, m) refl,
          t,
          rw (e, y, m)
              (ap (Handled.answered (set g track k))
                (then_reply (add_track_with_uri_at track after make_current) Reply.ok s t f)),
          a,
          b,
          d,
          i,
        )
      ]
    ]
