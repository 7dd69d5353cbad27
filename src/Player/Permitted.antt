-- ===== src/Player/Permitted.antt =====
-- Whose requests open a uri.
use media_hub.Prelude.{◌≡◌, ◌≢◌, refl, ◌⊎◌, inl, inr, Bool-cases, true, false, ◌&&◌, [], Bool}
use media_hub.Apparmor.Context.{Context}
use media_hub.Apparmor.Authenticator.{is_allowed}
use media_hub.Apparmor.Laws.{authenticate-permitted}
use media_hub.UriCheck.{Glib, UriCheck, is_valid_uri, set}
use media_hub.TrackList.State.{UriType}
use media_hub.TrackList.Permitted.{OneLine, allows}
use media_hub.Player.Glue.{Player, Pipeline}
use media_hub.Player.Opening.{IsOpened, open_uri_correct}
use media_hub.Player.Requests.{OpenReply, Opened, handle_open_uri}

-- An answer by an error.
abbrev pub IsRefusal : OpenReply → Type 0
IsRefusal r = (b : Bool) → r ≢ OpenReply.result b

-- A request to open a uri of one line that is not empty is answered by an error and changes nothing where a local file is not
-- found or the client may not open it; otherwise it is answered by success, and the player has that uri alone.
pub open_request_correct :
    (p : Pipeline) (g : Glib) (c : Context) (uri : UriType) (k : UriCheck) (s : Player)
    → OneLine uri
    → uri ≢ []
    → let l = set g uri k in
      ((is_valid_uri l && allows c uri ≡ false)
        × (r : OpenReply) × IsRefusal r
        × (handle_open_uri p g c uri k s ≡ Opened.answered l r s))
      ⊎ ((is_valid_uri l && allows c uri ≡ true)
          × (t : Player) × (handle_open_uri p g c uri k s
              ≡ Opened.answered l (OpenReply.result true) t)
          × IsOpened uri s t)
unfolding handle_open_uri
open_request_correct p g c uri k s h ne =
    let (u, (x, (a, e, b))) = authenticate-permitted c uri h in
    let (t, f, q) = open_uri_correct p uri s ne in
    elim (Bool-cases (is_valid_uri (set g uri k))) [
      | inr n ↦ inl (rw n refl, OpenReply.uri_not_found, (λ d i. cc), rw (e, n) refl)
      | inl y ↦ elim (Bool-cases (is_allowed x)) [
        | inr n ↦ inl (
          rw (y, e, n) refl,
          OpenReply.insufficient_apparmor_permissions,
          (λ d i. cc),
          rw (e, y, n) refl,
        )
        | inl m ↦ inr (rw (y, e, m) refl, t, rw (e, y, m, f) refl, q)
      ]
    ]
