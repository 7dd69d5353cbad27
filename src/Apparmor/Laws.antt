-- ===== src/Apparmor/Laws.antt =====
-- What the apparmor checks promise.
use media_hub.Prelude.{
  ℕ, ◌≡◌, ◌≢◌, refl, ap, decide_no, Bool, true, false, Bool-cases, ◌&&◌, ◌||◌, inl, inr, none, some,
  [], ◌∷◌, ◌++◌, Text, text_eq, text_dec, split_last, if◌then◌else◌, arith,
}
use media_hub.Apparmor.Uri.{Uri, parse_uri, has_newline}
use media_hub.Apparmor.UriLaws.{parse_uri_total}
use media_hub.Apparmor.Context.{
  Context, make_context, process_context_name, profile_name, unconfined, match_two, match_three,
  by_trust_store, by_app_id, is_trusted_name, unity_name, unity8_snap_name, mediaplayer_snap_name,
  music_snap_name, messaging_app,
}
use media_hub.Apparmor.Authenticator.{
  Verdict, judge, authenticate, is_allowed, in_own_directory, in_messaging_directory, in_own_opt,
  is_camera_sound, is_media_client, in_media_directory, is_system_sound, is_streaming,
}

-- The policy as one condition, in no order.
abbrev pub permitted : Context → Uri → Bool
permitted c u =
    in_own_directory c u
    || in_messaging_directory c u
    || in_own_opt c u
    || is_camera_sound c u
    || is_media_client c && in_media_directory u
    || is_system_sound u
    || is_streaming u

chain :
    (a b d e f g h : Bool)
    → is_allowed (
        if a
        then Verdict.own_directory
        else if b
        then Verdict.messaging_directory
        else if d
        then Verdict.own_opt
        else if e
        then Verdict.camera_sound
        else if f
        then Verdict.media_directory
        else if g
        then Verdict.system_sound
        else if h
        then Verdict.streaming
        else Verdict.not_allowed)
      ≡ (a || b || d || e || f || g || h)
chain true b d e f g h = refl
chain false true d e f g h = refl
chain false false true e f g h = refl
chain false false false true f g h = refl
chain false false false false true g h = refl
chain false false false false false true h = refl
chain false false false false false false true = refl
chain false false false false false false false = refl

-- The chain of tests allows what one of the rules permits, and nothing else.
judge-policy : (c : Context) (u : Uri) → is_allowed (judge c u) ≡ permitted c u
unfolding judge
judge-policy c u =
    chain (in_own_directory c u) (in_messaging_directory c u) (in_own_opt c u) (is_camera_sound c u)
      (is_media_client c && in_media_directory u) (is_system_sound u) (is_streaming u)

with_confined :
    (v : Verdict) {p : Bool} (b : Bool) → b ≡ false → is_allowed v ≡ p → is_allowed v ≡ (b || p)
with_confined v b e h = rw e h

-- A uri of one line is always answered: an unconfined client is allowed, another one exactly if
-- one of the rules permits it.
pub authenticate-permitted :
    (c : Context) (uri : Text)
    → has_newline uri ≡ false
    → (u : Uri) × ((v : Verdict) × ((parse_uri uri ≡ some u)
          × (authenticate c uri ≡ some v)
          × (is_allowed v ≡ (c.is_unconfined || permitted c u))))
unfolding authenticate
authenticate-permitted c uri h =
    let (u, (e, _, _, _, _)) = parse_uri_total uri h in
    elim (Bool-cases c.is_unconfined) [
      | inl free ↦ (u, (Verdict.is_unconfined, (e, rw free refl, rw free refl)))
      | inr confined ↦ (
        u,
        (
          judge c u,
          (
            e,
            rw (confined, e) refl,
            with_confined (judge c u) c.is_unconfined confined (judge-policy c u),
          ),
        ),
      )
    ]

-- No occurrence of a character.
abbrev pub Lacks : ℕ → Text → Type 0
Lacks c [] = Unit
Lacks c (d ∷ ds) = (c ≢ d) × Lacks c ds

split_last-Lacks : (c : ℕ) (ys : Text) → Lacks c ys → split_last c ys ≡ none
unfolding split_last
split_last-Lacks c [] l = refl
split_last-Lacks c (d ∷ ds) l = ground (arith, split_last-Lacks c ds l.1)

split_last-append :
    (c : ℕ) (xs ys : Text) → Lacks c ys → split_last c (xs ++ c ∷ ys) ≡ some (xs, ys)
unfolding split_last
split_last-append c [] ys l = ground (arith, split_last-Lacks c ys l)
split_last-append c (x ∷ xs) ys l = ground (arith, split_last-append c xs ys l)

not_named :
    (s t : Text) (x : Text × Text)
    → split_last b'_' s ≡ some x
    → split_last b'_' t ≡ none
    → text_eq s t ≡ false
unfolding text_eq
not_named s t x e f = decide_no (text_dec s t) clash
  where
    clash : ¬ (s ≡ t)
    clash q = let g : split_last b'_' s ≡ split_last b'_' t = ap (split_last b'_') q in cc

match_three_lem :
    (s before version : Text) (x : Text × Text)
    → has_newline s ≡ false
    → split_last b'_' s ≡ some (before, version)
    → split_last b'_' before ≡ some x
    → match_three s ≡ some x
unfolding match_two match_three
match_three_lem s before version x h e f = ground arith

process_app_id :
    (s pkg app version before : Text)
    → is_trusted_name s ≡ false
    → has_newline s ≡ false
    → split_last b'_' s ≡ some (before, version)
    → split_last b'_' before ≡ some (pkg, app)
    → process_context_name s
      ≡ record { has_package_name = true; groups = some (pkg, app); package_name = pkg }
unfolding process_context_name by_trust_store by_app_id
process_app_id s pkg app version before t h e f =
    rw (t, match_three_lem s before version (pkg, app) h e f)

no_match :
    {a b c d e : Bool}
    → a ≡ false
    → b ≡ false
    → c ≡ false
    → d ≡ false
    → e ≡ false
    → (a || b || c || d || e) ≡ false
no_match p q r t u = rw (p, q, r, t, u)

-- A profile name of the form `package_app_version` is accepted; it names that package, and the
-- profile that the trust store knows.
pub make_context_app_id :
    (pkg app version : Text)
    → Lacks b'_' app
    → Lacks b'_' version
    → has_newline ((pkg ++ b'_' ∷ app) ++ b'_' ∷ version) ≡ false
    → (c : Context) × (make_context ((pkg ++ b'_' ∷ app) ++ b'_' ∷ version) ≡ some c)
      × (c.package_name ≡ pkg)
      × (profile_name c ≡ pkg ++ b'-' ∷ app)
      × (c.is_unconfined ≡ false)
unfolding make_context profile_name split_last
make_context_app_id pkg app version la lv one =
    let s = (pkg ++ b'_' ∷ app) ++ b'_' ∷ version in
    let e = split_last-append b'_' (pkg ++ b'_' ∷ app) version lv in
    let u = not_named s unity_name _ e refl in
    let w = not_named s unity8_snap_name _ e refl in
    let free = not_named s unconfined _ e refl in
    let trusted =
      no_match (not_named s messaging_app _ e refl) u w (not_named s mediaplayer_snap_name _ e refl)
        (not_named s music_snap_name _ e refl) in
    let p =
      process_app_id s pkg app version (pkg ++ b'_' ∷ app) trusted one e
        (split_last-append b'_' pkg app la) in
    (
      record {
        name = s;
        is_unconfined = false;
        is_unity = false;
        has_package_name = true;
        groups = some (pkg, app);
        package_name = pkg;
      },
      rw (p, free, u, w),
      refl,
      refl,
      refl,
    )
