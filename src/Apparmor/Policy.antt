-- ===== src/Apparmor/Policy.antt =====
-- What the apparmor policy says, rule by rule.
use media_hub.Prelude.{
  ◌≡◌, refl, sym, ap, subst, ◌∙◌, ◌⊎◌, inl, inr, Bool, true, false, Bool-cases, ◌&&◌, ◌||◌, some,
  [], ◌∷◌, ◌++◌, Text, codes, text_eq, text_dec, text_eq_refl, decide_no, contains, starts_with,
  arith, ◌==◌,
}
use media_hub.Apparmor.Uri.{Uri, parse_uri, has_newline}
use media_hub.Apparmor.Context.{Context, profile_name}
use media_hub.Apparmor.Authenticator.{Verdict, authenticate, is_allowed}
use media_hub.Apparmor.Laws.{permitted, authenticate-permitted}

-- A test that says whether something holds.
abbrev pub Decides : Bool → Type 0 → Type 0
Decides b P = (b ≡ true → P) × (P → b ≡ true)

or-Decides : (a b : Bool) {P Q : Type 0} → Decides a P → Decides b Q → Decides (a || b) (P ⊎ Q)
or-Decides true b (f, g) (h, k) = ((λ e. inl (f refl)), λ z. refl)
or-Decides false b {P} {Q} (f, g) (h, k) = ((λ e. inr (h e)), back)
  where
    back : P ⊎ Q → b ≡ true
    back (inl p) = absurd (let e = g p in cc)
    back (inr q) = k q

and-Decides : (a b : Bool) {P Q : Type 0} → Decides a P → Decides b Q → Decides (a && b) (P × Q)
and-Decides true b (f, g) (h, k) = ((λ e. (f refl, h e)), λ z. k z.1)
and-Decides false b (f, g) (h, k) = ((λ e. absurd (cc)), λ z. g z.0)

text-Decides : (a b : Text) → Decides (text_eq a b) (a ≡ b)
unfolding text_eq
text-Decides a b = (sound, λ e. subst (λ t. text_eq a t ≡ true) e (text_eq_refl a))
  where
    sound : text_eq a b ≡ true → a ≡ b
    sound e = elim (text_dec a b) [
      | yes p ↦ p
      | no n ↦ absurd (let f = decide_no (text_dec a b) n in cc)
    ]

-- The text stands somewhere in the other one.
abbrev pub Within : Text → Text → Type 0
Within needle s = (before : Text) × ((after : Text) × (s ≡ before ++ (needle ++ after)))

starts_with_split : (n s : Text) → starts_with n s ≡ true → (after : Text) × (s ≡ n ++ after)
unfolding starts_with
starts_with_split [] s e = (s, refl)
starts_with_split (c ∷ cs) [] e = absurd (cc)
starts_with_split (c ∷ cs) (d ∷ ds) e = elim (Bool-cases (c == d)) [
  | inl same ↦
      let (r, q) = starts_with_split cs ds (ground arith) in let i : c ≡ d = ground arith in (r, cc)
  | inr other ↦ absurd (ground arith)
]

starts_with_append : (n after : Text) → starts_with n (n ++ after) ≡ true
unfolding starts_with
starts_with_append [] after = refl
starts_with_append (c ∷ cs) after = ground (arith, starts_with_append cs after)

contains-Within : (n s : Text) → contains n s ≡ true → Within n s
unfolding contains
contains-Within n [] e = let (r, q) = starts_with_split n [] e in ([], (r, q))
contains-Within n (d ∷ ds) e = elim (Bool-cases (starts_with n (d ∷ ds))) [
  | inl y ↦ let (r, q) = starts_with_split n (d ∷ ds) y in ([], (r, q))
  | inr z ↦ let (b, (r, q)) = contains-Within n ds (ground arith) in (d ∷ b, (r, ap (λ t. d ∷ t) q))
]

contains_append : (n before after : Text) → contains n (before ++ (n ++ after)) ≡ true
unfolding contains
contains_append n [] after = first (n ++ after) (starts_with_append n after)
  where
    first : (s : Text) → starts_with n s ≡ true → contains n s ≡ true
    first [] e = e
    first (c ∷ cs) e = rw e refl
contains_append n (d ∷ ds) after = ground (arith, contains_append n ds after)

contains-Decides : (n s : Text) → Decides (contains n s) (Within n s)
contains-Decides n s = (
  contains-Within n s,
  λ w. subst (λ t. contains n t ≡ true) (sym w.1.1) (contains_append n w.0 w.1.0),
)

infixl 2 ◌or◌
abbrev ◌or◌ : {a b : Bool} {P Q : Type 0} → Decides a P → Decides b Q → Decides (a || b) (P ⊎ Q)
◌or◌ {a} {b} p q = or-Decides a b p q

infixl 3 ◌and◌
abbrev ◌and◌ : {a b : Bool} {P Q : Type 0} → Decides a P → Decides b Q → Decides (a && b) (P × Q)
◌and◌ {a} {b} p q = and-Decides a b p q

-- A file of the package's own, or of the messaging app under its profile's name.
abbrev pub IsOwnFile : Context → Text → Type 0
IsOwnFile c path =
    Within (codes ".local/share/" ++ (c.package_name ++ codes "/")) path
    ⊎ Within (codes ".cache/" ++ (c.package_name ++ codes "/")) path

abbrev pub IsMessagingFile : Context → Text → Type 0
IsMessagingFile c path =
    (profile_name c ≡ codes "messaging-app")
    × (Within (codes ".local/share/com.ubuntu." ++ (profile_name c ++ codes "/")) path
        ⊎ Within (codes ".cache/com.ubuntu." ++ (profile_name c ++ codes "/")) path)

abbrev pub IsClickFile : Context → Text → Type 0
IsClickFile c path = Within (codes "opt/click.ubuntu.com/") path × Within c.package_name path

-- Sounds of the user interface, for the camera alone.
abbrev pub IsCameraSound : Context → Text → Type 0
IsCameraSound c path =
    (Within (codes "/system/media/audio/ui/") path
      ⊎ Within (codes "/android/system/media/audio/ui/") path)
    × (c.package_name ≡ codes "com.ubuntu.camera")

-- The music and gallery apps, the shell and the media players of the snaps.
abbrev pub IsMediaClient : Context → Type 0
IsMediaClient c =
    (((((c.package_name ≡ codes "com.ubuntu.music") ⊎ (c.package_name ≡ codes "com.ubuntu.gallery"))
          ⊎ (profile_name c ≡ codes "unity8-dash"))
        ⊎ (profile_name c ≡ codes "snap.unity8-session.unity8-session"))
      ⊎ (profile_name c ≡ codes "snap.mediaplayer-app.mediaplayer-app"))
    ⊎ (profile_name c ≡ codes "snap.music-app.music-app")

abbrev pub IsMediaFile : Text → Type 0
IsMediaFile path =
    (Within (codes "Music/") path ⊎ Within (codes "Videos/") path) ⊎ Within (codes "/media") path

abbrev pub IsRemote : Text → Type 0
IsRemote scheme = ((scheme ≡ codes "http") ⊎ (scheme ≡ codes "https")) ⊎ (scheme ≡ codes "rtsp")

-- The rules, in no order.
abbrev pub Permits : Context → Uri → Type 0
Permits c u =
    (((((IsOwnFile c u.path ⊎ IsMessagingFile c u.path) ⊎ IsClickFile c u.path)
          ⊎ IsCameraSound c u.path)
        ⊎ (IsMediaClient c × IsMediaFile u.path))
      ⊎ Within (codes "/usr/share/sounds") u.path)
    ⊎ IsRemote u.scheme

permitted-Permits : (c : Context) (u : Uri) → Decides (permitted c u) (Permits c u)
permitted-Permits c u =
    let within : (n : Text) → Decides (contains n u.path) (Within n u.path) =
      λ n. contains-Decides n u.path in
    let profile : (t : Text) → Decides (text_eq (profile_name c) t) (profile_name c ≡ t) =
      text-Decides (profile_name c) in
    let package_is : (t : Text) → Decides (text_eq c.package_name t) (c.package_name ≡ t) =
      text-Decides c.package_name in
    let scheme_is : (t : Text) → Decides (text_eq u.scheme t) (u.scheme ≡ t) =
      text-Decides u.scheme in
    (within (codes ".local/share/" ++ (c.package_name ++ codes "/"))
      or within (codes ".cache/" ++ (c.package_name ++ codes "/")))
    or (profile (codes "messaging-app")
        and (within (codes ".local/share/com.ubuntu." ++ (profile_name c ++ codes "/"))
            or within (codes ".cache/com.ubuntu." ++ (profile_name c ++ codes "/"))))
    or (within (codes "opt/click.ubuntu.com/") and within c.package_name)
    or ((within (codes "/system/media/audio/ui/")
          or within (codes "/android/system/media/audio/ui/"))
        and package_is (codes "com.ubuntu.camera"))
    or ((package_is (codes "com.ubuntu.music")
          or package_is (codes "com.ubuntu.gallery")
          or profile (codes "unity8-dash")
          or profile (codes "snap.unity8-session.unity8-session")
          or profile (codes "snap.mediaplayer-app.mediaplayer-app")
          or profile (codes "snap.music-app.music-app"))
        and (within (codes "Music/") or within (codes "Videos/") or within (codes "/media")))
    or within (codes "/usr/share/sounds")
    or (scheme_is (codes "http") or scheme_is (codes "https") or scheme_is (codes "rtsp"))

-- A uri of one line is always answered: it is allowed exactly if the client is unconfined, or if a rule permits what the uri parses to.
pub authenticate_policy :
    (c : Context) (uri : Text)
    → has_newline uri ≡ false
    → (u : Uri) × ((v : Verdict) × ((parse_uri uri ≡ some u)
          × (authenticate c uri ≡ some v)
          × Decides (is_allowed v) ((c.is_unconfined ≡ true) ⊎ Permits c u)))
authenticate_policy c uri h =
    let (u, (v, (e, a, q))) = authenticate-permitted c uri h in
    let d : Decides (c.is_unconfined || permitted c u) ((c.is_unconfined ≡ true) ⊎ Permits c u) =
      or-Decides c.is_unconfined (permitted c u) ((λ x. x), λ x. x) (permitted-Permits c u) in
    (u, (v, (e, a, ((λ x. d.0 (sym q ∙ x)), λ z. q ∙ d.1 z))))
