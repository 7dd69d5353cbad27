-- ===== src/Metadata/Current.antt =====
-- The metadata of the current track, as MPRIS shows it: src/core/media/player_implementation.cpp.
use media_hub.Prelude.{
  ℕ, ◌/◌, ◌≡◌, refl, sym, subst, ◌∙◌, ap, Bool, true, false, ◌&&◌, ◌||◌, Option, none, some, [],
  ◌∷◌, ◌++◌, Text, codes, text_dec, text_eq, decimal, decimal-cons, split_last, starts_with,
  lookup-put, lookup-put_other, if◌then◌else◌,
}
use media_hub.Metadata.{
  MetaData, get, set, is_set, text_is_set, set_track_id, set_art_url, set_track_length, image_key,
  preview_image_key, art_url_key, length_key, track_id_key,
}

abbrev is_true : Option Text → Bool
is_true none = false
is_true (some t) = text_eq t (codes "true")

abbrev starts_with_slash : Text → Bool
starts_with_slash uri = starts_with (codes "/") uri

-- Whether the thumbnailer can make an image: of a local file that has one or is a video.
unfoldable pub get_uri_for_album_artwork : Bool → Text → MetaData → Text
get_uri_for_album_artwork is_video_source uri md =
    if (is_true (get preview_image_key md) || is_true (get image_key md) || is_video_source)
      && (starts_with (codes "file://") uri || starts_with_slash uri)
    then codes "image://thumbnailer/" ++ uri
    else codes "file:///usr/share/icons/suru/apps/scalable/music-app-symbolic.svg"

-- Behind the last slash, or all of an id without one.
abbrev behind : Text → Option (Text × Text) → Text
behind id none = id
behind id (some (before, after)) = after

abbrev set_id_if_any : Text → MetaData → MetaData
set_id_if_any [] md = md
set_id_if_any (c ∷ cs) md = set_track_id (codes "/org/mpris/MediaPlayer2/Track/" ++ c ∷ cs) md

abbrev with_id : Text → MetaData → MetaData
with_id [] md = md
with_id (c ∷ cs) md = set_id_if_any (behind (c ∷ cs) (split_last b'/' (c ∷ cs))) md

-- `set` where the key is not set yet.
abbrev unless_set : Text → (MetaData → MetaData) → MetaData → MetaData
unless_set key f md = if is_set key md then md else f md

-- `current_track` is the track list's current id, and `duration` the engine's, in nanoseconds.
unfoldable pub update_mpris_metadata : Bool → Text → ℕ → Text → MetaData → MetaData
unfolding get_uri_for_album_artwork
update_mpris_metadata is_video_source current_track duration uri md =
    let with_track_id = unless_set track_id_key (with_id current_track) md in
    let with_art =
      unless_set art_url_key (λ m. set_art_url (get_uri_for_album_artwork is_video_source uri m) m)
        with_track_id in
    unless_set length_key (set_track_length (decimal (duration / 1000))) with_art

-- A step that only sets a key that is not set.
abbrev IsFilling : MetaData → MetaData → Type 0
IsFilling md more = (key : Text) → is_set key md ≡ true → get key more ≡ get key md

put-IsFilling :
    (key value : Text) (md : MetaData) → is_set key md ≡ false → IsFilling md (set key value md)
unfolding is_set
put-IsFilling key value md n k h =
    lookup-put_other text_dec k key value md
      λ e. let q : is_set k md ≡ is_set key md = ap (λ j. is_set j md) e in cc

unless_set-IsFilling :
    (key : Text) (f : MetaData → MetaData) (md : MetaData)
    → (is_set key md ≡ false → IsFilling md (f md))
    → IsFilling md (unless_set key f md)
unless_set-IsFilling key f md h = go (is_set key md) refl
  where
    go : (b : Bool) → is_set key md ≡ b → IsFilling md (if b then md else f md)
    go true e = λ k s. refl
    go false e = h e

trans-IsFilling : (a b c : MetaData) → IsFilling a b → IsFilling b c → IsFilling a c
unfolding is_set
trans-IsFilling a b c f g k h = let e = f k h in g k (ap text_is_set e ∙ h) ∙ e

with_id-IsFilling :
    (current_track : Text) (md : MetaData)
    → is_set track_id_key md ≡ false
    → IsFilling md (with_id current_track md)
unfolding set_track_id
with_id-IsFilling [] md n = λ k h. refl
with_id-IsFilling (c ∷ cs) md n = go (behind (c ∷ cs) (split_last b'/' (c ∷ cs)))
  where
    go : (id : Text) → IsFilling md (set_id_if_any id md)
    go [] = λ k h. refl
    go (d ∷ ds) = put-IsFilling track_id_key _ md n

-- A key that is set by a text that is not empty.
put-set : (key : Text) (c : ℕ) (cs : Text) (md : MetaData) → is_set key (set key (c ∷ cs) md) ≡ true
unfolding is_set
put-set key c cs md = ap text_is_set (lookup-put text_dec key (c ∷ cs) md)

-- Set already, or by the step.
filled :
    (key : Text) (f : MetaData → MetaData) (md : MetaData)
    → is_set key (f md) ≡ true
    → is_set key (unless_set key f md) ≡ true
filled key f md h = go (is_set key md) refl
  where
    go : (b : Bool) → is_set key md ≡ b → is_set key (if b then md else f md) ≡ true
    go true e = e
    go false e = h

artwork-cons :
    (is_video_source : Bool) (uri : Text) (md : MetaData)
    → (c : ℕ) × ((cs : Text) × (get_uri_for_album_artwork is_video_source uri md ≡ c ∷ cs))
unfolding get_uri_for_album_artwork
artwork-cons is_video_source uri md = go _
  where
    go :
        (b : Bool)
        → (c : ℕ) × ((cs : Text) × ((if b
                then codes "image://thumbnailer/" ++ uri
                else codes "file:///usr/share/icons/suru/apps/scalable/music-app-symbolic.svg")
              ≡ c ∷ cs))
    go true = (b'i', (_, refl))
    go false = (b'f', (_, refl))

kept-set : (key : Text) (a b : MetaData) → IsFilling a b → is_set key a ≡ true → is_set key b ≡ true
unfolding is_set
kept-set key a b f h = ap text_is_set (f key h) ∙ h

-- Whatever is set in the metadata of the engine stays as it is in the metadata that MPRIS shows, and the artwork and the length are always set there.
pub update_mpris_metadata_correct :
    (is_video_source : Bool) (current_track : Text) (duration : ℕ) (uri : Text) (md : MetaData)
    → let shown = update_mpris_metadata is_video_source current_track duration uri md in
      ((key : Text) → is_set key md ≡ true → get key shown ≡ get key md)
      × (is_set art_url_key shown ≡ true)
      × (is_set length_key shown ≡ true)
unfolding update_mpris_metadata set_art_url set_track_length
update_mpris_metadata_correct is_video_source current_track duration uri md =
    let art : MetaData → MetaData =
      λ m. set_art_url (get_uri_for_album_artwork is_video_source uri m) m in
    let a = unless_set track_id_key (with_id current_track) md in
    let b = unless_set art_url_key art a in
    let fa =
      unless_set-IsFilling track_id_key (with_id current_track) md
        (with_id-IsFilling current_track md) in
    let fb = unless_set-IsFilling art_url_key art a (put-IsFilling art_url_key _ a) in
    let fc =
      unless_set-IsFilling length_key (set_track_length (decimal (duration / 1000))) b
        (put-IsFilling length_key _ b) in
    let shown = unless_set length_key (set_track_length (decimal (duration / 1000))) b in
    let (u, (us, eu)) = artwork-cons is_video_source uri a in
    let (d, (ds, ed)) = decimal-cons (duration / 1000) in
    let has_art : is_set art_url_key (art a) ≡ true =
      subst (λ t. is_set art_url_key (set art_url_key t a) ≡ true) (sym eu)
        (put-set art_url_key u us a) in
    let has_length : is_set length_key (set_track_length (decimal (duration / 1000)) b) ≡ true =
      subst (λ t. is_set length_key (set length_key t b) ≡ true) (sym ed)
        (put-set length_key d ds b) in
    (
      trans-IsFilling md b shown (trans-IsFilling md a b fa fb) fc,
      kept-set art_url_key b shown fc (filled art_url_key art a has_art),
      filled length_key (set_track_length (decimal (duration / 1000))) b has_length,
    )
