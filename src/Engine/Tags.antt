-- ===== src/Engine/Tags.antt =====
-- The tags of the playbin as the metadata of the current track: on_tag_available of src/core/media/gstreamer/engine.cpp.
use media_hub.Prelude.{
  text_eq_refl, ◌≡◌, refl, sym, ap, ◌∙◌, List, [], ◌∷◌, ◌++◌, Text, text_eq, if◌then◌else◌,
}
use media_hub.Metadata.{MetaData}
use media_hub.Metadata.Extractor.{TagValue}
use media_hub.Metadata.Extractor as Extractor

abbrev pub TagList : Type 0
TagList = List (Text × TagValue)

-- The property track_meta_data: a uri and what is known of it. `uri` is that of the playbin.
unfoldable pub on_tag_available : Text → TagList → Text × MetaData → Text × MetaData
on_tag_available uri tags (old, md) =
    (uri, Extractor.on_tag_available tags (if text_eq uri old then md else []))

-- The tag messages that come while the playbin has one uri.
unfoldable pub on_tags : Text → List TagList → Text × MetaData → Text × MetaData
unfolding on_tag_available
on_tags uri [] s = s
on_tags uri (tags ∷ rest) s = on_tags uri rest (on_tag_available uri tags s)

abbrev pub all_tags : List TagList → TagList
all_tags [] = []
all_tags (tags ∷ rest) = tags ++ all_tags rest

on_tag_available-append :
    (xs ys : TagList) (md : MetaData)
    → Extractor.on_tag_available (xs ++ ys) md
      ≡ Extractor.on_tag_available ys (Extractor.on_tag_available xs md)
unfolding Extractor.on_tag_available
on_tag_available-append [] ys md = refl
on_tag_available-append ((tag, v) ∷ xs) ys md = on_tag_available-append xs ys _

accumulate :
    (uri : Text) (messages : List TagList) (md : MetaData)
    → on_tags uri messages (uri, md) ≡ (uri, Extractor.on_tag_available (all_tags messages) md)
unfolding on_tags Extractor.on_tag_available
accumulate uri [] md = refl
accumulate uri (tags ∷ rest) md =
    ap (λ b. on_tags uri rest (uri, Extractor.on_tag_available tags (if b then md else [])))
      (text_eq_refl uri)
    ∙ accumulate uri rest (Extractor.on_tag_available tags md)
    ∙ ap (λ m. (uri, m)) (sym (on_tag_available-append tags (all_tags rest) md))

-- However the tags of a uri are spread over messages, at least one, the metadata is what all of them in their order add: to what was known of this very uri, and to nothing where another uri was played before.
pub tags_accumulate :
    (uri old : Text) (md : MetaData) (tags : TagList) (rest : List TagList)
    → on_tags uri (tags ∷ rest) (old, md) ≡ (
      uri,
      Extractor.on_tag_available (tags ++ all_tags rest) (if text_eq uri old then md else []),
    )
unfolding on_tags
tags_accumulate uri old md tags rest =
    let known = if text_eq uri old then md else [] in
    accumulate uri rest (Extractor.on_tag_available tags known)
    ∙ ap (λ m. (uri, m)) (sym (on_tag_available-append tags (all_tags rest) known))
