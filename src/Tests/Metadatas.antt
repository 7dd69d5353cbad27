-- ===== src/Tests/Metadatas.antt =====
-- Metadata at concrete inputs: a track of an album, with its length.
use media_hub.Prelude.{
  ◌≡◌, refl, true, false, Option, some, none, List, [], ◌∷◌, Text, codes, text_dec, text_eq, lookup,
  if◌then◌else◌, ℕ_discrete, put,
}
use media_hub.Prelude.Int.{ℤ, pos}
use media_hub.Metadata.{
  MetaData, album_key, title_key, length_key, art_url_key, get, is_set, set_album,
}
use media_hub.Metadata.Extractor.{TagValue, on_tag_available}
use media_hub.Metadata.Current.{update_mpris_metadata, update_mpris_metadata_correct}
use media_hub.Metadata.Wire.{Variant, encode_meta_data, decode_meta_data}
use media_hub.Engine.Tags.{on_tags, tags_accumulate}
use media_hub.Metadata.RoundTrip.{HasDistinctKeys, HasLengths, meta_data_round_trip}

abbrev song : MetaData
song = (album_key, codes "Blue") ∷ (title_key, codes "River") ∷ (length_key, codes "7") ∷ []

abbrev seven : Text → Option ℤ
seven t = if text_eq t (codes "7") then some (pos 7) else none

song-HasDistinctKeys : HasDistinctKeys song
unfolding HasDistinctKeys lookup text_dec ℕ_discrete
song-HasDistinctKeys = (refl, (refl, (refl, tt)))

song-HasLengths : HasLengths seven song
unfolding HasLengths text_eq text_dec ℕ_discrete
song-HasLengths = ((λ e. absurd (cc)), ((λ e. absurd (cc)), ((λ e. (pos 7, refl)), tt)))

meta_data_round_trip_example :
    (entries : List (Text × Variant)) × ((encode_meta_data seven song ≡ some entries)
      × ((old : MetaData) → decode_meta_data entries old ≡ some (set_album (codes "Blue") old)))
unfolding lookup text_dec ℕ_discrete
meta_data_round_trip_example = meta_data_round_trip seven song song-HasDistinctKeys song-HasLengths

update_mpris_metadata_correct_example :
    let shown = update_mpris_metadata false (codes "/core/track/2") 7000 (codes "file:///a") song in
    ((key : Text) → is_set key song ≡ true → get key shown ≡ get key song)
    × (is_set art_url_key shown ≡ true)
    × (is_set length_key shown ≡ true)
update_mpris_metadata_correct_example =
    update_mpris_metadata_correct false (codes "/core/track/2") 7000 (codes "file:///a") song

-- A date is written where the comment is, and as an empty text.
date_drops_comment :
    on_tag_available
      ((codes "comment", TagValue.string (some (codes "live")))
        ∷ (codes "date", TagValue.other_type)
        ∷ [])
      []
    ≡ (codes "xesam:comment", []) ∷ []
unfolding on_tag_available lookup put text_dec text_eq ℕ_discrete
date_drops_comment = refl

tags_accumulate_example :
    on_tags
      (codes "file:///b")
      (((codes "title", TagValue.string (some (codes "River"))) ∷ [])
        ∷ ((codes "album", TagValue.string (some (codes "Blue"))) ∷ [])
        ∷ [])
      (codes "file:///a", song)
    ≡ (codes "file:///b", (title_key, codes "River") ∷ (album_key, codes "Blue") ∷ [])
unfolding on_tag_available lookup put text_dec text_eq ℕ_discrete
tags_accumulate_example =
    tags_accumulate (codes "file:///b") (codes "file:///a") song
      ((codes "title", TagValue.string (some (codes "River"))) ∷ [])
      (((codes "album", TagValue.string (some (codes "Blue"))) ∷ []) ∷ [])
