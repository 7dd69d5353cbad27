-- ===== src/Metadata/RoundTrip.antt =====
-- What arrives of what is sent.
use media_hub.Prelude.{
  ℕ, ◌<◌, ◌≡◌, ◌≢◌, refl, ap, ◌∙◌, true, false, Option, none, some, List, [], ◌∷◌, Text, text_dec,
  text_eq, decide_no, lookup, get_elem?-lt, if_neg, sym, subst, Bool-cases, inl, inr, ℕ_discrete,
  arith,
}
use media_hub.Prelude.Int.{ℤ}
use media_hub.Media.{PlaybackStatus, LoopStatus, AudioStreamRole, PlayerError}
use media_hub.Metadata.{MetaData, album_key, get, set_album}
use media_hub.Metadata.Wire.{
  Variant, encode_value, encode_meta_data, decode_meta_data, decode_entry, is_hidden, is_length,
  ◌read◌, encode_playback_status, decode_playback_status, statuses, encode_loop_status,
  decode_loop_status, loops, encode_audio_stream_role, decode_audio_stream_role, roles,
  encode_error, decode_error, errors,
}

-- No key twice, as in a map.
unfoldable pub HasDistinctKeys : MetaData → Type 0
HasDistinctKeys [] = Unit
HasDistinctKeys ((key, value) ∷ md) = (lookup text_dec key md ≡ none) × HasDistinctKeys md

-- Each length that is not empty is a number.
unfoldable pub HasLengths : (Text → Option ℤ) → MetaData → Type 0
HasLengths lexical_cast [] = Unit
HasLengths lexical_cast ((key, value) ∷ md) =
    (is_length key value ≡ true → (n : ℤ) × (lexical_cast value ≡ some n))
    × HasLengths lexical_cast md

abbrev with_album : Option Text → MetaData → MetaData
with_album none md = md
with_album (some t) md = set_album t md

-- Each enumerator has a number below the count and comes back from it, and each of these numbers is read as an enumerator.
abbrev pub IsCodec : {A : Type 0} → ℕ → (A → ℕ) → (ℕ → Option A) → Type 0
IsCodec {A} n encode decode =
    ((a : A) → (encode a < n) × (decode (encode a) ≡ some a))
    × ((k : ℕ) → k < n → (a : A) × (decode k ≡ some a))

status-IsCodec : IsCodec 5 encode_playback_status decode_playback_status
unfolding encode_playback_status decode_playback_status
status-IsCodec = (go, λ k h. get_elem?-lt statuses k h)
  where
    go :
        (a : PlaybackStatus)
        → (encode_playback_status a < 5)
          × (decode_playback_status (encode_playback_status a) ≡ some a)
    go PlaybackStatus.null = (omega arith, refl)
    go PlaybackStatus.ready = (omega arith, refl)
    go PlaybackStatus.playing = (omega arith, refl)
    go PlaybackStatus.paused = (omega arith, refl)
    go PlaybackStatus.stopped = (omega arith, refl)

loop-IsCodec : IsCodec 3 encode_loop_status decode_loop_status
unfolding encode_loop_status decode_loop_status
loop-IsCodec = (go, λ k h. get_elem?-lt loops k h)
  where
    go :
        (a : LoopStatus)
        → (encode_loop_status a < 3) × (decode_loop_status (encode_loop_status a) ≡ some a)
    go LoopStatus.none = (omega arith, refl)
    go LoopStatus.track = (omega arith, refl)
    go LoopStatus.playlist = (omega arith, refl)

role-IsCodec : IsCodec 4 encode_audio_stream_role decode_audio_stream_role
unfolding encode_audio_stream_role decode_audio_stream_role
role-IsCodec = (go, λ k h. get_elem?-lt roles k h)
  where
    go :
        (a : AudioStreamRole)
        → (encode_audio_stream_role a < 4)
          × (decode_audio_stream_role (encode_audio_stream_role a) ≡ some a)
    go AudioStreamRole.alarm = (omega arith, refl)
    go AudioStreamRole.alert = (omega arith, refl)
    go AudioStreamRole.multimedia = (omega arith, refl)
    go AudioStreamRole.phone = (omega arith, refl)

error-IsCodec : IsCodec 6 encode_error decode_error
unfolding encode_error decode_error
error-IsCodec = (go, λ k h. get_elem?-lt errors k h)
  where
    go : (a : PlayerError) → (encode_error a < 6) × (decode_error (encode_error a) ≡ some a)
    go PlayerError.no_error = (omega arith, refl)
    go PlayerError.resource_error = (omega arith, refl)
    go PlayerError.format_error = (omega arith, refl)
    go PlayerError.network_error = (omega arith, refl)
    go PlayerError.access_denied_error = (omega arith, refl)
    go PlayerError.service_missing_error = (omega arith, refl)

-- The statuses, the loop statuses, the audio roles and the errors come back from the bus as they were sent, and each number below the count of their enumerators is read as one.
pub enumerations-IsCodec :
    IsCodec 5 encode_playback_status decode_playback_status
    × IsCodec 3 encode_loop_status decode_loop_status
    × IsCodec 4 encode_audio_stream_role decode_audio_stream_role
    × IsCodec 6 encode_error decode_error
enumerations-IsCodec = (status-IsCodec, loop-IsCodec, role-IsCodec, error-IsCodec)

abbrev Arrives : (Text → Option ℤ) → MetaData → Type 0
Arrives lexical_cast md =
    (entries : List (Text × Variant)) × ((encode_meta_data lexical_cast md ≡ some entries)
      × ((old : MetaData)
          → decode_meta_data entries old ≡ some (with_album (get album_key md) old)))

lookup-skip :
    (key value : Text) (md : MetaData)
    → key ≢ album_key
    → get album_key ((key, value) ∷ md) ≡ get album_key md
unfolding lookup
lookup-skip key value md n = if_neg (text_dec key album_key) n _ _

sent :
    (lexical_cast : Text → Option ℤ) (key value : Text) (v : Variant) (md : MetaData)
    (entries : List (Text × Variant))
    → is_hidden key ≡ false
    → encode_value lexical_cast key value ≡ some v
    → encode_meta_data lexical_cast md ≡ some entries
    → encode_meta_data lexical_cast ((key, value) ∷ md) ≡ some ((key, v) ∷ entries)
unfolding encode_meta_data
sent lexical_cast key value v md entries h ev e = ground arith

hidden-Arrives :
    (lexical_cast : Text → Option ℤ) (key value : Text) (md : MetaData)
    → is_hidden key ≡ true
    → key ≢ album_key
    → Arrives lexical_cast md
    → Arrives lexical_cast ((key, value) ∷ md)
unfolding encode_meta_data
hidden-Arrives lexical_cast key value md h n (entries, (e, d)) = (
  entries,
  (
    ground arith,
    λ old. d old ∙ ap (λ o. some (with_album o old)) (sym (lookup-skip key value md n)),
  ),
)

other-Arrives :
    (lexical_cast : Text → Option ℤ) (key value : Text) (v : Variant) (md : MetaData)
    → is_hidden key ≡ false
    → key ≢ album_key
    → encode_value lexical_cast key value ≡ some v
    → Arrives lexical_cast md
    → Arrives lexical_cast ((key, value) ∷ md)
unfolding decode_meta_data text_eq
other-Arrives lexical_cast key value v md h n ev (entries, (e, d)) =
    let q : text_eq key album_key ≡ false = decide_no (text_dec key album_key) n in
    (
      (key, v) ∷ entries,
      (
        sent lexical_cast key value v md entries h ev e,
        λ old.
            ap (λ b. decode_entry b v old read decode_meta_data entries) q
            ∙ d old
            ∙ ap (λ o. some (with_album o old)) (sym (lookup-skip key value md n)),
      ),
    )

album-Arrives :
    (lexical_cast : Text → Option ℤ) (value : Text) (md : MetaData)
    → lookup text_dec album_key md ≡ none
    → Arrives lexical_cast md
    → Arrives lexical_cast ((album_key, value) ∷ md)
unfolding decode_meta_data encode_value lookup text_eq text_dec ℕ_discrete
album-Arrives lexical_cast value md n (entries, (e, d)) = (
  (album_key, Variant.text value) ∷ entries,
  (
    sent lexical_cast album_key value (Variant.text value) md entries refl refl e,
    λ old. d (set_album value old) ∙ ap (λ o. some (with_album o (set_album value old))) n,
  ),
)

value_of :
    (lexical_cast : Text → Option ℤ) (key value : Text)
    → (is_length key value ≡ true → (n : ℤ) × (lexical_cast value ≡ some n))
    → (v : Variant) × (encode_value lexical_cast key value ≡ some v)
unfolding encode_value
value_of lexical_cast key value h = elim (Bool-cases (is_length key value)) [
  | inl l ↦ let (n, e) = h l in (Variant.int64 n, ground arith)
  | inr l ↦ (Variant.text value, ground arith)
]

-- Metadata with distinct keys, of which a length that is not empty is a number, can always be sent; what arrives adds the album to the metadata that is read into, and nothing else.
pub meta_data_round_trip :
    (lexical_cast : Text → Option ℤ) (md : MetaData)
    → HasDistinctKeys md
    → HasLengths lexical_cast md
    → (entries : List (Text × Variant)) × ((encode_meta_data lexical_cast md ≡ some entries)
        × ((old : MetaData)
            → decode_meta_data entries old ≡ some (with_album (get album_key md) old)))
unfolding encode_meta_data decode_meta_data HasDistinctKeys HasLengths lookup
meta_data_round_trip lexical_cast [] u h = ([], (refl, λ old. refl))
meta_data_round_trip lexical_cast ((key, value) ∷ md) (n, u) (l, h) =
    let rest = meta_data_round_trip lexical_cast md u h in
    elim (text_dec key album_key) [
      | yes p ↦
          subst (λ k. Arrives lexical_cast ((k, value) ∷ md)) (sym p)
            (album-Arrives lexical_cast value md (subst (λ k. lookup text_dec k md ≡ none) p n)
              rest)
      | no d ↦ elim (Bool-cases (is_hidden key)) [
        | inl hidden ↦ hidden-Arrives lexical_cast key value md hidden d rest
        | inr shown ↦
            let (v, ev) = value_of lexical_cast key value l in
            other-Arrives lexical_cast key value v md shown d ev rest
      ]
    ]
