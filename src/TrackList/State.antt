-- ===== src/TrackList/State.antt =====
-- The state that TrackListSkeleton and TrackListImplementation keep, and the effects of their code.
-- An iterator is its index; the sentinel `empty_iterator`, the begin() of a vector that has no
-- storage, is `null`. A read through an iterator that stands on no element is a fault.
use media_hub.Prelude.{
  ℕ, suc, ◌^◌, ◌<◌, ◌≡◌, arith, Bool, true, false, Option, none, some, List, [], ◌∷◌, ◌++◌, Text,
  text_dec, decimal, get_elem?, ite, if◌then◌else◌, ltb,
}
use media_hub.Media.{LoopStatus}

abbrev pub TrackId : Type 0
TrackId = Text

abbrev pub UriType : Type 0
UriType = Text

-- `Track::MetaData`: a map from a tag to its text.
abbrev pub MetaData : Type 0
MetaData = List (Text × Text)

pub data Iter : Type 0 where
  null : Iter
  at : ℕ → Iter

-- What the list's signals carry to the player and to the bus.
pub data Signal : Type 0 where
  track_added : TrackId → Signal
  tracks_added : List TrackId → Signal
  track_moved : TrackId → TrackId → Signal
  track_removed : TrackId → Signal
  track_list_reset : Signal
  track_changed : TrackId → Signal
  go_to_track : TrackId → Signal
  end_of_tracklist : Signal

-- `TrackList::Errors` that the code throws.
pub data Error : Type 0 where
  failed_to_move_track : Error
  failed_to_find_move_track_source : Error
  failed_to_find_move_track_dest : Error

pub record State : Type 0 where
  pub path : Text  -- the object's path on the bus
  pub tracks : List TrackId
  pub current_track : Iter
  pub loop_status : LoopStatus
  pub current_position : ℕ  -- uint64_t, nanoseconds
  pub id_after_remove : TrackId
  pub track_counter : ℕ  -- size_t
  pub meta_data_cache : List (TrackId × (UriType × MetaData))
  pub shuffled_tracks : List TrackId
  pub shuffle : Bool
  pub rand : ℕ → ℕ  -- the values that rand() returns
  pub drawn : ℕ  -- how many of them were taken
  pub sent : List Signal  -- the signals emitted, the latest first

-- How a call ends: with a value, by an exception, or in undefined behaviour.
pub data Outcome (A : Type 0) : Type 0 where
  done : A → State → Outcome A
  threw : Error → State → Outcome A
  fault : Outcome A

abbrev pub M : Type 0 → Type 0
M A = State → Outcome A

infixl 5 ◌>>=◌ ◌>>◌
abbrev pub ◌>>=◌ : {A B : Type 0} → M A → (A → M B) → M B
◌>>=◌ m f s = elim (m s) [ done a t ↦ f a t | threw e t ↦ threw e t | fault ↦ fault ]

abbrev pub ◌>>◌ : {A B : Type 0} → M A → M B → M B
m >> k = m >>= λ _. k

abbrev pub pure : {A : Type 0} → A → M A
pure a s = done a s

abbrev pub throw : {A : Type 0} → Error → M A
throw e s = threw e s

abbrev pub get : M State
get s = done s s

abbrev pub modify : (State → State) → M (Unit {0})
modify f s = done tt (f s)

-- A signal reaches its observers.
abbrev pub emit : Signal → M (Unit {0})
emit x s = done tt (record s { sent = x ∷ s.sent })

-- `*(v.begin() + i)`.
abbrev pub read : List TrackId → ℕ → M TrackId
read xs i s = elim (get_elem? xs i) [ none ↦ fault | some a ↦ done a s ]

pub read_lem :
    (xs : List TrackId) (i : ℕ) (s : State) {a : TrackId}
    → get_elem? xs i ≡ some a
    → read xs i s ≡ done a s
read_lem xs i s e = ground arith

-- `*it` for an iterator into `tracks`.
abbrev pub deref : Iter → M TrackId
deref null s = fault
deref (at i) s = read s.tracks i s

-- `++it` for an iterator into a vector of `n` elements.
unfoldable pub advance : ℕ → ℕ → M ℕ
advance n i s = if ltb i n then done (suc i) s else fault

pub advance_lt : (n i : ℕ) (s : State) → i < n → advance n i s ≡ done (suc i) s
unfolding advance
advance_lt n i s h = ground arith

abbrev pub size_max : ℕ
size_max = 2 ^ 64

abbrev pub skip : M (Unit {0})
skip s = done tt s

-- `if (b) m else k`, as a statement.
abbrev pub branch : {A : Type 0} → Bool → M A → M A → M A
branch b m k s = elim b [ true ↦ m s | false ↦ k s ]

-- `path << "/" << counter`.
unfoldable pub make_id : Text → ℕ → TrackId
make_id path n = path ++ b'/' ∷ decimal n

-- `meta_data_cache.find(id)`.
unfoldable pub cached :
    TrackId → List (TrackId × (UriType × MetaData)) → Option (UriType × MetaData)
cached id [] = none
cached id ((k, v) ∷ m) = ite (text_dec k id) (some v) (cached id m)

-- `meta_data_cache.erase(id)`.
unfoldable pub uncache :
    TrackId → List (TrackId × (UriType × MetaData)) → List (TrackId × (UriType × MetaData))
uncache id [] = []
uncache id ((k, v) ∷ m) = ite (text_dec k id) (uncache id m) ((k, v) ∷ uncache id m)

-- `std::get<0>(meta_data_cache[id]) = uri` where `id` is a key.
unfoldable pub recache :
    TrackId
    → UriType
    → List (TrackId × (UriType × MetaData))
    → List (TrackId × (UriType × MetaData))
recache id uri [] = []
recache id uri ((k, (u, md)) ∷ m) =
    ite (text_dec k id) ((k, (uri, md)) ∷ recache id uri m) ((k, (u, md)) ∷ recache id uri m)
