-- ===== src/Playbin/Sizes.antt =====
-- What the clients are told of the video's dimensions.
use media_hub.Prelude.{
  ◌≡◌, refl, sym, ap, ◌∙◌, Bool, true, false, ◌&&◌, Option, none, some, List, [], ◌∷◌, arith,
}
use media_hub.Engine.{GstState}
use media_hub.Playbin.State.{StateChange, Dimensions, Output, State}
use media_hub.Playbin.Change.{
  Caps, change_state, set_state_and_wait, query_dimensions, get_video_dimensions,
  emit_video_dimensions_changed_if_changed, same_dimensions, signal_unless, note_dimensions,
  query_if, is_playing,
}

-- The dimensions signalled last; at first, those of no video.
unfoldable pub last_signalled : List Output → Dimensions
last_signalled [] = record { height = 0; width = 0 }
last_signalled (Output.on_video_dimensions_changed d ∷ rest) = d
last_signalled (_ ∷ rest) = last_signalled rest

abbrev pub IsTold : State → Type 0
IsTold s = last_signalled s.output ≡ s.cached_video_dimensions

same_dimensions_refl : (d : Dimensions) → same_dimensions d d ≡ true
same_dimensions_refl d = ground arith

eq_of_same_dimensions : (d e : Dimensions) → same_dimensions d e ≡ true → d ≡ e
eq_of_same_dimensions d e h =
    let hh : d.height ≡ e.height = ground arith in
    let hw : d.width ≡ e.width = ground arith in λ i. record { height = hh i; width = hw i }

note_dimensions-IsTold :
    (o : Option Dimensions) (s : State) → IsTold s → IsTold (note_dimensions o s)
unfolding emit_video_dimensions_changed_if_changed last_signalled
note_dimensions-IsTold none s h = h
note_dimensions-IsTold (some d) s h = go (same_dimensions d s.cached_video_dimensions) refl
  where
    go :
        (b : Bool)
        → same_dimensions d s.cached_video_dimensions ≡ b
        → last_signalled (signal_unless b d s).output ≡ d
    go true e = h ∙ sym (eq_of_same_dimensions d s.cached_video_dimensions e)
    go false e = refl

-- A second look at the same dimensions signals nothing.
note_twice :
    (o : Option Dimensions) (s : State)
    → (note_dimensions o (note_dimensions o s)).output ≡ (note_dimensions o s).output
unfolding emit_video_dimensions_changed_if_changed
note_twice none s = refl
note_twice (some d) s =
    ap (λ b. (signal_unless b d (note_dimensions (some d) s)).output) (same_dimensions_refl d)

query_if-IsTold :
    (b : Bool) (pads : List (Option Caps)) (s : State) → IsTold s → IsTold (query_if b pads s)
unfolding query_dimensions
query_if-IsTold true pads s h = note_dimensions-IsTold (get_video_dimensions pads s) s h
query_if-IsTold false pads s h = h

change_state-IsTold :
    (ret waited : StateChange) (g : GstState) (main : Bool) (s : State)
    → IsTold s
    → IsTold (change_state ret waited g main s).1
unfolding change_state last_signalled
change_state-IsTold ret waited g true s h = h
change_state-IsTold ret waited g false s h = h

-- A change of the pipeline's state, to any state, with any answer, keeps that the dimensions which were signalled last are those that the playbin
-- knows: its clients are told of every change that it sees.
pub dimensions-IsTold :
    (ret waited : StateChange) (pads : List (Option Caps)) (g : GstState) (main : Bool) (s : State)
    → IsTold s
    → IsTold (set_state_and_wait ret waited pads g main s).1
unfolding set_state_and_wait
dimensions-IsTold ret waited pads g main s h =
    query_if-IsTold ((change_state ret waited g main s).0 && is_playing g) pads
      (change_state ret waited g main s).1 (change_state-IsTold ret waited g main s h)
