-- ===== src/TrackList/Current.antt =====
-- The current track's id, across changes of the list.
use media_hub.Prelude.{
  ℕ, ◌<◌, ◌≡◌, refl, sym, ◌∙◌, subst, ◌⊎◌, inl, inr, some, [], Mem, length, get_elem?, get_elem?-lt,
  get_elem?-find, lt_of_get_elem?, find-lt_of_mem, find-le, mem_of_find-lt, mem_of_get_elem?,
  text_dec, arith, dec_lt, ◌==◌, if◌then◌else◌,
}
use media_hub.TrackList.State.{TrackId, Iter, null, at, State, done}
use media_hub.TrackList.Cursor.{find_track, current, get_current_track, set_current_track}
use media_hub.TrackList.Invariant.{IsValid, InRange}
use media_hub.TrackList.Ids.{nil_unlisted}

-- `id` is the current track's; the empty id where there is none.
abbrev pub IsCurrent : State → TrackId → Type 0
IsCurrent s id =
    ((s.current_track ≡ null) × (id ≡ []))
    ⊎ ((i : ℕ) × (s.current_track ≡ at i) × (get_elem? s.tracks i ≡ some id))

pub cursor_exists :
    (s : State) (it : Iter)
    → s.current_track ≡ it
    → InRange (length s.tracks) it
    → (id : TrackId) × IsCurrent s id
cursor_exists s null e h = ([], inl (e, refl))
cursor_exists s (at i) e h = let (id, f) = get_elem?-lt s.tracks i h in (id, inr (i, e, f))

pub get_current_track_lem :
    (s : State) (id : TrackId) → IsCurrent s id → get_current_track s ≡ done id s
unfolding get_current_track current
get_current_track_lem s id (inl (e, f)) = ground arith
get_current_track_lem s id (inr (i, e, f)) = let h = lt_of_get_elem? s.tracks i f in ground arith

pub current_lem :
    (s : State) (i : ℕ) (id : TrackId)
    → s.current_track ≡ at i
    → get_elem? s.tracks i ≡ some id
    → current s ≡ done id s
unfolding current
current_lem s i id c e = ground arith

-- What `set_current_track` does: a move to the track, if it is listed.
abbrev pub focus : TrackId → State → State
focus id s = record s {
  current_track =
      if find_track s id == length s.tracks then s.current_track else at (find_track s id);
}

pub set_current_track_lem :
    (id : TrackId) (s : State) → set_current_track id s ≡ done tt (focus id s)
unfolding set_current_track
set_current_track_lem id s = ground arith

pub focus-IsCurrent :
    (id : TrackId) (s : State) → find_track s id < length s.tracks → IsCurrent (focus id s) id
focus-IsCurrent id s h = inr (find_track s id, ground arith, get_elem?-find text_dec id s.tracks h)

pub focus-InRange :
    (id : TrackId) (s : State)
    → InRange (length s.tracks) s.current_track
    → InRange (length s.tracks) (focus id s).current_track
focus-InRange id s h = elim (dec_lt (find_track s id) (length s.tracks)) [
  | yes p ↦ subst (InRange (length s.tracks)) (sym (found p)) p
  | no p ↦ subst (InRange (length s.tracks)) (sym (missed p)) h
]
  where
    found : find_track s id < length s.tracks → (focus id s).current_track ≡ at (find_track s id)
    found p = ground arith

    missed : ¬ (find_track s id < length s.tracks) → (focus id s).current_track ≡ s.current_track
    missed p = ground (arith, find-le text_dec id s.tracks)

-- The empty id is not listed, so that a move to it changes nothing.
pub focus-nil : (s : State) → IsValid s → s.current_track ≡ null → IsCurrent (focus [] s) []
focus-nil s v e = inl (ground (arith, unlisted, find-le text_dec [] s.tracks), refl)
  where
    unlisted : ¬ (find_track s [] < length s.tracks)
    unlisted h =
        nil_unlisted s.path s.track_counter s.tracks v.issued
          (mem_of_find-lt text_dec [] s.tracks h)

-- After a change of the list a move to the track that was current makes it current again.
pub refocus-IsCurrent :
    (s t : State) (id : TrackId)
    → IsCurrent s id
    → IsValid t
    → t.current_track ≡ s.current_track
    → ((a : TrackId) → Mem a s.tracks → Mem a t.tracks)
    → IsCurrent (focus id t) id
refocus-IsCurrent s t id (inl (e, f)) v same more =
    subst (λ j. IsCurrent (focus j t) j) (sym f) (focus-nil t v (same ∙ e))
refocus-IsCurrent s t id (inr (i, e, f)) v same more =
    focus-IsCurrent id t
      (find-lt_of_mem text_dec id t.tracks (more id (mem_of_get_elem? s.tracks i f)))
