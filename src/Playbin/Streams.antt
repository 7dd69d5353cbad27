-- ===== src/Playbin/Streams.antt =====
-- What a Playbin knows of its streams after any messages.
use media_hub.Prelude.{
  ℕ, ◌≡◌, refl, sym, ap, ◌∙◌, Bool, false, not, ◌&&◌, ◌||◌, Option, none, some, List, [], ◌∷◌,
}
use media_hub.Playbin.State.{State, minus_one, close_fd}
use media_hub.Playbin.Pipeline.{reset_pipeline}
use media_hub.Playbin.Position.{can_play_streams, is_minus_one}
use media_hub.Playbin.Known.{
  Arrival, deliver, run, any, lacks_audio, lacks_video, last_selected, Known, known, learn,
  same_known, or_assoc, known_message,
}

abbrev pub learn_all : List Arrival → Known → Known
learn_all arrivals k = record {
  missing_audio = k.missing_audio || any lacks_audio arrivals;
  missing_video = k.missing_video || any lacks_video arrivals;
  audio = last_selected (λ a. a.current_audio) arrivals k.audio;
  video = last_selected (λ a. a.current_video) arrivals k.video;
}

known-run :
    (arrivals : List Arrival) (s : State) → known (run arrivals s) ≡ learn_all arrivals (known s)
unfolding run any last_selected learn
known-run [] s = sym (same_known (known s))
known-run (a ∷ rest) s =
    known-run rest (deliver a s)
    ∙ ap (learn_all rest) (known_message a.current_audio a.current_video a.message s)
    ∙ λ i. record (learn_all rest (learn a (known s))) {
      missing_audio =
          or_assoc s.is_missing_audio_codec (lacks_audio a.message) (any lacks_audio rest) i;
      missing_video =
          or_assoc s.is_missing_video_codec (lacks_video a.message) (any lacks_video rest) i;
    }

abbrev pub playable : Known → Bool
playable k = not (
    k.missing_audio && is_minus_one k.audio
    || k.missing_video && is_minus_one k.video
    || is_minus_one k.audio && is_minus_one k.video)

can_play_known : (s : State) → can_play_streams s ≡ playable (known s)
unfolding can_play_streams
can_play_known s = refl

known-close_fd : (o : Option ℕ) (s : State) → known (close_fd o s) ≡ known s
known-close_fd none s = refl
known-close_fd (some fd) s = refl

abbrev nothing_known : Known
nothing_known = record {
  missing_audio = false;
  missing_video = false;
  audio = minus_one;
  video = minus_one;
}

known_reset : (s : State) → known (reset_pipeline s) ≡ nothing_known
unfolding reset_pipeline
known_reset s = known-close_fd s.sock_consumer _

-- Whether a pipeline that was reset can play depends on the messages since, and on nothing before:
-- it cannot exactly when a decoder for audio is missing and no audio stream is selected, the same
-- of video, or no stream is selected at all; the streams selected are those at the last message that
-- the pipeline sent of its own state.
pub can_play_correct :
    (arrivals : List Arrival) (s : State)
    → can_play_streams (run arrivals (reset_pipeline s))
      ≡ playable (record {
        missing_audio = any lacks_audio arrivals;
        missing_video = any lacks_video arrivals;
        audio = last_selected (λ a. a.current_audio) arrivals minus_one;
        video = last_selected (λ a. a.current_video) arrivals minus_one;
      })
can_play_correct arrivals s =
    can_play_known (run arrivals (reset_pipeline s))
    ∙ ap playable (known-run arrivals (reset_pipeline s))
    ∙ ap (λ k. playable (learn_all arrivals k)) (known_reset s)
