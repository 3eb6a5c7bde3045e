-- ===== src/Transcript/Tests.antt =====
-- Transcripts at concrete inputs.
use skeleton_media.Base.{ℕ, ltb, false, ◌≡◌, refl, String, none, some, List, [], ◌∷◌, arith}
use skeleton_media.Transcript.Cover.{Range, union_duration}
use skeleton_media.Transcript.Cover.Union.{is_covered, count_below, union_duration-counts}
use skeleton_media.Transcript.Segments.{
  TextLibrary, TranscriptSegment, normalize_text, normalize_segments,
}
use skeleton_media.Transcript.Segments.Normal.{IsStable, IsNormal, normalize_segments-IsNormal}
use skeleton_media.Transcript.Quality.{assess_quality}
use skeleton_media.Transcript.Quality.Usable.{IsAssessed, assess_quality-IsAssessed}

abbrev plain : TextLibrary
plain = record {
  drop_tags = λ s. s;
  unescape = λ s. s;
  drop_zero_width = λ s. s;
  join_spaces = λ s. s;
  strip = λ s. s;
  casefold = λ s. s;
}

abbrev cue : ℕ → ℕ → String → TranscriptSegment
cue s e t = record {
  start_seconds = s;
  end_seconds = e;
  text = t;
  language = "en";
  provider = "youtube";
  confidence = none;
  provenance = "subtitle";
}

abbrev cues : List TranscriptSegment
cues = cue 0 2000 "hello" ∷ cue 1500 4000 "hello" ∷ cue 5000 6000 "there" ∷ []

abbrev crossing : List Range
crossing = (5, 9) ∷ (0, 3) ∷ (2, 4) ∷ []

cue-IsStable : (s e : ℕ) → ltb e s ≡ false → IsStable plain (cue s e "hello")
unfolding normalize_text
cue-IsStable s e h = record {
  in_order = h;
  clean = refl;
  full = refl;
  short = refl;
  good_language = refl;
  good_provider = refl;
  good_confidence = refl;
}

union_duration-counts_example : union_duration crossing ≡ count_below 10 (is_covered crossing)
union_duration-counts_example =
    union_duration-counts 10 crossing (ground arith, (ground arith, (ground arith, tt)))

normalize_segments-IsNormal_example :
    IsNormal
      (cue 0 2000 "hello" ∷ cue 1500 4000 "hello" ∷ [])
      (normalize_segments plain (cue 0 2000 "hello" ∷ cue 1500 4000 "hello" ∷ []))
normalize_segments-IsNormal_example =
    normalize_segments-IsNormal plain (cue 0 2000 "hello" ∷ cue 1500 4000 "hello" ∷ [])
      (cue-IsStable 0 2000 refl, (cue-IsStable 1500 4000 refl, tt))

assess_quality-IsAssessed_example :
    IsAssessed 6000 (some 90000) 500 cues (assess_quality cues (some 90000) 500)
assess_quality-IsAssessed_example =
    assess_quality-IsAssessed 6000 500 (some 90000) cues
      (ground arith, (ground arith, (ground arith, tt)))
