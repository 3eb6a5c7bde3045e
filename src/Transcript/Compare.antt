-- ===== src/Transcript/Compare.antt =====
-- `compare_independent_asr` (transcript.py): the disagreement of two transcripts of one source. The
-- similarity is the fraction 2 M / T of matching tokens and all tokens; it is not rounded here.
use skeleton_media.Base.{
  ℕ, ◌+◌, ◌*◌, String, Bool, true, false, not, ◌&&◌, ◌||◌, Option, none, some, List, [], ◌∷◌, ◌++◌,
  map, any, all, select, ◌==◌, string_eq, nat_eq, ltb, leb, length, if◌then◌else◌, Result, ok,
  crash, ◌>>=◌,
}
use skeleton_media.Value.{codes}
use skeleton_media.Transcript.Segments.{TextLibrary, TranscriptSegment}
use skeleton_media.Transcript.Quality.{reason_if}
use skeleton_media.Transcript.Captions.{Words, same_words, compact_rolling_captions}

-- `re.findall` of the tokens of a text, `str.isdigit` of a character, and the number of tokens that
-- `difflib.SequenceMatcher` matches in two sequences.
pub record Tokens : Type 0 where
  pub find_tokens : String → List String
  pub is_digit_code : ℕ → Bool
  pub matches : List String → List String → ℕ

pub record IndependentAsrComparison : Type 0 where
  pub status : String
  pub reason_codes : List String
  pub token_sequence_similarity : Option (ℕ × ℕ)
  pub subtitle_segment_count : ℕ
  pub asr_segment_count : ℕ

abbrev has_word : List String → String → Bool
has_word ws w = any (λ x. x == w) ws

-- Equality of two sets.
abbrev same_set : List String → List String → Bool
same_set xs ys = all (has_word ys) xs && all (has_word xs) ys

abbrev is_nothing : List String → Bool
is_nothing [] = true
is_nothing (x ∷ xs) = false

abbrev no_segments : List TranscriptSegment → Bool
no_segments [] = true
no_segments (s ∷ ss) = false

module _ (lib : TextLibrary) (tokens : Tokens) where
  -- `_comparison_tokens`
  unfoldable pub comparison_tokens : List TranscriptSegment → List String
  comparison_tokens [] = []
  comparison_tokens (s ∷ ss) = map lib.casefold (tokens.find_tokens s.text) ++ comparison_tokens ss

  abbrev technical : List String → List String
  technical words = select (λ w. any tokens.is_digit_code (codes w)) words

  abbrev languages : List TranscriptSegment → List String
  languages ss = map (λ s. lib.casefold s.language) ss

  -- The comparison of two lists of tokens that are not empty; the threshold is in hundredths.
  unfoldable pub compare_words :
      ℕ
      → List TranscriptSegment
      → List TranscriptSegment
      → List String
      → List String
      → IndependentAsrComparison
  compare_words review_below source_subtitles independent_asr source_words asr_words =
      let matched = tokens.matches source_words asr_words in
      let total = length source_words + length asr_words in
      let reasons =
        reason_if (not (same_words (technical source_words) (technical asr_words)))
          "TECHNICAL_MENTION_DISAGREEMENT"
        ++ reason_if (ltb (2 * matched * 100) (review_below * total)) "SPEECH_TEXT_DISAGREEMENT"
        ++ reason_if (not (same_set (languages source_subtitles) (languages independent_asr)))
            "LANGUAGE_DISAGREEMENT" in
      record {
        status = if is_nothing reasons then "AGREE_UNVERIFIED" else "REVIEW_REQUIRED";
        reason_codes = reasons;
        token_sequence_similarity = some (2 * matched, total);
        subtitle_segment_count = length source_subtitles;
        asr_segment_count = length independent_asr;
      }

  abbrev review_of :
      String → List TranscriptSegment → List TranscriptSegment → IndependentAsrComparison
  review_of reason source_subtitles independent_asr = record {
    status = "REVIEW_REQUIRED";
    reason_codes = reason ∷ [];
    token_sequence_similarity = none;
    subtitle_segment_count = length source_subtitles;
    asr_segment_count = length independent_asr;
  }

  -- The captions are compacted with the default bounds; a bound out of range is a `ValueError`.
  unfoldable pub compare_independent_asr :
      Words
      → ℕ
      → ℕ
      → List TranscriptSegment
      → List TranscriptSegment
      → Result IndependentAsrComparison
  unfolding compare_words comparison_tokens compact_rolling_captions
  compare_independent_asr w review_below max_tokens source_subtitles independent_asr =
      if not (leb 1 review_below && leb review_below 100)
      then crash
      else if not (leb 100 max_tokens && leb max_tokens 30000)
      then crash
      else if no_segments source_subtitles || no_segments independent_asr
      then ok (review_of "MISSING_INDEPENDENT_SOURCE" source_subtitles independent_asr)
      else (compact_rolling_captions lib w 3000 128 source_subtitles >>= λ source.
          compact_rolling_captions lib w 3000 128 independent_asr >>= λ asr.
          (let source_words = comparison_tokens source in
            let asr_words = comparison_tokens asr in
            if ltb max_tokens (length source_words) || ltb max_tokens (length asr_words)
            then ok (review_of "COMPARISON_TOO_LARGE" source_subtitles independent_asr)
            else if is_nothing source_words || is_nothing asr_words
            then ok (review_of "EMPTY_COMPARABLE_SPEECH" source_subtitles independent_asr)
            else ok (
                compare_words review_below source_subtitles independent_asr source_words
                  asr_words)))
