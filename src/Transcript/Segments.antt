-- ===== src/Transcript/Segments.antt =====
-- `TranscriptSegment` and `normalize_segments` (transcript.py). Times are whole milliseconds, and a
-- confidence is a number of thousandths.
pub mod Normal
use skeleton_media.Base.{
  ℕ, String, Bool, true, false, ◌&&◌, ◌||◌, Option, none, some, List, [], ◌∷◌, ◌++◌, ◌==◌,
  string_eq, nat_eq, ltb, leb, max, length, if◌then◌else◌, Result, ok, err, crash, ◌>>=◌, ◌>>◌,
  raise_if, map,
}
use skeleton_media.Value.{codes}
use skeleton_media.Transcript.Cover.{Range}

-- The functions of Python's library on texts that the module calls: `_TAG_RE.sub(" ", s)`,
-- `html.unescape(s)`, `s.replace("\u200b", " ")`, `_SPACE_RE.sub(" ", s)`, `s.strip()` and
-- `s.casefold()`.
pub record TextLibrary : Type 0 where
  pub drop_tags : String → String
  pub unescape : String → String
  pub drop_zero_width : String → String
  pub join_spaces : String → String
  pub strip : String → String
  pub casefold : String → String

pub record TranscriptSegment : Type 0 where
  pub start_seconds : ℕ
  pub end_seconds : ℕ
  pub text : String
  pub language : String
  pub provider : String
  pub confidence : Option ℕ
  pub provenance : String

-- `(segment.start_seconds, segment.end_seconds)`
abbrev pub range_of : TranscriptSegment → Range
range_of s = (s.start_seconds, s.end_seconds)

abbrev pub ranges_of : List TranscriptSegment → List Range
ranges_of ss = map range_of ss

abbrev pub is_longer : ℕ → String → Bool
is_longer n s = ltb n (length (codes s))

abbrev pub is_bad_confidence : Option ℕ → Bool
is_bad_confidence none = false
is_bad_confidence (some c) = ltb 1000 c

module _ (lib : TextLibrary) where
  unfoldable pub normalize_text : String → String
  normalize_text value =
      lib.strip (lib.join_spaces (lib.drop_zero_width (lib.unescape (lib.drop_tags value))))

  -- `TranscriptSegment(…)`: the segment with its text cleaned, if `__post_init__` accepts it. The tests
  -- on the types of the fields are the types of the model.
  unfoldable pub segment : TranscriptSegment → Result TranscriptSegment
  segment s =
      let cleaned = normalize_text s.text in
      (do
        raise_if (ltb s.end_seconds s.start_seconds) "TRANSCRIPT_TIMESTAMP_INVALID"
        raise_if (cleaned == "") "TRANSCRIPT_TEXT_EMPTY"
        raise_if (is_longer 20000 cleaned) "TRANSCRIPT_SEGMENT_TOO_LARGE"
        raise_if (s.language == "" || is_longer 32 s.language) "TRANSCRIPT_LANGUAGE_INVALID"
        raise_if (s.provider == "" || is_longer 128 s.provider) "TRANSCRIPT_PROVIDER_INVALID"
        raise_if (is_bad_confidence s.confidence) "TRANSCRIPT_CONFIDENCE_INVALID"
        ok (record s { text = cleaned }))

  -- The segment says again what the last one of the result says, and starts before that ends.
  pub repeats : TranscriptSegment → TranscriptSegment → Bool
  repeats s previous =
      (lib.casefold s.text == lib.casefold previous.text)
      && (s.language == previous.language)
      && (s.provider == previous.provider)
      && (s.provenance == previous.provenance)
      && leb s.start_seconds previous.end_seconds

  abbrev pub extended : TranscriptSegment → TranscriptSegment → TranscriptSegment
  extended previous s = record previous { end_seconds = max previous.end_seconds s.end_seconds }

  -- The round of a segment, for the last one of the result and those before it, the last first.
  pub absorb :
      TranscriptSegment
      → List TranscriptSegment
      → TranscriptSegment
      → Result (List TranscriptSegment)
  unfolding repeats
  absorb previous before s =
      let merged = (do m ← segment (extended previous s); ok (m ∷ before)) in
      if repeats s previous then merged else ok (s ∷ previous ∷ before)

  pub onto : List TranscriptSegment → List TranscriptSegment → List TranscriptSegment
  onto [] ys = ys
  onto (x ∷ xs) ys = onto xs (x ∷ ys)

  -- The loop; the result so far is given with its last segment first.
  pub normalize_loop :
      List TranscriptSegment → List TranscriptSegment → Result (List TranscriptSegment)
  unfolding absorb onto
  normalize_loop result [] = ok (onto result [])
  normalize_loop [] (s ∷ ss) = normalize_loop (s ∷ []) ss
  normalize_loop (previous ∷ before) (s ∷ ss) = do
    raise_if (ltb s.start_seconds previous.start_seconds) "TRANSCRIPT_NOT_MONOTONIC"
    result ← absorb previous before s
    normalize_loop result ss

  pub normalize_segments : List TranscriptSegment → Result (List TranscriptSegment)
  unfolding normalize_loop
  normalize_segments segments = normalize_loop [] segments
