-- ===== src/Transcript/Quality.antt =====
-- `assess_quality` (transcript.py). Durations are whole milliseconds; the coverage ratio is a fraction.
pub mod Usable
use skeleton_media.Base.{
  ℕ, ◌+◌, ◌*◌, String, Bool, true, false, ◌&&◌, Option, none, some, List, [], ◌∷◌, ◌++◌, ◌==◌,
  string_eq, ltb, leb, min, max, length, if◌then◌else◌, Result, ok, ◌>>◌, raise_if, map,
}
use skeleton_media.Value.{codes}
use skeleton_media.Transcript.Cover.{union_duration}
use skeleton_media.Transcript.Segments.{TranscriptSegment, ranges_of}

pub record TranscriptQuality : Type 0 where
  pub status : String
  pub reason_codes : List String
  pub segment_count : ℕ
  pub character_count : ℕ
  pub duration_seconds : ℕ
  pub covered_seconds : ℕ
  -- The numerator and the denominator.
  pub coverage_ratio : ℕ × ℕ

pub usable : TranscriptQuality → Bool
usable q = q.status == "GOOD"

-- `sum(len(segment.text) for segment in segments)`
pub character_total : List TranscriptSegment → ℕ
character_total [] = 0
character_total (s ∷ ss) = length (codes s.text) + character_total ss

-- `max(segment.end_seconds for segment in segments)`, for some segments.
pub last_end : List TranscriptSegment → ℕ
last_end [] = 0
last_end (s ∷ ss) = max s.end_seconds (last_end ss)

-- `media_duration_seconds if media_duration_seconds and media_duration_seconds > 0 else …`
pub duration_of : Option ℕ → List TranscriptSegment → ℕ
unfolding last_end
duration_of none ss = last_end ss
duration_of (some d) ss = if ltb 0 d then d else last_end ss

-- `min(1.0, covered / duration) if duration > 0 else 0.0`
abbrev pub ratio_of : ℕ → ℕ → ℕ × ℕ
ratio_of covered duration = if ltb 0 duration then (min covered duration, duration) else (0, 1)

-- `ratio < 0.25`
abbrev pub is_below_quarter : ℕ × ℕ → Bool
is_below_quarter r = ltb (4 * r.0) r.1

abbrev pub reason_if : Bool → String → List String
reason_if b code = if b then code ∷ [] else []

abbrev pub reasons : ℕ → ℕ → ℕ → ℕ × ℕ → List String
reasons segments characters duration ratio =
    reason_if (ltb segments 3) "TOO_FEW_SEGMENTS"
    ++ (reason_if (ltb characters 120) "TOO_FEW_CHARACTERS"
        ++ reason_if (leb 60000 duration && is_below_quarter ratio) "LOW_TIME_COVERAGE")

abbrev pub status_of : List String → String
status_of [] = "GOOD"
status_of _ = "LOW"

-- The quality of some segments.
pub measure : List TranscriptSegment → Option ℕ → TranscriptQuality
unfolding duration_of character_total
measure ss media =
    let covered = union_duration (ranges_of ss) in
    let duration = duration_of media ss in
    let ratio = ratio_of covered duration in
    let found = reasons (length ss) (character_total ss) duration ratio in
    record {
      status = status_of found;
      reason_codes = found;
      segment_count = length ss;
      character_count = character_total ss;
      duration_seconds = duration;
      covered_seconds = covered;
      coverage_ratio = ratio;
    }

pub assess_quality : List TranscriptSegment → Option ℕ → ℕ → Result TranscriptQuality
unfolding measure
assess_quality [] media max_chars = ok (record {
  status = "MISSING";
  reason_codes = "NO_SEGMENTS" ∷ [];
  segment_count = 0;
  character_count = 0;
  duration_seconds = elim media [ none ↦ 0 | some d ↦ d ];
  covered_seconds = 0;
  coverage_ratio = (0, 1);
})
assess_quality (s ∷ ss) media max_chars = do
  raise_if (ltb max_chars (character_total (s ∷ ss))) "TRANSCRIPT_TOO_LARGE"
  ok (measure (s ∷ ss) media)
