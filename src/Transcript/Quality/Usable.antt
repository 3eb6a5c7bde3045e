-- ===== src/Transcript/Quality/Usable.antt =====
-- Which transcripts `assess_quality` finds usable.
use skeleton_media.Base.{
  ℕ, ◌*◌, ◌≤◌, ◌<◌, ◌≡◌, ◌↔◌, refl, sym, subst, Bool, true, false, Option, List, [], ◌∷◌, ◌⊎◌, inl,
  inr, Bool-cases, ◌++◌, ◌==◌, string_eq, ◌&&◌, ltb, leb, length, Result, ok, err, crash, All,
  arith, ltb→lt,
}
use skeleton_media.Transcript.Cover.{union_duration}
use skeleton_media.Transcript.Cover.Union.{is_covered, count_below, union_duration-counts}
use skeleton_media.Transcript.Segments.{TranscriptSegment, ranges_of}
use skeleton_media.Transcript.Quality.{
  TranscriptQuality, usable, character_total, duration_of, ratio_of, is_below_quarter, reason_if,
  status_of, measure, assess_quality,
}

-- Three segments and 120 characters, and a minute of media or more has a quarter of its
-- milliseconds covered. The first argument bounds the times.
abbrev pub IsGood : ℕ → Option ℕ → List TranscriptSegment → Type 0
IsGood n media ss =
    (3 ≤ length ss)
    × (120 ≤ character_total ss)
    × ((duration_of media ss < 60000)
        ⊎ (duration_of media ss ≤ 4 * count_below n (is_covered (ranges_of ss))))

abbrev pub IsAssessed :
    ℕ → Option ℕ → ℕ → List TranscriptSegment → Result TranscriptQuality → Type 0
IsAssessed n media max_chars ss (ok q) =
    (character_total ss ≤ max_chars) × ((usable q ≡ true) ↔ IsGood n media ss)
IsAssessed n media max_chars ss (err code) =
    (max_chars < character_total ss) × (code ≡ "TRANSCRIPT_TOO_LARGE")
IsAssessed n media max_chars ss crash = ⊥

flags_status :
    (a b c : Bool)
    → ((status_of (
            reason_if a "TOO_FEW_SEGMENTS"
            ++ (reason_if b "TOO_FEW_CHARACTERS" ++ reason_if c "LOW_TIME_COVERAGE"))
          == "GOOD")
        ≡ true)
      ↔ ((a ≡ false) × (b ≡ false) × (c ≡ false))
flags_status true b c = (λ e. absurd (cc), λ e. absurd (cc))
flags_status false true c = (λ e. absurd (cc), λ e. absurd (cc))
flags_status false false true = (λ e. absurd (cc), λ e. absurd (cc))
flags_status false false false = (λ e. (refl, refl, refl), λ e. refl)

-- A share below a quarter, on numbers.
low_time_covers :
    (duration covered : ℕ)
    → ((leb 60000 duration && is_below_quarter (ratio_of covered duration)) ≡ false)
      ↔ ((duration < 60000) ⊎ (duration ≤ 4 * covered))
low_time_covers duration covered = (share, low)
  where
    share :
        (leb 60000 duration && is_below_quarter (ratio_of covered duration)) ≡ false
        → (duration < 60000) ⊎ (duration ≤ 4 * covered)
    share e = elim (Bool-cases (leb 60000 duration)) [
      | inl y ↦ inr (ground arith)
      | inr n ↦ inl (ground arith)
    ]

    low :
        (duration < 60000) ⊎ (duration ≤ 4 * covered)
        → (leb 60000 duration && is_below_quarter (ratio_of covered duration)) ≡ false
    low (inl s) = ground arith
    low (inr l) = ground arith

ends_bounded :
    (n : ℕ) (ss : List TranscriptSegment)
    → All (λ s. s.end_seconds ≤ n) ss
    → All (λ r. r.1 ≤ n) (ranges_of ss)
ends_bounded n [] a = tt
ends_bounded n (s ∷ ss) a = (a.0, ends_bounded n ss a.1)

ltb_iff : (a b : ℕ) → (ltb a b ≡ false) ↔ (b ≤ a)
ltb_iff a b = (λ e. ground arith, λ e. ground arith)

measure-usable :
    (n : ℕ) (media : Option ℕ) (ss : List TranscriptSegment)
    → All (λ s. s.end_seconds ≤ n) ss
    → (usable (measure ss media) ≡ true) ↔ IsGood n media ss
unfolding usable measure
measure-usable n media ss a =
    let counted = union_duration-counts n (ranges_of ss) (ends_bounded n ss a) in
    let flags = flags_status (ltb (length ss) 3) (ltb (character_total ss) 120) (
      leb 60000 (duration_of media ss)
      && is_below_quarter (ratio_of (union_duration (ranges_of ss)) (duration_of media ss))) in
    let share = low_time_covers (duration_of media ss) (union_duration (ranges_of ss)) in
    (
      λ e.
          let (x, y, z) = flags.0 e in
          (
            (ltb_iff (length ss) 3).0 x,
            (ltb_iff (character_total ss) 120).0 y,
            subst (λ c. (duration_of media ss < 60000) ⊎ (duration_of media ss ≤ 4 * c)) counted
                (share.0 z),
          ),
      λ (x, y, z). flags.1 (
        (ltb_iff (length ss) 3).1 x,
        (ltb_iff (character_total ss) 120).1 y,
        share.1 (
            subst (λ c. (duration_of media ss < 60000) ⊎ (duration_of media ss ≤ 4 * c))
              (sym counted) z),
      ),
    )

-- For every transcript whose times a number bounds: `assess_quality` raises TRANSCRIPT_TOO_LARGE
-- exactly if the transcript has more characters than allowed, and otherwise finds it usable exactly
-- if it has three segments and 120 characters, and either the duration is below a minute or a quarter
-- of it is covered, counted in milliseconds that lie in a segment.
pub assess_quality-IsAssessed :
    (n max_chars : ℕ) (media : Option ℕ) (ss : List TranscriptSegment)
    → All (λ s. s.end_seconds ≤ n) ss
    → IsAssessed n media max_chars ss (assess_quality ss media max_chars)
unfolding assess_quality usable
assess_quality-IsAssessed n max_chars media [] a =
    (unfold character_total in omega arith, (λ e. absurd (cc), λ g. absurd (ground (arith, g.0))))
assess_quality-IsAssessed n max_chars media (s ∷ ss) a =
    elim (Bool-cases (ltb max_chars (character_total (s ∷ ss)))) [
      | inl y ↦ rw y (ltb→lt max_chars (character_total (s ∷ ss)) y, refl)
      | inr m ↦
          rw m
            ((ltb_iff max_chars (character_total (s ∷ ss))).0 m, measure-usable n media (s ∷ ss) a)
    ]
