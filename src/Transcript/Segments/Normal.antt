-- ===== src/Transcript/Segments/Normal.antt =====
-- What `normalize_segments` keeps.
use skeleton_media.Base.{
  ℕ, ◌≤◌, ◌≡◌, ◌≢◌, refl, sym, ◌∙◌, Bool, true, false, ◌&&◌, ◌||◌, List, [], ◌∷◌, ◌==◌, string_eq,
  ltb, leb, max, Result, ok, err, crash, All, inl, inr, Bool-cases, arith, leb→le,
}
use skeleton_media.Transcript.Cover.Union.{lies_in, is_covered}
use skeleton_media.Transcript.Segments.{
  TextLibrary, TranscriptSegment, range_of, ranges_of, is_longer, is_bad_confidence, normalize_text,
  segment, repeats, extended, absorb, onto, normalize_loop, normalize_segments,
}

-- The starts do not fall, and are at least the first argument.
abbrev pub rises_from : ℕ → List TranscriptSegment → Bool
rises_from k [] = true
rises_from k (s ∷ ss) = leb k s.start_seconds && rises_from s.start_seconds ss

abbrev pub is_monotonic : List TranscriptSegment → Bool
is_monotonic ss = rises_from 0 ss

rises_from_lower :
    (j k : ℕ) (ss : List TranscriptSegment)
    → j ≤ k
    → rises_from k ss ≡ true
    → rises_from j ss ≡ true
rises_from_lower j k [] l h = refl
rises_from_lower j k (s ∷ ss) l h = ground arith

-- The starts of a result, which is given with its last segment first, do not fall.
abbrev is_falling : List TranscriptSegment → Bool
is_falling [] = true
is_falling (s ∷ []) = true
is_falling (s ∷ t ∷ ss) = leb t.start_seconds s.start_seconds && is_falling (t ∷ ss)

extended_in_order :
    (p s : TranscriptSegment)
    → ltb p.end_seconds p.start_seconds ≡ false
    → ltb (max p.end_seconds s.end_seconds) p.start_seconds ≡ false
extended_in_order p s h = ground arith

true-false : true ≢ false
true-false e = cc

module _ (lib : TextLibrary) where
  -- The segment passes the tests of its constructor, which leaves its text as it is.
  pub record IsStable (s : TranscriptSegment) : Type 0 where
    pub in_order : ltb s.end_seconds s.start_seconds ≡ false
    pub clean : normalize_text lib s.text ≡ s.text
    pub full : (s.text == "") ≡ false
    pub short : is_longer 20000 s.text ≡ false
    pub good_language : (s.language == "" || is_longer 32 s.language) ≡ false
    pub good_provider : (s.provider == "" || is_longer 128 s.provider) ≡ false
    pub good_confidence : is_bad_confidence s.confidence ≡ false

  pub segment-IsStable : (s : TranscriptSegment) → IsStable s → segment lib s ≡ ok s
  unfolding segment
  segment-IsStable s h =
      rw (h.in_order, h.clean, h.full, h.short, h.good_language, h.good_provider, h.good_confidence)
        refl

  extended-IsStable : (p s : TranscriptSegment) → IsStable p → IsStable (extended lib p s)
  extended-IsStable p s h = record {
    in_order = extended_in_order p s h.in_order;
    clean = h.clean;
    full = h.full;
    short = h.short;
    good_language = h.good_language;
    good_provider = h.good_provider;
    good_confidence = h.good_confidence;
  }

  -- A segment joins the result as an extension of the last one, or after it.
  data Joins (p : TranscriptSegment) (before : List TranscriptSegment) (s : TranscriptSegment)
      : Type 0 where
    merged :
        leb s.start_seconds p.end_seconds ≡ true
        → absorb lib p before s ≡ ok (extended lib p s ∷ before)
        → Joins p before s
    appended : absorb lib p before s ≡ ok (s ∷ p ∷ before) → Joins p before s

  absorb_cases :
      (p : TranscriptSegment) (before : List TranscriptSegment) (s : TranscriptSegment)
      → IsStable p
      → Joins p before s
  unfolding absorb repeats
  absorb_cases p before s h = elim (Bool-cases (repeats lib s p)) [
    | inl y ↦
        merged (ground arith)
          (rw (y, segment-IsStable (extended lib p s) (extended-IsStable p s h)))
    | inr n ↦ appended (rw n)
  ]

  falling_extended :
      (p s : TranscriptSegment) (before : List TranscriptSegment)
      → is_falling (extended lib p s ∷ before) ≡ is_falling (p ∷ before)
  falling_extended p s [] = refl
  falling_extended p s (x ∷ xs) = refl

  onto-rises :
      (x : TranscriptSegment) (xs ys : List TranscriptSegment)
      → is_falling (x ∷ xs) ≡ true
      → rises_from x.start_seconds ys ≡ true
      → is_monotonic (onto lib (x ∷ xs) ys) ≡ true
  unfolding onto
  onto-rises x [] ys f r = ground (arith, r)
  onto-rises x (y ∷ xs) ys f r = onto-rises y xs (x ∷ ys) (ground arith) (ground arith)

  onto-covers :
      (xs ys : List TranscriptSegment) (t : ℕ)
      → is_covered (ranges_of (onto lib xs ys)) t
        ≡ (is_covered (ranges_of xs) t || is_covered (ranges_of ys) t)
  unfolding onto
  onto-covers [] ys t = refl
  onto-covers (x ∷ xs) ys t = onto-covers xs (x ∷ ys) t ∙ ground arith

  -- What the loop over segments ends in, from a result so far.
  abbrev Ends :
      TranscriptSegment
      → List TranscriptSegment
      → List TranscriptSegment
      → Result (List TranscriptSegment)
      → Type 0
  Ends p before ss (ok rs) =
      (is_monotonic rs ≡ true)
      × ((t : ℕ)
          → is_covered (ranges_of rs) t
            ≡ (is_covered (ranges_of (p ∷ before)) t || is_covered (ranges_of ss) t))
  Ends p before ss (err code) =
      (code ≡ "TRANSCRIPT_NOT_MONOTONIC") × (rises_from p.start_seconds ss ≡ false)
  Ends p before ss crash = ⊥

  lies_in-extended :
      (p s : TranscriptSegment) (t : ℕ)
      → p.start_seconds ≤ s.start_seconds
      → s.start_seconds ≤ p.end_seconds
      → lies_in t (range_of (extended lib p s)) ≡ (lies_in t (range_of p) || lies_in t (range_of s))
  lies_in-extended p s t l m = ground arith

  -- A round in which the segment is merged into the last one.
  Ends-merged :
      (p s : TranscriptSegment) (before ss : List TranscriptSegment)
      (x : Result (List TranscriptSegment))
      → p.start_seconds ≤ s.start_seconds
      → s.start_seconds ≤ p.end_seconds
      → Ends (extended lib p s) before ss x
      → Ends p before (s ∷ ss) x
  Ends-merged p s before ss (ok rs) l m h =
      (h.0, λ t. h.1 t ∙ rw (lies_in-extended p s t l m) (ground arith))
  Ends-merged p s before ss (err code) l m h = (
    h.0,
    elim (Bool-cases (rises_from s.start_seconds ss)) [
      | inl y ↦
          absurd (true-false (sym (rises_from_lower p.start_seconds s.start_seconds ss l y) ∙ h.1))
      | inr n ↦ ground arith
    ],
  )
  Ends-merged p s before ss crash l m h = elim h [ ]

  Ends-appended :
      (p s : TranscriptSegment) (before ss : List TranscriptSegment)
      (x : Result (List TranscriptSegment))
      → Ends s (p ∷ before) ss x
      → Ends p before (s ∷ ss) x
  Ends-appended p s before ss (ok rs) h = (h.0, λ t. h.1 t ∙ ground arith)
  Ends-appended p s before ss (err code) h = (h.0, ground arith)
  Ends-appended p s before ss crash h = elim h [ ]

  normalize_loop_lem :
      (p : TranscriptSegment) (before ss : List TranscriptSegment)
      → IsStable p
      → All IsStable ss
      → is_falling (p ∷ before) ≡ true
      → Ends p before ss (normalize_loop lib (p ∷ before) ss)
  unfolding normalize_loop
  normalize_loop_lem p before [] h a f =
      (onto-rises p before [] f refl, λ t. onto-covers (p ∷ before) [] t)
  normalize_loop_lem p before (s ∷ ss) h a f =
      elim (Bool-cases (ltb s.start_seconds p.start_seconds)) [
        | inl y ↦ rw y (refl, ground arith)
        | inr n ↦ elim (absorb_cases p before s h) [
          | merged m e ↦
              rw (n, e)
                (Ends-merged p s before ss _ (ground arith) (leb→le s.start_seconds p.end_seconds m)
                  (normalize_loop_lem (extended lib p s) before ss (extended-IsStable p s h) a.1
                    (falling_extended p s before ∙ f)))
          | appended e ↦
              rw (n, e)
                (Ends-appended p s before ss _
                  (normalize_loop_lem s (p ∷ before) ss a.0 a.1 (ground arith)))
        ]
      ]

-- What `normalize_segments` answers: segments whose starts do not fall and that cover the times that
-- the input covers, or the error of an input whose starts fall.
abbrev pub IsNormal : List TranscriptSegment → Result (List TranscriptSegment) → Type 0
IsNormal segments (ok rs) =
    (is_monotonic rs ≡ true)
    × ((t : ℕ) → is_covered (ranges_of rs) t ≡ is_covered (ranges_of segments) t)
IsNormal segments (err code) = (code ≡ "TRANSCRIPT_NOT_MONOTONIC") × (is_monotonic segments ≡ false)
IsNormal segments crash = ⊥

from_first :
    (lib : TextLibrary) (s : TranscriptSegment) (ss : List TranscriptSegment)
    (x : Result (List TranscriptSegment))
    → Ends lib s [] ss x
    → IsNormal (s ∷ ss) x
from_first lib s ss (ok rs) h = (h.0, λ t. h.1 t ∙ ground arith)
from_first lib s ss (err code) h = (h.0, ground arith)
from_first lib s ss crash h = elim h [ ]

-- Segments that the constructor accepts and leaves as they are: `normalize_segments` returns
-- segments whose starts do not fall and that cover exactly the times that the given ones cover, or
-- it raises TRANSCRIPT_NOT_MONOTONIC, and then the starts of the given ones do fall.
pub normalize_segments-IsNormal :
    (lib : TextLibrary) (segments : List TranscriptSegment)
    → All (IsStable lib) segments
    → IsNormal segments (normalize_segments lib segments)
unfolding normalize_segments normalize_loop
normalize_segments-IsNormal lib [] a = (refl, λ t. refl)
normalize_segments-IsNormal lib (s ∷ ss) a =
    from_first lib s ss _ (normalize_loop_lem lib s [] ss a.0 a.1 refl)
