-- ===== src/Transcript/Captions.antt =====
-- `compact_rolling_captions` (transcript.py): captions that repeat what was just said lose the words that
-- stand at the end of the text so far. Times are whole milliseconds.
pub mod Tails
pub mod Reads
mod Tests
use skeleton_media.Base.{
  ℕ, zero, suc, ◌+◌, ◌-◌, String, Bool, true, false, not, ◌&&◌, ◌||◌, Option, none, some, List, [],
  ◌∷◌, ◌++◌, map, ◌==◌, string_eq, nat_eq, ltb, leb, min, length, take, drop, all, if◌then◌else◌,
  Result, ok, err, crash, ◌>>=◌,
}
use Prim.Native.Char.{code}
use Prim.Native.String.{◌++◌ as append}
use skeleton_media.Transcript.Segments.{TextLibrary, TranscriptSegment, segment}
use skeleton_media.Transcript.Parse.{join_words}

abbrev pub same_words : List String → List String → Bool
same_words [] [] = true
same_words (x ∷ xs) (y ∷ ys) = (x == y) && same_words xs ys
same_words _ _ = false

-- `xs[-n:]` for a positive n
abbrev pub last : ℕ → List String → List String
last n xs = drop (length xs - n) xs

-- The test of one count: the first words are no empty tokens, and are the last ones of the tail.
abbrev pub overlaps : ℕ → List String → List String → Bool
overlaps count comparable tail =
    all (λ w. not (w == "")) (take count comparable)
    && same_words (last count tail) (take count comparable)

-- The loop of the counts from the largest down to 2.
unfoldable pub overlap_from : ℕ → List String → List String → ℕ
overlap_from zero comparable tail = 0
overlap_from (suc n) comparable tail =
    if leb 2 (suc n) && overlaps (suc n) comparable tail
    then suc n
    else overlap_from n comparable tail

-- Python's `s.split()`, and whether a code point is a word character (`\w`).
pub record Words : Type 0 where
  pub split : String → List String
  pub is_word_code : ℕ → Bool

-- `re.sub("^\W+", "", s)`
abbrev pub strip_left : (ℕ → Bool) → String → String
strip_left is_word String.[] = ""
strip_left is_word (String.◌∷◌ c s) =
    if is_word (code c) then String.◌∷◌ c s else strip_left is_word s

-- `re.sub("\W+$", "", s)`
abbrev pub strip_right : (ℕ → Bool) → String → String
strip_right is_word String.[] = ""
strip_right is_word (String.◌∷◌ c s) =
    let rest = strip_right is_word s in
    if rest == "" && not (is_word (code c)) then "" else String.◌∷◌ c rest

pub record Rolling : Type 0 where
  pub tail : List String
  pub previous : Option TranscriptSegment

module _ (lib : TextLibrary) (w : Words) (max_gap_seconds max_lookback_words : ℕ) where
  abbrev pub is_adjacent : Option TranscriptSegment → TranscriptSegment → Bool
  is_adjacent none s = false
  is_adjacent (some p) s =
      leb p.start_seconds s.start_seconds
      && leb s.start_seconds (p.end_seconds + max_gap_seconds)
      && (s.language == p.language)
      && (s.provider == p.provider)

  -- `_overlap_token`: the word without what stands around its word characters, casefolded.
  unfoldable pub overlap_token : String → String
  overlap_token word = lib.casefold (strip_right w.is_word_code (strip_left w.is_word_code word))

  abbrev pub comparable_of : TranscriptSegment → List String
  comparable_of s = map overlap_token (w.split s.text)

  -- The tail that the segment is compared with.
  abbrev pub kept_tail : Rolling → TranscriptSegment → List String
  kept_tail r s = if is_adjacent r.previous s then r.tail else []

  unfoldable pub overlap_of : Rolling → TranscriptSegment → ℕ
  unfolding overlap_from
  overlap_of r s =
      if is_adjacent r.previous s && leb 2 (length (w.split s.text)) && leb 2 (length r.tail)
      then overlap_from (min (min (length (comparable_of s)) (length r.tail)) max_lookback_words)
          (comparable_of s) r.tail
      else 0

  abbrev pub cut_tail : List String → List String
  cut_tail tail =
      if ltb max_lookback_words (length tail) then last max_lookback_words tail else tail

  -- The state after a segment.
  unfoldable pub rolled : Rolling → TranscriptSegment → Rolling
  unfolding overlap_of
  rolled r s =
      let overlap = overlap_of r s in
      record {
        tail =
            if ltb overlap (length (w.split s.text))
            then cut_tail (kept_tail r s ++ drop overlap (comparable_of s))
            else kept_tail r s;
        previous = some s;
      }

  -- The segment without the words that overlap, before the later ones.
  unfoldable pub emit :
      Rolling
      → TranscriptSegment
      → Result (List TranscriptSegment)
      → Result (List TranscriptSegment)
  unfolding overlap_of
  emit r s rest =
      let overlap = overlap_of r s in
      if ltb overlap (length (w.split s.text))
      then (segment lib (record s {
        text = join_words (drop overlap (w.split s.text));
        provenance =
            if overlap == 0 then s.provenance else append s.provenance ":rolling_overlap_removed";
      })
          >>= λ t. rest >>= λ ts. ok (t ∷ ts))
      else rest

  unfoldable pub compact_loop : Rolling → List TranscriptSegment → Result (List TranscriptSegment)
  unfolding rolled emit
  compact_loop r [] = ok []
  compact_loop r (s ∷ ss) = emit r s (compact_loop (rolled r s) ss)

  -- A bound out of range is a `ValueError`.
  unfoldable pub compact_rolling_captions : List TranscriptSegment → Result (List TranscriptSegment)
  unfolding compact_loop
  compact_rolling_captions segments =
      if not (leb max_gap_seconds 30000)
      then crash
      else if not (leb 2 max_lookback_words && leb max_lookback_words 512)
      then crash
      else compact_loop (record { tail = []; previous = none }) segments
