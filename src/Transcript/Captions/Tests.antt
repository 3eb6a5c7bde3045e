-- ===== src/Transcript/Captions/Tests.antt =====
-- Rolling captions at concrete inputs.
use skeleton_media.Base.{leb, ◌≡◌, refl, ℕ, String, none, List, [], ◌∷◌, map, ok, All}
use skeleton_media.Transcript.Segments.{TextLibrary, TranscriptSegment, segment, normalize_text}
use skeleton_media.Transcript.Parse.{lines_of}
use skeleton_media.Transcript.Captions.{
  Words, overlap_token, Rolling, comparable_of, overlap_from, overlap_of, rolled, emit,
  compact_loop,
}
use skeleton_media.Transcript.Captions.Tails.{EndsWith}
use skeleton_media.Transcript.Captions.Reads.{written, texts, left, tokens, compact_loop-EndsWith}

abbrev as_is : String → String
as_is s = s

abbrev texts_as_is : TextLibrary
texts_as_is = record {
  drop_tags = as_is;
  unescape = as_is;
  drop_zero_width = as_is;
  join_spaces = as_is;
  strip = as_is;
  casefold = as_is;
}

-- Words are split at line ends here.
abbrev split_lines : Words
split_lines = record { split = lines_of; is_word_code = λ c. leb b'A' c }

abbrev caption : ℕ → ℕ → String → TranscriptSegment
caption s e t = record {
  start_seconds = s;
  end_seconds = e;
  text = t;
  language = "uk";
  provider = "test";
  confidence = none;
  provenance = "subtitle";
}

abbrev captions : List TranscriptSegment
captions = caption 0 1000 "a\nb!" ∷ caption 900 2000 "a,\nb\nc" ∷ []

abbrev compacted : List TranscriptSegment
compacted =
    caption 0 1000 "a b!"
    ∷ record (caption 900 2000 "c") { provenance = "subtitle:rolling_overlap_removed" }
    ∷ []

abbrev start : Rolling
start = record { tail = []; previous = none }

-- Another word with the same token takes the place of a word.
c_sharp_lost :
    compact_loop texts_as_is split_lines 3000 128 start
      (caption 0 1000 "C++\nis\nfast" ∷ caption 900 2000 "C#\nis\nfast\ntoo" ∷ [])
    ≡ ok (
        caption 0 1000 "C++ is fast"
        ∷ record (caption 900 2000 "too") { provenance = "subtitle:rolling_overlap_removed" }
        ∷ [])
unfolding compact_loop emit rolled overlap_of overlap_from overlap_token segment normalize_text
c_sharp_lost = refl

captions-compacted : compact_loop texts_as_is split_lines 3000 128 start captions ≡ ok compacted
unfolding compact_loop emit rolled overlap_of overlap_from overlap_token segment normalize_text
captions-compacted = refl

compact_loop-EndsWith_example :
    (map (λ t. t.text) compacted
      ≡ texts texts_as_is split_lines 3000 128
          (written texts_as_is split_lines 3000 128 start captions))
    × All
        (λ h.
          EndsWith
            (comparable_of texts_as_is split_lines 3000 128 h.0)
            (tokens texts_as_is split_lines 3000 128 h.1))
        (left texts_as_is split_lines 3000 128 start [] captions)
compact_loop-EndsWith_example =
    compact_loop-EndsWith texts_as_is split_lines 3000 128 captions compacted captions-compacted
