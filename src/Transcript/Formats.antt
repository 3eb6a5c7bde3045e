-- ===== src/Transcript/Formats.antt =====
-- SubRip and JSON transcripts, and the choice of a parser by the suffix (transcript.py).
use skeleton_media.Base.{
  ℕ, String, Bool, false, ◌&&◌, ◌||◌, Option, none, some, List, [], ◌∷◌, ◌==◌, string_eq, nat_eq,
  ltb, if◌then◌else◌, Result, ok, err, ◌>>=◌, ◌>>◌, raise_if,
}
use Prim.Native.Char.{code}
use skeleton_media.Value.{
  Value, Items, Fields, null, int, float, text, arr, obj, nil, cons, get, Python, to_str,
}
use skeleton_media.Transcript.Segments.{
  TextLibrary, TranscriptSegment, normalize_text, segment, normalize_segments,
}
use skeleton_media.Transcript.Parse.{
  lines_of, at_arrow, cue_times, push, join_words, on_some, parse_vtt,
}

-- What else the parsers call of Python's library: `re.split(r"\n\s*\n", s)`, `json.loads(s)`, `none` if it
-- raises, `s.lstrip()` and `s.splitlines()`.
pub record Formats : Type 0 where
  pub split_blocks : String → List String
  pub loads : String → Option Value
  pub lstrip : String → String
  pub splitlines : String → List String

abbrev follows_with : String → Bool
follows_with String.[] = false
follows_with (String.◌∷◌ c s) = code c == 10

-- `text.replace("\r\n", "\n").replace("\r", "\n")`
abbrev newlines : String → String
newlines String.[] = ""
newlines (String.◌∷◌ c s) =
    if code c == 13 && follows_with s
    then newlines s
    else if code c == 13
    then String.◌∷◌ "\n" (newlines s)
    else String.◌∷◌ c (newlines s)

-- The first line with an arrow, split at it, and the lines after it.
abbrev timing : List String → Option ((String × String) × List String)
timing [] = none
timing (line ∷ lines) = elim (at_arrow line) [ some raw ↦ some (raw, lines) | none ↦ timing lines ]

-- `item.get(key, item.get(other))`
abbrev get_or : Fields → String → String → Value
get_or item key other = elim (get item key) [
  | some v ↦ v
  | none ↦ elim (get item other) [ some v ↦ v | none ↦ null ]
]

abbrev value_or : Option Value → Value → Value
value_or (some v) d = v
value_or none d = d

-- `_number`
unfoldable pub number_of : Value → Result ℕ
number_of (int n) = ok n
number_of (float n) = ok n
number_of _ = err "TRANSCRIPT_NUMBER_INVALID"

-- A confidence that may be `None`.
unfoldable pub number_or_none : Value → Result (Option ℕ)
unfolding number_of
number_or_none null = ok none
number_or_none v = do n ← number_of v; ok (some n)

-- `normalize_text` of a value that is no text raises.
abbrev text_of : Value → Result String
text_of (text s) = ok s
text_of _ = err "TRANSCRIPT_TEXT_INVALID"

module _ (lib : TextLibrary) (formats : Formats) (language provider : String) where
  -- One block of `parse_srt`, before the later ones.
  unfoldable pub srt_block :
      String → Result (List TranscriptSegment) → Result (List TranscriptSegment)
  unfolding cue_times push normalize_text
  srt_block block rest = elim (timing (stripped (lines_of block))) [
    | none ↦ rest
    | some (raw, said) ↦
        if normalize_text lib (join_words said) == ""
        then rest
        else (cue_times lib raw >>= λ times.
            push lib language provider times (join_words said) rest)
  ]
    where
      stripped : List String → List String
      stripped [] = []
      stripped (line ∷ lines) =
          if lib.strip line == "" then stripped lines else lib.strip line ∷ stripped lines

  abbrev srt_blocks : List String → Result (List TranscriptSegment)
  srt_blocks [] = ok []
  srt_blocks (block ∷ blocks) = srt_block block (srt_blocks blocks)

  unfoldable pub parse_srt : String → Result (List TranscriptSegment)
  unfolding srt_block
  parse_srt content = srt_blocks (formats.split_blocks (newlines content))

  module _ (py : Python) where
    abbrev with_confidence : Fields → ℕ → ℕ → String → Option ℕ → Result TranscriptSegment
    with_confidence item start stop said confidence = segment lib (record {
      start_seconds = start;
      end_seconds = stop;
      text = said;
      language = to_str py (value_or (get item "language") (text language));
      provider = to_str py (value_or (get item "provider") (text provider));
      confidence = confidence;
      provenance = to_str py (value_or (get item "provenance") (text "local_asr"));
    })

    -- A segment of a JSON transcript, in the order of the tests of `TranscriptSegment`.
    unfoldable pub json_segment : Value → Result TranscriptSegment
    unfolding number_of number_or_none to_str
    json_segment (obj item) = do
      start ← number_of (get_or item "start" "start_seconds")
      stop ← number_of (get_or item "end" "end_seconds")
      raise_if (ltb stop start) "TRANSCRIPT_TIMESTAMP_INVALID"
      said ← text_of (value_or (get item "text") (text ""))
      with_confidence item start stop said none
      confidence ← number_or_none (value_or (get item "confidence") null)
      with_confidence item start stop said confidence
    json_segment _ = err "TRANSCRIPT_JSON_INVALID"

    unfoldable pub json_segments : Items → Result (List TranscriptSegment)
    unfolding json_segment
    json_segments nil = ok []
    json_segments (cons v vs) = do s ← json_segment v; ss ← json_segments vs; ok (s ∷ ss)

    abbrev load_lines : List String → Option Items
    load_lines [] = some nil
    load_lines (line ∷ lines) =
        if lib.strip line == ""
        then load_lines lines
        else with_value (formats.loads line) (load_lines lines)
      where
        with_value : Option Value → Option Items → Option Items
        with_value (some v) (some vs) = some (cons v vs)
        with_value _ _ = none

    abbrev segments_of : Option Value → Result (List TranscriptSegment)
    segments_of (some (arr values)) = json_segments values
    segments_of _ = err "TRANSCRIPT_JSON_INVALID"

    abbrev as_array : Option Items → Option Value
    as_array (some values) = some (arr values)
    as_array none = none

    unfoldable pub parse_json_transcript : String → Result (List TranscriptSegment)
    unfolding json_segments
    parse_json_transcript content =
        if opens_array (formats.lstrip content)
        then segments_of (formats.loads content)
        else segments_of (as_array (load_lines (formats.splitlines content)))
      where
        opens_array : String → Bool
        opens_array String.[] = false
        opens_array (String.◌∷◌ c s) = code c == b'['

    -- `parse_transcript` of a file with a suffix and a text; a file that cannot be read raises.
    unfoldable pub parse_transcript :
        String → Option String → Option (Result (List TranscriptSegment))
    unfolding parse_srt parse_json_transcript
    parse_transcript suffix none = some (err "TRANSCRIPT_READ_FAILED")
    parse_transcript suffix (some content) =
        on_some (λ parsed. parsed >>= normalize_segments lib)
          (if suffix == ".vtt"
            then parse_vtt lib language provider content
            else if suffix == ".srt"
            then some (parse_srt content)
            else if suffix == ".json" || suffix == ".jsonl"
            then some (parse_json_transcript content)
            else some (err "TRANSCRIPT_FORMAT_UNSUPPORTED"))
