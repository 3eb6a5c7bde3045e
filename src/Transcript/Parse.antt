-- ===== src/Transcript/Parse.antt =====
-- The parsers of transcripts (transcript.py): time stamps, WebVTT, SubRip and JSON.
pub mod Lines
mod Tests
use skeleton_media.Base.{
  ℕ, zero, suc, ◌+◌, ◌-◌, ◌*◌, String, Bool, true, false, not, ◌&&◌, ◌||◌, Option, none, some, List,
  [], ◌∷◌, ◌++◌, ◌==◌, string_eq, nat_eq, leb, length, drop, all, if◌then◌else◌, Result, ok, err,
  crash, ◌>>=◌, ◌>>◌, raise_if,
}
use Prim.Native.Char.{Char, code}
use Prim.Native.String.{◌++◌ as append}
use skeleton_media.Value.{
  Value, Items, Fields, null, bool, int, float, text, arr, obj, nil, cons, get, codes, Python,
  to_str,
}
use skeleton_media.Values.Fields.{begins}
use skeleton_media.Transcript.Segments.{TextLibrary, TranscriptSegment, normalize_text, segment}

abbrev with_char : Char → List String → List String
with_char c [] = String.◌∷◌ c "" ∷ []
with_char c (p ∷ ps) = String.◌∷◌ c p ∷ ps

abbrev starts_with : ℕ → String → Bool
starts_with n String.[] = false
starts_with n (String.◌∷◌ c s) = code c == n

-- `text.replace("\r\n", "\n").replace("\r", "\n").split("\n")`
abbrev pub lines_of : String → List String
lines_of String.[] = "" ∷ []
lines_of (String.◌∷◌ c s) =
    if code c == 13 && starts_with 10 s
    then lines_of s
    else if code c == 13 || code c == 10
    then "" ∷ lines_of s
    else with_char c (lines_of s)

abbrev drop_text : ℕ → String → String
drop_text zero s = s
drop_text (suc n) String.[] = ""
drop_text (suc n) (String.◌∷◌ c s) = drop_text n s

abbrev with_first : Char → Option (String × String) → Option (String × String)
with_first c none = none
with_first c (some (a, b)) = some (String.◌∷◌ c a, b)

-- `line.split("-->", 1)`, where the line has the arrow.
abbrev pub at_arrow : String → Option (String × String)
at_arrow String.[] = none
at_arrow (String.◌∷◌ c s) =
    if begins (codes "-->") (codes (String.◌∷◌ c s))
    then some ("", drop_text 2 s)
    else with_first c (at_arrow s)

-- `s.split(" ", 1)[0]`
abbrev before_space : String → String
before_space String.[] = ""
before_space (String.◌∷◌ c s) = if code c == 32 then "" else String.◌∷◌ c (before_space s)

-- `" ".join(texts)`
abbrev pub join_words : List String → String
join_words [] = ""
join_words (p ∷ []) = p
join_words (p ∷ q ∷ ps) = append p (append " " (join_words (q ∷ ps)))

abbrev is_digit : ℕ → Bool
is_digit c = leb 48 c && leb c 57

abbrev pair : ℕ → ℕ → ℕ
pair a b = 10 * (a - 48) + (b - 48)

-- The groups of `_TIMESTAMP_RE` after the hours: minutes, seconds and milliseconds. The digits are
-- those of ASCII.
abbrev after_hours : List ℕ → Option (ℕ × (ℕ × ℕ))
after_hours (m ∷ n ∷ colon ∷ s ∷ t ∷ dot ∷ x ∷ y ∷ z ∷ []) =
    if all is_digit (m ∷ n ∷ s ∷ t ∷ x ∷ y ∷ z ∷ [])
      && (colon == b':')
      && (dot == b',' || dot == b'.')
    then some (pair m n, (pair s t, 10 * pair x y + (z - 48)))
    else none
after_hours _ = none

abbrev with_hours : ℕ → Option (ℕ × (ℕ × ℕ)) → Option (ℕ × (ℕ × (ℕ × ℕ)))
with_hours h none = none
with_hours h (some t) = some (h, t)

-- `_TIMESTAMP_RE.fullmatch`
abbrev timestamp_match : List ℕ → Option (ℕ × (ℕ × (ℕ × ℕ)))
timestamp_match (g ∷ h ∷ c ∷ cs) =
    if is_digit g && (h == b':')
    then with_hours (g - 48) (after_hours (c ∷ cs))
    else if is_digit g && is_digit h && (c == b':')
    then with_hours (pair g h) (after_hours cs)
    else none
timestamp_match _ = none

abbrev pub line_at : List String → ℕ → Option String
line_at [] i = none
line_at (line ∷ lines) zero = some line
line_at (line ∷ lines) (suc i) = line_at lines i

abbrev pub on_some {ℓ κ} : {A : Type ℓ} {B : Type κ} → (A → B) → Option A → Option B
on_some f none = none
on_some f (some a) = some (f a)

module _ (lib : TextLibrary) where
  -- `parse_timestamp`, in milliseconds.
  unfoldable pub parse_timestamp : String → Result ℕ
  parse_timestamp value = elim (timestamp_match (codes (lib.strip value))) [
    | none ↦ err "TRANSCRIPT_TIMESTAMP_INVALID"
    | some (hours, (minutes, (seconds, milliseconds))) ↦ do
      raise_if (leb 60 minutes || leb 60 seconds) "TRANSCRIPT_TIMESTAMP_INVALID"
      ok (((hours * 3600 + minutes * 60 + seconds) * 1000) + milliseconds)
  ]

  -- The two times of a line with an arrow.
  unfoldable pub cue_times : String × String → Result (ℕ × ℕ)
  unfolding parse_timestamp
  cue_times (start_raw, end_raw) = do
    start ← parse_timestamp (before_space (lib.strip start_raw))
    end ← parse_timestamp (before_space (lib.strip end_raw))
    ok (start, end)

  -- A cue that is not empty, before the later ones.
  unfoldable pub push :
      String
      → String
      → ℕ × ℕ
      → String
      → Result (List TranscriptSegment)
      → Result (List TranscriptSegment)
  unfolding normalize_text
  push language provider times said rest =
      let cleaned = normalize_text lib said in
      if cleaned == ""
      then rest
      else (segment lib (record {
        start_seconds = times.0;
        end_seconds = times.1;
        text = cleaned;
        language = language;
        provider = provider;
        confidence = none;
        provenance = "subtitle";
      })
          >>= λ s. rest >>= λ ss. ok (s ∷ ss))

  -- The inner loop of `parse_vtt`: the lines up to a blank one.
  abbrev pub cue_lines : List String → List String
  cue_lines [] = []
  cue_lines (line ∷ lines) = if lib.strip line == "" then [] else line ∷ cue_lines lines

  -- The loop of `parse_vtt` from an index, with fuel for its rounds: `none` if the fuel runs out.
  unfoldable pub vtt_loop :
      String → String → ℕ → List String → ℕ → Option (Result (List TranscriptSegment))
  unfolding cue_times push
  vtt_loop language provider zero lines index = none
  vtt_loop language provider (suc fuel) lines index = elim (line_at lines index) [
    | none ↦ some (ok [])
    | some line ↦ elim (at_arrow (lib.strip line)) [
      | none ↦ vtt_loop language provider fuel lines (suc index)
      | some raw ↦ elim (cue_times raw) [
        | err e ↦ some (err e)
        | crash ↦ some crash
        | ok times ↦
            let said = cue_lines (drop (suc index) lines) in
            on_some (push language provider times (join_words said))
              (vtt_loop language provider fuel lines (suc (suc index + length said)))
      ]
    ]
  ]

  pub parse_vtt : String → String → String → Option (Result (List TranscriptSegment))
  unfolding vtt_loop
  parse_vtt language provider content =
      let lines = lines_of content in vtt_loop language provider (suc (length lines)) lines 0
