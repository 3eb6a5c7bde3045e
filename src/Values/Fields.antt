-- ===== src/Values/Fields.antt =====
-- The tests on single fields (models.py). Times are whole milliseconds, confidences thousandths. The
-- tests on the types of the values are the types of the model. `strip` is Python's `str.strip`.
pub mod Again
use skeleton_media.Base.{
  ℕ, ◌+◌, String, Bool, true, false, not, ◌&&◌, ◌||◌, Option, none, some, List, [], ◌∷◌, ◌==◌,
  string_eq, nat_eq, ltb, leb, length, drop, all, Result, ok, err, crash, ◌>>=◌, ◌>>◌, raise_if,
}
use skeleton_media.Value.{codes}

abbrev between : ℕ → ℕ → ℕ → Bool
between lo hi c = leb lo c && leb c hi

is_word_char : ℕ → Bool
is_word_char c =
    between b'A' b'Z' c || between b'a' b'z' c || between b'0' b'9' c || c == b'_' || c == b'-'

is_id_char : ℕ → Bool
unfolding is_word_char
is_id_char c = is_word_char c || c == b'.' || c == b':'

-- `_OPAQUE_ID_RE.fullmatch`
unfoldable pub is_opaque_id : String → Bool
unfolding is_id_char
is_opaque_id s = let cs = codes s in leb 1 (length cs) && leb (length cs) 256 && all is_id_char cs

abbrev pub begins : List ℕ → List ℕ → Bool
begins [] cs = true
begins (p ∷ ps) [] = false
begins (p ∷ ps) (c ∷ cs) = (p == c) && begins ps cs

-- `_VIDEO_RECORD_ID_RE.fullmatch`: `vr_` and 5 to 157 word characters or dashes.
unfoldable pub is_video_record_id : String → Bool
unfolding is_word_char
is_video_record_id s =
    let cs = codes s in
    begins (codes "vr_") cs
    && leb 8 (length cs)
    && leb (length cs) 160
    && all is_word_char (drop 3 cs)

abbrev pub is_longer_than : ℕ → String → Bool
is_longer_than n s = ltb n (length (codes s))

-- `_confidence`
unfoldable pub confidence : ℕ → Result ℕ
confidence c = do raise_if (ltb 1000 c) "INVALID_CONFIDENCE"; ok c

-- `_timestamp_range`
unfoldable pub timestamp_range : ℕ → ℕ → Result (ℕ × ℕ)
timestamp_range s e = do raise_if (ltb e s) "INVALID_TIMESTAMP"; ok (s, e)

is_hex_char : ℕ → Bool
is_hex_char c = between b'0' b'9' c || between b'a' b'f' c

-- `_SHA256_RE.fullmatch`
unfoldable pub is_sha256 : String → Bool
unfolding is_hex_char
is_sha256 s = let cs = codes s in (length cs == 64) && all is_hex_char cs

-- `_sha256`
unfoldable pub sha256 : String → Result String
sha256 s = do raise_if (not (is_sha256 s)) "INVALID_HASH"; ok s

module _ (strip : String → String) where
  -- `_nonempty`
  unfoldable pub nonempty : ℕ → String → Result String
  nonempty max_length value = do
    raise_if (strip value == "") "INVALID_FIELD"
    raise_if (is_longer_than max_length (strip value)) "FIELD_TOO_LARGE"
    ok (strip value)

  -- A field that may be `None`.
  unfoldable pub nonempty_or_none : ℕ → Option String → Result (Option String)
  unfolding nonempty
  nonempty_or_none max_length none = ok none
  nonempty_or_none max_length (some s) = do t ← nonempty max_length s; ok (some t)

  -- `_opaque_id`
  unfoldable pub opaque_id : String → Result String
  unfolding nonempty
  opaque_id value = do
    cleaned ← nonempty 256 value
    raise_if (not (is_opaque_id cleaned)) "INVALID_IDENTITY"
    ok cleaned

  unfoldable pub nonempty_each : List String → Result (List String)
  unfolding nonempty
  nonempty_each [] = ok []
  nonempty_each (s ∷ ss) = do t ← nonempty 4096 s; ts ← nonempty_each ss; ok (t ∷ ts)

  -- `_string_tuple`
  unfoldable pub string_tuple : List String → Result (List String)
  unfolding nonempty_each
  string_tuple values = do
    raise_if (ltb 10000 (length values)) "INVALID_SEQUENCE"
    nonempty_each values
