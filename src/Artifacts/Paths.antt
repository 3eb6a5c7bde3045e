-- ===== src/Artifacts/Paths.antt =====
-- `validate_relative_artifact_path` (manifest.py), with the parts of a path as `PurePosixPath` has
-- them: what stands between the slashes, without empty parts and single dots.
pub mod Inside
use skeleton_media.Base.{
  ℕ, String, Bool, false, not, ◌&&◌, ◌||◌, List, [], ◌∷◌, any, select, ◌==◌, string_eq, nat_eq,
  if◌then◌else◌, Result, ok, ◌>>◌, raise_if,
}
use Prim.Native.Char.{Char, code}
use Prim.Native.String.{◌++◌}
use skeleton_media.Value.{codes}

abbrev pub prepend : Char → List String → List String
prepend c [] = String.◌∷◌ c "" ∷ []
prepend c (p ∷ ps) = String.◌∷◌ c p ∷ ps

-- The text between the slashes; a text without one is its only piece.
abbrev pub pieces : String → List String
pieces String.[] = "" ∷ []
pieces (String.◌∷◌ c s) = if code c == b'/' then "" ∷ pieces s else prepend c (pieces s)

abbrev pub is_part : String → Bool
is_part p = not (p == "" || p == ".")

-- `PurePosixPath(value).parts` of a relative path.
unfoldable pub parts : String → List String
parts s = select is_part (pieces s)

-- `as_posix`
unfoldable pub join : List String → String
join [] = "."
join (p ∷ []) = p
join (p ∷ q ∷ ps) = p ++ "/" ++ join (q ∷ ps)

abbrev pub has_code : ℕ → String → Bool
has_code n s = any (λ c. c == n) (codes s)

abbrev pub is_absolute : String → Bool
is_absolute String.[] = false
is_absolute (String.◌∷◌ c s) = code c == b'/'

-- `"//" in value`
abbrev pub has_double : String → Bool
has_double String.[] = false
has_double (String.◌∷◌ c s) = (code c == b'/') && is_absolute s || has_double s

abbrev pub is_upward : String → Bool
is_upward p = p == "" || p == "." || p == ".."

abbrev pub is_unclean : String → Bool
is_unclean value = value == "" || has_code b'\\' value || has_code 0 value || has_double value

unfoldable pub validate_relative_artifact_path : String → Result String
unfolding parts join
validate_relative_artifact_path value = do
  raise_if (is_unclean value) "INVALID_ARTIFACT_PATH"
  raise_if (is_absolute value || any is_upward (parts value)) "INVALID_ARTIFACT_PATH"
  raise_if (is_absolute (join (parts value))) "INVALID_ARTIFACT_PATH"
  ok (join (parts value))
