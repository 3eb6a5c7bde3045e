-- ===== src/Cast/Releases.antt =====
-- The key of a release, "S" and "E" with their numbers (media_release_monitor.py).
use skeleton_media.Base.{
  ℕ, ◌+◌, ◌-◌, ◌*◌, String, Bool, true, ◌&&◌, ◌||◌, Option, none, some, List, [], ◌∷◌, length, ltb,
  leb, ◌==◌, string_eq, nat_eq, if◌then◌else◌,
}
use skeleton_media.Value.{codes}

abbrev digit : ℕ → Bool
digit c = leb 48 c && leb c 57

abbrev number : ℕ → List ℕ → ℕ
number n [] = n
number n (c ∷ cs) = number (n * 10 + (c - 48)) cs

-- `\d{1,n}` to the end of the text
abbrev digits : ℕ → List ℕ → Option ℕ
digits n cs = if leb 1 (length cs) && leb (length cs) n && only cs then some (number 0 cs) else none
  where
    only : List ℕ → Bool
    only [] = true
    only (c ∷ cs) = digit c && only cs

-- What stands before and after the first `E`.
abbrev split_episode : List ℕ → Option (List ℕ × List ℕ)
split_episode [] = none
split_episode (c ∷ cs) =
    if c == b'E' || c == b'e'
    then some ([], cs)
    else elim (split_episode cs) [ some (before, after) ↦ some (c ∷ before, after) | none ↦ none ]

abbrev release_numbers : Option ℕ → Option ℕ → ℕ × ℕ
release_numbers (some s) (some e) = (s, e)
release_numbers _ _ = (0, 0)

abbrev episode_numbers : Option (List ℕ × List ℕ) → ℕ × ℕ
episode_numbers none = (0, 0)
episode_numbers (some (s, e)) = release_numbers (digits 3 s) (digits 4 e)

-- `_release_tuple`; the digits are those of ASCII.
unfoldable pub release_tuple : String → ℕ × ℕ
release_tuple key = elim (codes key) [
  | [] ↦ (0, 0)
  | c ∷ cs ↦
      if c == b'S' || c == b's' || c == 383 then episode_numbers (split_episode cs) else (0, 0)
]

-- `>` of two tuples
abbrev pub is_later : ℕ × ℕ → ℕ × ℕ → Bool
is_later a b = ltb b.0 a.0 || ((a.0 == b.0) && ltb b.1 a.1)
