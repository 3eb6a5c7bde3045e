-- ===== src/Display/Android.antt =====
-- The three expressions that are searched in the dump of the media sessions
-- (media_display_ownership.py): `_ANDROID_PLAYING_RE`, `_ANDROID_CLEAR_RE` and `_ANDROID_ACTIVE_RE`. Each
-- is a test at a position of the text, and the search makes it at every position where a word begins.
use skeleton_media.Base.{
  ℕ, String, Bool, true, false, not, ◌&&◌, ◌||◌, Option, none, some, List, [], ◌∷◌, any, take, ◌==◌,
  nat_eq, if◌then◌else◌,
}
use skeleton_media.Value.{codes}

-- What the expressions take from Python's `re`: the characters of `\w` and of `\s`, and the letters that
-- are one letter under `re.I`.
pub record Letters : Type 0 where
  pub is_word : ℕ → Bool
  pub is_space : ℕ → Bool
  pub same_letter : ℕ → ℕ → Bool

module _ (re : Letters) where
  -- `\s*`
  abbrev spaces : List ℕ → List ℕ
  spaces [] = []
  spaces (c ∷ cs) = if re.is_space c then spaces cs else c ∷ cs

  -- A literal: what follows it, if the text begins with it.
  abbrev after_text : List ℕ → List ℕ → Option (List ℕ)
  after_text [] cs = some cs
  after_text (l ∷ ls) [] = none
  after_text (l ∷ ls) (c ∷ cs) = if re.same_letter l c then after_text ls cs else none

  abbrev and_then : Option (List ℕ) → (List ℕ → Option (List ℕ)) → Option (List ℕ)
  and_then none f = none
  and_then (some cs) f = f cs

  -- A name, `\s*=\s*`
  abbrev assigned : String → List ℕ → Option (List ℕ)
  assigned name cs =
      and_then (after_text (codes name) cs)
        λ rest. and_then (after_text (codes "=") (spaces rest)) λ value. some (spaces value)

  -- `PlaybackState\s*\{\s*state\s*=\s*`
  abbrev in_braces : List ℕ → Option (List ℕ)
  in_braces cs = and_then (after_text (codes "PlaybackState") cs) λ rest.
      and_then (after_text (codes "{") (spaces rest)) λ inner. assigned "state" (spaces inner)

  -- `\b` after a word character.
  abbrev ends_word : List ℕ → Bool
  ends_word [] = true
  ends_word (c ∷ cs) = not (re.is_word c)

  -- One of the digits, and the end of the word.
  abbrev is_state : List ℕ → Option (List ℕ) → Bool
  is_state digits (some (c ∷ cs)) = any (λ d. d == c) digits && ends_word cs
  is_state digits _ = false

  -- `state\s*=\s*(?:…)?(…)\b`: with what may stand in braces, or without it.
  abbrev state_at : List ℕ → List ℕ → Bool
  state_at digits cs =
      let value = assigned "state" cs in
      is_state digits (and_then value in_braces) || is_state digits value

  abbrev is_true : Option (List ℕ) → Bool
  is_true none = false
  is_true (some cs) = elim (after_text (codes "true") cs) [
    | none ↦ false
    | some rest ↦ ends_word rest
  ]

  -- `(?:active|isActive)\s*=\s*true\b`
  abbrev active_at : List ℕ → Bool
  active_at cs = is_true (assigned "active" cs) || is_true (assigned "isActive" cs)

  -- `search` of an expression that begins with `\b` and a letter; the Boolean says that the character
  -- before the text is a word character.
  abbrev found_in : (List ℕ → Bool) → Bool → List ℕ → Bool
  found_in matches within [] = false
  found_in matches within (c ∷ cs) =
      not within && matches (c ∷ cs) || found_in matches (re.is_word c) cs

  -- `output[:2_000_000]`
  abbrev searched : String → List ℕ
  searched output = take 2000000 (codes output)

  unfoldable pub android_playing : String → Bool
  android_playing output = found_in (state_at (codes "368")) false (searched output)

  unfoldable pub android_clear : String → Bool
  android_clear output = found_in (state_at (codes "0127")) false (searched output)

  unfoldable pub android_active : String → Bool
  android_active output = found_in active_at false (searched output)
