-- ===== src/Display/Player.antt =====
-- The observation of the player (media_display_ownership.py).
use skeleton_media.Base.{
  ℕ, suc, ◌-◌, String, Bool, true, false, ◌&&◌, Option, some, List, [], ◌∷◌, ◌++◌, ◌==◌, string_eq,
  nat_eq, ltb, if◌then◌else◌, any, all,
}
use skeleton_media.Value.{
  Value, null, bool, arr, obj, Items, nil, cons, Fields, end, field, get, Python, to_str,
}
use skeleton_media.Display.Android.{Letters}

pub data Ownership : Type 0 where
  owner clear unknown : Ownership

pub record Observation : Type 0 where
  pub source : String
  pub state : Ownership
  pub reason : String

abbrev pub observe : String → Ownership → String → Observation
observe s o r = record { source = s; state = o; reason = r }

-- The text functions of Python's library that the module calls: `s.strip().lower()`,
-- `re.sub("[^a-z0-9]+", "_", s)`, `s.strip("_")`, the letters of `re`, and `str`.
pub record Texts : Type 0 where
  pub python : Python
  pub strip_lower : String → String
  pub sub_other : String → String
  pub strip_underscore : String → String
  pub letters : Letters

abbrev is_in : List String → String → Bool
is_in names s = any (λ n. n == s) names

abbrev playback_keys : List String
playback_keys =
    "state" ∷ "status" ∷ "playback" ∷ "playback_state" ∷ "playback_status" ∷ "player_state"
    ∷ "play_state" ∷ []

abbrev playing_bool_keys : List String
playing_bool_keys = "playing" ∷ "is_playing" ∷ []

abbrev playing_values : List String
playing_values = "playing" ∷ "play" ∷ "buffering" ∷ []

abbrev clear_values : List String
clear_values = "paused" ∷ "pause" ∷ "stopped" ∷ "stop" ∷ "ended" ∷ "idle" ∷ "none" ∷ []

-- `isinstance(value, (Mapping, list, tuple))`
abbrev is_container : Value → Bool
is_container (arr xs) = true
is_container (obj fs) = true
is_container _ = false

module _ (tx : Texts) where
  pub normalize_key : String → String
  normalize_key k = tx.strip_underscore (tx.sub_other (tx.strip_lower k))

  pub normalize_scalar : Value → String
  normalize_scalar (bool true) = "true"
  normalize_scalar (bool false) = "false"
  normalize_scalar null = "none"
  normalize_scalar v = tx.strip_lower (to_str tx.python v)

  scalar_markers : String → List Ownership
  scalar_markers scalar =
      if is_in playing_values scalar
      then owner ∷ []
      else if is_in clear_values scalar
      then clear ∷ []
      else []

  other_markers : String → Value → List Ownership
  unfolding scalar_markers normalize_scalar
  other_markers key v =
      if is_in playback_keys key && not_container v then scalar_markers (normalize_scalar v) else []
    where
      not_container : Value → Bool
      not_container (arr xs) = false
      not_container (obj fs) = false
      not_container _ = true

  -- The marker of one entry of a mapping.
  pub entry_markers : String → Value → List Ownership
  unfolding other_markers normalize_key
  entry_markers k (bool b) =
      if is_in playing_bool_keys (normalize_key k)
      then (if b then owner else clear) ∷ []
      else other_markers (normalize_key k) (bool b)
  entry_markers k v = other_markers (normalize_key k) v

  -- `_walk_playback_markers`: nothing below depth 4, and the first 32 items of a list. A value that
  -- is no container has no markers, so the call on each entry is as in the source.
  mutual
    unfolding entry_markers

    pub walk : ℕ → Value → List Ownership
    walk d (obj fs) = if ltb 4 d then [] else walk_fields d fs
    walk d (arr xs) = if ltb 4 d then [] else walk_items d 32 xs
    walk d _ = []

    pub walk_fields : ℕ → Fields → List Ownership
    walk_fields d end = []
    walk_fields d (field k v fs) = entry_markers k v ++ (walk (suc d) v ++ walk_fields d fs)

    pub walk_items : ℕ → ℕ → Items → List Ownership
    walk_items d n nil = []
    walk_items d n (cons v xs) = if n == 0 then [] else walk (suc d) v ++ walk_items d (n - 1) xs

  pause_observation : Option Value → Observation
  pause_observation (some (bool false)) =
      observe "skeleton_cast_player" owner "player_running_unpaused"
  pause_observation (some (bool true)) =
      observe "skeleton_cast_player" clear "player_running_paused"
  pause_observation _ = observe "skeleton_cast_player" unknown "player_pause_missing_or_invalid"

  running_observation : Option Value → Option Value → Observation
  unfolding pause_observation
  running_observation (some (bool false)) pause =
      observe "skeleton_cast_player" clear "player_running_false"
  running_observation (some (bool true)) pause = pause_observation pause
  running_observation _ pause =
      observe "skeleton_cast_player" unknown "player_running_missing_or_invalid"

  pub canonical_player_observation : Fields → Observation
  unfolding running_observation
  canonical_player_observation fs = running_observation (get fs "running") (get fs "pause")

  abbrev is_owner : Ownership → Bool
  is_owner owner = true
  is_owner _ = false

  abbrev is_clear : Ownership → Bool
  is_clear clear = true
  is_clear _ = false

  pub marker_observation : List Ownership → Observation
  marker_observation [] = observe "skeleton_cast_player" unknown "player_state_unresolved"
  marker_observation (m ∷ ms) =
      if any is_owner (m ∷ ms)
      then observe "skeleton_cast_player" owner "player_explicit_playing"
      else if all is_clear (m ∷ ms)
      then observe "skeleton_cast_player" clear "player_explicit_not_playing"
      else observe "skeleton_cast_player" unknown "player_state_unresolved"

  unfoldable pub player_observation : Value → Observation
  unfolding canonical_player_observation walk marker_observation
  player_observation (obj fs) =
      let canonical = canonical_player_observation fs in
      let marked = marker_observation (walk 0 (obj fs)) in
      elim canonical.state [ unknown ↦ marked | _ ↦ canonical ]
  player_observation _ = observe "skeleton_cast_player" unknown "player_payload_invalid"
