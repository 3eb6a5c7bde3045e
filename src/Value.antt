-- ===== src/Value.antt =====
-- Python values as the program gets them from `json.loads` and hands them to `json.dumps`, and the
-- conversions that the code applies to them (used by video_understanding/queue.py, worker.py and
-- home_edge/media_display_ownership.py).
use skeleton_media.Base.{
  ℕ, String, Bool, true, false, ◌&&◌, Option, none, some, ◌==◌, string_eq, if◌then◌else◌, List, [],
  ◌∷◌,
}
use Prim.Native.Char.{code}

-- Numbers are natural: `int n`, and `float n` for a float with a whole value. `nan` is the
-- float that is no number, `infinite` stands for the two infinite ones, `foreign` for the objects that JSON does not have.
mutual
  pub data Value : Type 0 where
    null : Value
    bool : Bool → Value
    int float : ℕ → Value
    nan infinite : Value
    text : String → Value
    arr : Items → Value
    obj : Fields → Value
    foreign : Value

  pub data Items : Type 0 where
    nil : Items
    cons : Value → Items → Items

  pub data Fields : Type 0 where
    end : Fields
    field : String → Value → Fields → Fields

-- `value.get(key)`, with the absence of the key kept apart.
unfoldable pub get : Fields → String → Option Value
get end k = none
get (field j v fs) k = if j == k then some v else get fs k

-- `json.dumps(value, allow_nan=False)` returns.
unfoldable mutual
  pub is_strict : Value → Bool
  is_strict nan = false
  is_strict infinite = false
  is_strict foreign = false
  is_strict (arr xs) = items_strict xs
  is_strict (obj fs) = fields_strict fs
  is_strict _ = true

  pub items_strict : Items → Bool
  items_strict nil = true
  items_strict (cons v xs) = is_strict v && items_strict xs

  pub fields_strict : Fields → Bool
  fields_strict end = true
  fields_strict (field k v fs) = is_strict v && fields_strict fs

-- Conversions of Python's library that this repository does not define: `str(v)` of a value that is
-- no text, `int(s)` and `float(s)` of a text, and `dict(v)` of a value that is no mapping.
pub record Python : Type 0 where
  pub str_of : Value → String
  pub int_of : String → Option ℕ
  pub float_of : String → Option ℕ
  pub dict_of : Value → Option Fields

module _ (py : Python) where
  -- `str(v)`
  unfoldable pub to_str : Value → String
  to_str (text s) = s
  to_str v = py.str_of v

  -- `int(v)`; `none` is a `TypeError` or a `ValueError`. Of an infinite float it is an `OverflowError`,
  -- for which the caller has to look.
  unfoldable pub to_int : Value → Option ℕ
  to_int (int n) = some n
  to_int (float n) = some n
  to_int (bool true) = some 1
  to_int (bool false) = some 0
  to_int (text s) = py.int_of s
  to_int _ = none

  -- `float(v)`; `none` is a `TypeError` or a `ValueError`, or a float that is not finite, which is no
  -- time of the model.
  unfoldable pub to_float : Value → Option ℕ
  to_float (int n) = some n
  to_float (float n) = some n
  to_float (bool true) = some 1
  to_float (bool false) = some 0
  to_float (text s) = py.float_of s
  to_float _ = none

  -- `dict(v)`
  unfoldable pub to_dict : Value → Option Fields
  to_dict (obj fs) = some fs
  to_dict v = py.dict_of v

-- The code points of a text.
abbrev pub codes : String → List ℕ
codes String.[] = []
codes (String.◌∷◌ c s) = code c ∷ codes s
