-- ===== src/Queue/Records.antt =====
-- `QueueRecord` (queue.py): its validation and its two conversions. Times are whole seconds.
pub mod RoundTrip
use skeleton_media.Base.{
  ℕ, ◌+◌, ◌-◌, ◌≡◌, String, Bool, true, false, not, ◌&&◌, ◌||◌, Option, none, some, List, [], ◌∷◌,
  ◌==◌, string_eq, nat_eq, ltb, leb, if◌then◌else◌, length, take, drop, all, Result, ok, err, crash,
  ◌>>=◌, ◌>>◌, raise_if,
}
use skeleton_media.Value.{
  Value, null, bool, int, float, infinite, text, obj, Fields, end, field, get, fields_strict,
  Python, to_str, to_int, to_float, to_dict, codes,
}

pub data QueueState : Type 0 where
  pending processing done failed quarantined : QueueState

abbrev pub state_name : QueueState → String
state_name pending = "pending"
state_name processing = "processing"
state_name done = "done"
state_name failed = "failed"
state_name quarantined = "quarantined"

-- `state in _STATES`, with the state that it names.
pub state_of : String → Option QueueState
state_of s =
    if s == "pending"
    then some pending
    else if s == "processing"
    then some processing
    else if s == "done"
    then some done
    else if s == "failed"
    then some failed
    else if s == "quarantined"
    then some quarantined
    else none

abbrev between : ℕ → ℕ → ℕ → Bool
between lo hi c = leb lo c && leb c hi

is_hex : ℕ → Bool
is_hex c = between b'0' b'9' c || between b'a' b'f' c

is_token_char : ℕ → Bool
is_token_char c =
    between b'A' b'Z' c
    || between b'a' b'z' c
    || between b'0' b'9' c
    || c == b'_'
    || c == b'.'
    || c == b':'
    || c == b'-'

abbrev same_codes : List ℕ → List ℕ → Bool
same_codes [] [] = true
same_codes (a ∷ as') (b ∷ bs) = (a == b) && same_codes as' bs
same_codes _ _ = false

-- `_ID_RE.fullmatch`: `job_` and 32 hexadecimal digits.
unfoldable pub is_id : String → Bool
unfolding is_hex
is_id s =
    let cs = codes s in
    same_codes (take 4 cs) (codes "job_") && (length cs == 36) && all is_hex (drop 4 cs)

-- `_WORKER_RE.fullmatch` and `_TOKEN_RE.fullmatch`, which are one expression.
unfoldable pub is_token : String → Bool
unfolding is_token_char
is_token s = let cs = codes s in leb 1 (length cs) && leb (length cs) 128 && all is_token_char cs

abbrev pub is_token_or_none : Option String → Bool
is_token_or_none none = true
is_token_or_none (some s) = is_token s

pub record QueueRecord : Type 0 where
  pub schema : String
  pub record_id : String
  pub idempotency_key : String
  pub operation : String
  pub payload : Fields
  pub state : QueueState
  pub attempts : ℕ
  pub available_at : ℕ
  pub lease_until : Option ℕ
  pub worker_id : Option String
  pub reason_code : Option String
  pub created_at : ℕ
  pub updated_at : ℕ

abbrev pub record_schema : String
record_schema = "skeleton.video_understanding.queue_record.v1"

-- `QueueRecord(…)` and `replace(record, …)`: the record, if `__post_init__` accepts it. The tests on
-- the types of the fields and the state are the types of the model.
unfoldable pub checked : QueueRecord → Result QueueRecord
checked r = do
  raise_if (not (r.schema == record_schema)) "QUEUE_SCHEMA_INVALID"
  raise_if (not (is_id r.record_id)) "QUEUE_RECORD_ID_INVALID"
  raise_if (not (is_token_or_none r.worker_id)) "QUEUE_WORKER_INVALID"
  raise_if (not (is_token r.operation)) "QUEUE_OPERATION_INVALID"
  raise_if (not (is_token_or_none r.reason_code)) "QUEUE_REASON_INVALID"
  raise_if (not (fields_strict r.payload)) "QUEUE_PAYLOAD_INVALID"
  ok r

abbrev pub or_null : {A : Type 0} → (A → Value) → Option A → Value
or_null f none = null
or_null f (some a) = f a

-- `to_dict`, in the order of the fields.
unfoldable pub record_to_dict : QueueRecord → Fields
record_to_dict r = field "schema" (text r.schema) (
    field "record_id" (text r.record_id) (
      field "idempotency_key" (text r.idempotency_key) (
        field "operation" (text r.operation) (
          field "payload" (obj r.payload) (
            field "state" (text (state_name r.state)) (
              field "attempts" (int r.attempts) (
                field "available_at" (float r.available_at) (
                  field "lease_until" (or_null float r.lease_until) (
                    field "worker_id" (or_null text r.worker_id) (
                      field "reason_code" (or_null text r.reason_code) (
                        field "created_at" (float r.created_at)
                          (field "updated_at" (float r.updated_at) end))))))))))))

abbrev pub is_bool : Option Value → Bool
is_bool (some (bool b)) = true
is_bool _ = false

-- A `KeyError`, `TypeError` or `ValueError` inside the `try` of `from_dict`.
abbrev required : {A : Type 0} → (Value → Option A) → Option Value → Option A
required f none = none
required f (some v) = f v

-- `f(v) if v is not None else None`
abbrev pub optional : {A : Type 0} → (Value → Option A) → Option Value → Option (Option A)
optional f none = some none
optional f (some null) = some none
optional f (some v) = elim (f v) [ none ↦ none | some a ↦ some (some a) ]

abbrev or_invalid : {A : Type 0} → Option A → Result A
or_invalid none = err "QUEUE_RECORD_INVALID"
or_invalid (some a) = ok a

-- `int(value["attempts"])`: an `OverflowError` is not caught.
abbrev attempts_of : Python → Option Value → Result ℕ
attempts_of py (some infinite) = crash
attempts_of py v = or_invalid (required (to_int py) v)

-- `VideoUnderstandingError` is a `ValueError`: what `__post_init__` raises is caught as well.
abbrev mask : {A : Type 0} → Result A → Result A
mask (err e) = err "QUEUE_RECORD_INVALID"
mask r = r

-- `from_dict`. The source accepts a time that is not finite (`json.loads` reads `NaN` and `Infinity`); the
-- times of the model are finite, and such a dictionary is refused here.
unfoldable pub from_dict : Python → Fields → Result QueueRecord
unfolding get to_str to_int to_float to_dict state_of
from_dict py d = do
  raise_if (is_bool (get d "attempts")) "QUEUE_RECORD_INVALID"
  raise_if
      (is_bool (get d "available_at")
        || is_bool (get d "created_at")
        || is_bool (get d "updated_at")
        || is_bool (get d "lease_until"))
      "QUEUE_RECORD_INVALID"
  schema ← or_invalid (required (λ v. some (to_str py v)) (get d "schema"))
  record_id ← or_invalid (required (λ v. some (to_str py v)) (get d "record_id"))
  idempotency_key ← or_invalid (required (λ v. some (to_str py v)) (get d "idempotency_key"))
  operation ← or_invalid (required (λ v. some (to_str py v)) (get d "operation"))
  payload ← or_invalid (required (to_dict py) (get d "payload"))
  state ← or_invalid (required (λ v. state_of (to_str py v)) (get d "state"))
  attempts ← attempts_of py (get d "attempts")
  available_at ← or_invalid (required (to_float py) (get d "available_at"))
  lease_until ← or_invalid (optional (to_float py) (get d "lease_until"))
  worker_id ← or_invalid (optional (λ v. some (to_str py v)) (get d "worker_id"))
  reason_code ← or_invalid (optional (λ v. some (to_str py v)) (get d "reason_code"))
  created_at ← or_invalid (required (to_float py) (get d "created_at"))
  updated_at ← or_invalid (required (to_float py) (get d "updated_at"))
  mask (
      checked (record {
        schema = schema;
        record_id = record_id;
        idempotency_key = idempotency_key;
        operation = operation;
        payload = payload;
        state = state;
        attempts = attempts;
        available_at = available_at;
        lease_until = lease_until;
        worker_id = worker_id;
        reason_code = reason_code;
        created_at = created_at;
        updated_at = updated_at;
      }))
