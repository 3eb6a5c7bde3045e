-- ===== src/Queue/Records/RoundTrip.antt =====
-- Reading back what the queue writes.
use skeleton_media.Base.{◌≡◌, refl, false, ok, Option, none, some, String, ℕ}
use skeleton_media.Value.{Python, to_float, to_str, text, float}
use skeleton_media.Queue.Records.{
  QueueRecord, QueueState, pending, processing, done, failed, quarantined, state_of, state_name,
  checked, record_to_dict, from_dict, optional, or_null, is_bool,
}

-- A record that `__post_init__` accepts.
abbrev pub IsValid : QueueRecord → Type 0
IsValid r = checked r ≡ ok r

state_of-state_name : (s : QueueState) → state_of (state_name s) ≡ some s
unfolding state_of
state_of-state_name pending = refl
state_of-state_name processing = refl
state_of-state_name done = refl
state_of-state_name failed = refl
state_of-state_name quarantined = refl

optional-float :
    (py : Python) (o : Option ℕ) → optional (to_float py) (some (or_null (λ n. float n) o)) ≡ some o
unfolding to_float
optional-float py none = refl
optional-float py (some n) = refl

optional-text :
    (py : Python) (o : Option String)
    → optional (λ v. some (to_str py v)) (some (or_null (λ s. text s) o)) ≡ some o
unfolding to_str
optional-text py none = refl
optional-text py (some s) = refl

no_bool : (o : Option ℕ) → is_bool (some (or_null (λ n. float n) o)) ≡ false
no_bool none = refl
no_bool (some n) = refl

-- A valid record that is written as a dictionary is read back unchanged.
pub from_dict-to_dict :
    (py : Python) (r : QueueRecord) → IsValid r → from_dict py (record_to_dict r) ≡ ok r
unfolding from_dict record_to_dict
from_dict-to_dict py r v = rw (
  no_bool r.lease_until,
  state_of-state_name r.state,
  optional-float py r.lease_until,
  optional-text py r.worker_id,
  optional-text py r.reason_code,
  v,
)
