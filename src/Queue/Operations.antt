-- ===== src/Queue/Operations.antt =====
-- The methods of `FileQueue` (queue.py). Each runs under the queue's lock, so it is one action on the
-- files; an error leaves the files as they are when it is raised. The clock is read once, before.
pub mod Consistent
pub mod Steps
pub mod Keeps
mod Find
mod Enqueue
pub mod Calls
pub mod Lease
pub mod Protects
pub mod Claims
pub mod Outcomes
pub mod Working
mod Tests
use skeleton_media.Base.{
  ℕ, ◌+◌, ◌-◌, ◌*◌, ◌^◌, ◌≡◌, String, Bool, true, false, not, ◌&&◌, ◌||◌, Option, none, some, List,
  [], ◌∷◌, ◌==◌, string_eq, nat_eq, ltb, leb, if◌then◌else◌, length, min, Result, ok, err, crash,
  raise_if,
}
use Prim.Native.String.{◌++◌}
use skeleton_media.Value.{Fields, fields_strict, Python, codes}
use skeleton_media.Queue.Records.{
  QueueState, pending, processing, done, failed, quarantined, QueueRecord, record_schema, is_id,
  is_token, checked,
}
use skeleton_media.Queue.Files.{
  Files, look, unlink, write, read, sorted_names, count_in, same_state,
}

abbrev pub M : Type 0 → Type 0
M A = Files → Result A × Files

abbrev pub continue : {A B : Type 0} → Result A × Files → (A → M B) → Result B × Files
continue (ok a, fs) f = f a fs
continue (err e, fs) f = (err e, fs)
continue (crash, fs) f = (crash, fs)

infixl 5 ◌>>=◌ ◌>>◌
abbrev pub ◌>>=◌ : {A B : Type 0} → M A → (A → M B) → M B
◌>>=◌ m f fs = continue (m fs) f

abbrev pub ◌>>◌ : {A B : Type 0} → M A → M B → M B
m >> k = m >>= λ _. k

abbrev pub pure : {A : Type 0} → A → M A
pure a fs = (ok a, fs)

-- An action that leaves the files alone.
abbrev pub lift : {A : Type 0} → Result A → M A
lift r fs = (r, fs)

abbrev pub modify : (Files → Files) → M (Unit {0})
modify f fs = (ok tt, f fs)

-- `RuntimeLimits`, as far as the queue reads it, and the library functions that it calls.
pub record Config : Type 0 where
  pub lease_seconds : ℕ
  pub max_attempts : ℕ
  pub python : Python
  -- `hashlib.sha256(key.encode("utf-8")).hexdigest()[:32]`
  pub digest : String → String

abbrev pub states : List QueueState
states = pending ∷ processing ∷ done ∷ failed ∷ quarantined ∷ []

-- `record.lease_until is None or record.lease_until > now`
abbrev pub is_leased : QueueRecord → ℕ → Bool
is_leased r now = elim r.lease_until [ none ↦ true | some t ↦ ltb now t ]

abbrev pub recovered : QueueRecord → ℕ → QueueRecord
recovered r now = record r {
  state = pending;
  available_at = now;
  lease_until = none;
  worker_id = none;
  reason_code = some "LEASE_EXPIRED";
  updated_at = now;
}

abbrev pub claimed : QueueRecord → String → ℕ → ℕ → QueueRecord
claimed r worker lease now = record r {
  state = processing;
  attempts = r.attempts + 1;
  lease_until = some (now + lease);
  worker_id = some worker;
  reason_code = none;
  updated_at = now;
}

pub is_owner : QueueRecord → String → Bool
is_owner r worker =
    same_state r.state processing && elim r.worker_id [ none ↦ false | some w ↦ w == worker ]

-- `min(3600.0, 30.0 * (2 ** max(0, record.attempts - 1)))`
abbrev pub retry_delay : ℕ → ℕ
retry_delay attempts = min 3600 (30 * 2 ^ (attempts - 1))

-- `replace` at a heartbeat.
abbrev pub extended : QueueRecord → ℕ → ℕ → QueueRecord
extended r until now = record r { lease_until = some until; updated_at = now }

-- `replace` at the end of a lease: no lease, no worker, and a reason.
abbrev pub released : QueueRecord → QueueState → Option String → ℕ → QueueRecord
released r s reason now = record r {
  state = s;
  lease_until = none;
  worker_id = none;
  reason_code = reason;
  updated_at = now;
}

module _ (cfg : Config) where
  -- `_path`, for a state of the enumeration.
  abbrev path : String → M (Unit {0})
  path n = lift (raise_if (not (is_id n)) "QUEUE_PATH_INVALID")

  abbrev read_at : QueueState → String → M QueueRecord
  read_at s n fs = (read cfg.python (look s n fs), fs)

  -- `self._write(self._path(state, name), record)`
  abbrev write_at : QueueState → String → QueueRecord → M (Unit {0})
  write_at s n r = do path n; modify (write s n r)

  -- `lease_seconds or self.config.limits.lease_seconds`
  abbrev pub lease_or_default : Option ℕ → ℕ
  lease_or_default none = cfg.lease_seconds
  lease_or_default (some n) = if n == 0 then cfg.lease_seconds else n

  -- The loop of `_find`.
  unfoldable pub find_in : List QueueState → String → M (List QueueRecord)
  find_in [] n fs = (ok [], fs)
  find_in (s ∷ ss) n fs = elim (look s n fs) [
    | none ↦ find_in ss n fs
    | some c ↦ (do r ← lift (read cfg.python (some c)); rs ← find_in ss n; pure (r ∷ rs)) fs
  ]

  abbrev at_most_one : List QueueRecord → M (Option QueueRecord)
  at_most_one [] = pure none
  at_most_one (r ∷ []) = pure (some r)
  at_most_one (r ∷ _) = lift (err "QUEUE_DUPLICATE_STATE")

  unfoldable pub find : String → M (Option QueueRecord)
  unfolding find_in
  find n = do
    lift (raise_if (not (is_id n)) "QUEUE_RECORD_ID_INVALID")
    rs ← find_in states n
    at_most_one rs

  -- `not idempotency_key or len(idempotency_key) > 4096`
  unfoldable pub is_bad_key : String → Bool
  is_bad_key key = key == "" || ltb 4096 (length (codes key))

  abbrev pub record_id_of : String → String
  record_id_of key = "job_" ++ cfg.digest key

  abbrev pub new_record : String → Fields → String → Option ℕ → ℕ → QueueRecord
  new_record operation payload key available now = record {
    schema = record_schema;
    record_id = record_id_of key;
    idempotency_key = key;
    operation = operation;
    payload = payload;
    state = pending;
    attempts = 0;
    available_at = elim available [ none ↦ now | some t ↦ t ];
    lease_until = none;
    worker_id = none;
    reason_code = none;
    created_at = now;
    updated_at = now;
  }

  abbrev pub return_or_add : QueueRecord → Option QueueRecord → M QueueRecord
  return_or_add r (some existing) = pure existing
  return_or_add r none = do new ← lift (checked r); write_at pending r.record_id new; pure new

  unfoldable pub enqueue : String → Fields → String → Option ℕ → ℕ → M QueueRecord
  enqueue operation payload key available now = do
    lift (raise_if (is_bad_key key) "QUEUE_IDEMPOTENCY_INVALID")
    lift (raise_if (not (is_token operation)) "QUEUE_OPERATION_INVALID")
    lift (raise_if (not (fields_strict payload)) "QUEUE_PAYLOAD_INVALID")
    existing ← find (record_id_of key)
    return_or_add (new_record operation payload key available now) existing

  -- A round of `_recover_expired_locked`; it gives the number of records that it moved.
  pub recover_read : ℕ → String → QueueRecord → M ℕ
  recover_read now n r =
      let move = (do
        back ← lift (checked (recovered r now))
        write_at pending r.record_id back
        modify (unlink processing n)
        pure 1) in
      if is_leased r now then pure 0 else move

  unfoldable pub recover_one : ℕ → String → M ℕ
  unfolding recover_read
  recover_one now n = do r ← read_at processing n; recover_read now n r

  unfoldable pub recover_loop : ℕ → List String → M ℕ
  recover_loop now [] = pure 0
  recover_loop now (n ∷ ns) = do k ← recover_one now n; rest ← recover_loop now ns; pure (k + rest)

  unfoldable pub recover_expired : ℕ → M ℕ
  unfolding recover_loop recover_one
  recover_expired now fs = recover_loop now (sorted_names processing fs) fs

  -- A round of the loop of `claim`, with the rest of the loop.
  pub claim_read :
      String → ℕ → ℕ → String → M (Option QueueRecord) → QueueRecord → M (Option QueueRecord)
  claim_read worker lease now n rest r =
      let take_it = (do
        c ← lift (checked (claimed r worker lease now))
        write_at processing r.record_id c
        modify (unlink pending n)
        pure (some c)) in
      if ltb now r.available_at then rest else take_it

  -- The loop of `claim` over the pending files.
  unfoldable pub claim_loop : String → ℕ → ℕ → List String → M (Option QueueRecord)
  unfolding claim_read
  claim_loop worker lease now [] = pure none
  claim_loop worker lease now (n ∷ ns) = do
    r ← read_at pending n
    claim_read worker lease now n (claim_loop worker lease now ns) r

  unfoldable pub claim : String → Option ℕ → ℕ → M (Option QueueRecord)
  unfolding recover_expired claim_loop
  claim worker lease_seconds now = do
    lift (raise_if (not (is_token worker)) "QUEUE_WORKER_INVALID")
    recover_expired now
    λ fs. claim_loop worker (lease_or_default lease_seconds) now (sorted_names pending fs) fs

  -- The start of the three calls that need the lease: the record, read and owned.
  pub owned : String → String → M QueueRecord
  owned n worker = do
    path n
    r ← read_at processing n
    lift (raise_if (not (is_owner r worker)) "QUEUE_LEASE_OWNER_MISMATCH")
    pure r

  pub heartbeat : String → String → Option ℕ → ℕ → M QueueRecord
  heartbeat n worker lease_seconds now = do
    r ← owned n worker
    updated ← lift (checked (extended r (now + lease_or_default lease_seconds) now))
    modify (write processing n updated)
    pure updated

  -- The record is written to its new place, then its old file is removed.
  abbrev move_to : QueueState → String → QueueRecord → M QueueRecord
  move_to s n r = do write_at s n r; modify (unlink processing n); pure r

  pub complete : String → String → ℕ → M QueueRecord
  complete n worker now = do
    r ← owned n worker
    d ← lift (checked (released r done none now))
    move_to done n d

  -- `permanent or record.attempts >= self.config.limits.max_attempts`
  abbrev pub gives_up : Bool → ℕ → Bool
  gives_up permanent attempts = permanent || leb cfg.max_attempts attempts

  abbrev pub failure_state : QueueRecord → Bool → QueueState
  failure_state r permanent = if gives_up permanent r.attempts then quarantined else pending

  abbrev pub after_failure : QueueRecord → String → Bool → ℕ → QueueRecord
  after_failure r reason permanent now =
      record (released r (failure_state r permanent) (some reason) now) {
        available_at = now + (if gives_up permanent r.attempts then 0 else retry_delay r.attempts);
      }

  pub fail : String → String → String → Bool → ℕ → M QueueRecord
  fail n worker reason permanent now = do
    lift (raise_if (not (is_token reason)) "QUEUE_REASON_INVALID")
    r ← owned n worker
    f ← lift (checked (after_failure r reason permanent now))
    move_to (failure_state r permanent) n f

  pub get : String → M QueueRecord
  get n = do
    found ← find n
    lift (elim found [ none ↦ err "QUEUE_RECORD_NOT_FOUND" | some r ↦ ok r ])

  unfoldable pub counts : M (List (QueueState × ℕ))
  counts fs = (ok (count_all states), fs)
    where
      count_all : List QueueState → List (QueueState × ℕ)
      count_all [] = []
      count_all (s ∷ ss) = (s, count_in s fs) ∷ count_all ss
