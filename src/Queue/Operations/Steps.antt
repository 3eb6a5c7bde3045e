-- ===== src/Queue/Operations/Steps.antt =====
-- What each round and each call does to a record that is stored well.
use skeleton_media.Base.{
  ℕ, ◌+◌, ◌≡◌, refl, String, Bool, true, false, Option, none, some, ok, err, inl, inr, Bool-cases,
  arith, ltb, if◌then◌else◌,
}
use skeleton_media.Value.{Python}
use skeleton_media.Queue.Records.{
  QueueState, pending, processing, done, QueueRecord, is_id, is_token, is_token_or_none, checked,
}
use skeleton_media.Queue.Records.RoundTrip.{IsValid, from_dict-to_dict}
use skeleton_media.Queue.Files.{Files, look, unlink, write, read}
use skeleton_media.Queue.Operations.{
  M, Config, is_leased, recovered, claimed, is_owner, released, extended, failure_state,
  after_failure, lease_or_default, recover_one, claim_read, owned, heartbeat, complete, fail,
}
use skeleton_media.Queue.Operations.Consistent.{content_of}

-- A record is valid if the fields that `__post_init__` reads come from a valid one, and the two that
-- change are tokens.
pub IsValid-replace :
    (r r' : QueueRecord)
    → IsValid r
    → r'.schema ≡ r.schema
    → r'.record_id ≡ r.record_id
    → r'.operation ≡ r.operation
    → r'.payload ≡ r.payload
    → is_token_or_none r'.worker_id ≡ true
    → is_token_or_none r'.reason_code ≡ true
    → IsValid r'
unfolding checked
IsValid-replace r r' v a b c d w x = ground (arith, a, b, c, d)

pub valid_id : (r : QueueRecord) → IsValid r → is_id r.record_id ≡ true
unfolding checked
valid_id r v = ground arith

pub valid_worker : (r : QueueRecord) → IsValid r → is_token_or_none r.worker_id ≡ true
unfolding checked
valid_worker r v = ground arith

pub valid_reason : (r : QueueRecord) → IsValid r → is_token_or_none r.reason_code ≡ true
unfolding checked
valid_reason r v = ground arith

pub read_valid : (py : Python) (r : QueueRecord) → IsValid r → read py (some (content_of r)) ≡ ok r
unfolding read
read_valid py r v = from_dict-to_dict py r v

lease_expired_is_token : is_token "LEASE_EXPIRED" ≡ true
unfolding is_token
lease_expired_is_token = refl

pub recovered-IsValid : (r : QueueRecord) (now : ℕ) → IsValid r → IsValid (recovered r now)
recovered-IsValid r now v = IsValid-replace r _ v refl refl refl refl refl lease_expired_is_token

-- A test between two actions is made where the action runs.
if_at :
    {A : Type 0} (b : Bool) (m k : M A) (fs : Files)
    → (if b then m else k) fs ≡ (if b then m fs else k fs)
if_at true m k fs = refl
if_at false m k fs = refl

pub claimed-IsValid :
    (r : QueueRecord) (worker : String) (lease now : ℕ)
    → IsValid r
    → is_token worker ≡ true
    → IsValid (claimed r worker lease now)
claimed-IsValid r worker lease now v w = IsValid-replace r _ v refl refl refl refl w refl

pub released-IsValid :
    (r : QueueRecord) (s : QueueState) (reason : Option String) (now : ℕ)
    → IsValid r
    → is_token_or_none reason ≡ true
    → IsValid (released r s reason now)
released-IsValid r s reason now v w = IsValid-replace r _ v refl refl refl refl refl w

pub extended-IsValid :
    (r : QueueRecord) (until now : ℕ) → IsValid r → IsValid (extended r until now)
extended-IsValid r until now v =
    IsValid-replace r _ v refl refl refl refl (valid_worker r v) (valid_reason r v)

pub failed-IsValid :
    (cfg : Config) (r : QueueRecord) (reason : String) (permanent : Bool) (now : ℕ)
    → IsValid r
    → is_token reason ≡ true
    → IsValid (after_failure cfg r reason permanent now)
failed-IsValid cfg r reason permanent now v w = IsValid-replace r _ v refl refl refl refl refl w

module _ (cfg : Config) (r : QueueRecord) (fs : Files) where
  pub recover_one_lem :
      (now : ℕ)
      → look processing r.record_id fs ≡ some (content_of r)
      → IsValid r
      → recover_one cfg now r.record_id fs ≡ (
          if is_leased r now then (ok 0, fs) else (
            ok 1,
            unlink processing r.record_id (write pending r.record_id (recovered r now) fs),
          ))
  unfolding recover_one
  recover_one_lem now at v =
      rw (at, read_valid cfg.python r v, recovered-IsValid r now v, valid_id r v)
        (if_at (is_leased r now) _ _ fs)

  pub claim_read_lem :
      (worker : String) (lease now : ℕ) (rest : M (Option QueueRecord))
      → IsValid r
      → is_token worker ≡ true
      → claim_read cfg worker lease now r.record_id rest r fs ≡ (
          if ltb now r.available_at then rest fs else (
            ok (some (claimed r worker lease now)),
            unlink pending r.record_id
                (write processing r.record_id (claimed r worker lease now) fs),
          ))
  unfolding claim_read
  claim_read_lem worker lease now rest v w =
      rw (claimed-IsValid r worker lease now v w, valid_id r v)
        (if_at (ltb now r.available_at) _ _ fs)

  -- The three calls of a worker read the record and test its owner alike.
  pub owned_lem :
      (worker : String)
      → look processing r.record_id fs ≡ some (content_of r)
      → IsValid r
      → owned cfg r.record_id worker fs
        ≡ (if is_owner r worker then (ok r, fs) else (err "QUEUE_LEASE_OWNER_MISMATCH", fs))
  unfolding owned
  owned_lem worker at v = elim (Bool-cases (is_owner r worker)) [
    | inl o ↦ rw (valid_id r v, at, read_valid cfg.python r v, o)
    | inr o ↦ rw (valid_id r v, at, read_valid cfg.python r v, o)
  ]

  pub complete_lem :
      (worker : String) (now : ℕ)
      → look processing r.record_id fs ≡ some (content_of r)
      → IsValid r
      → complete cfg r.record_id worker now fs ≡ (
          if is_owner r worker
          then (
            ok (released r done none now),
            unlink processing r.record_id (write done r.record_id (released r done none now) fs),
          )
          else (err "QUEUE_LEASE_OWNER_MISMATCH", fs))
  unfolding complete
  complete_lem worker now at v = elim (Bool-cases (is_owner r worker)) [
    | inl o ↦ rw (owned_lem worker at v, o, released-IsValid r done none now v refl, valid_id r v)
    | inr o ↦ rw (owned_lem worker at v, o)
  ]

  pub heartbeat_lem :
      (worker : String) (lease : Option ℕ) (now : ℕ)
      → look processing r.record_id fs ≡ some (content_of r)
      → IsValid r
      → heartbeat cfg r.record_id worker lease now fs ≡ (
          if is_owner r worker
          then (
            ok (extended r (now + lease_or_default cfg lease) now),
            write processing r.record_id (extended r (now + lease_or_default cfg lease) now) fs,
          )
          else (err "QUEUE_LEASE_OWNER_MISMATCH", fs))
  unfolding heartbeat
  heartbeat_lem worker lease now at v = elim (Bool-cases (is_owner r worker)) [
    | inl o ↦
        rw (owned_lem worker at v, o, extended-IsValid r (now + lease_or_default cfg lease) now v)
    | inr o ↦ rw (owned_lem worker at v, o)
  ]

  pub fail_lem :
      (worker reason : String) (permanent : Bool) (now : ℕ)
      → look processing r.record_id fs ≡ some (content_of r)
      → IsValid r
      → is_token reason ≡ true
      → fail cfg r.record_id worker reason permanent now fs ≡ (
          if is_owner r worker
          then (
            ok (after_failure cfg r reason permanent now),
            unlink processing r.record_id (
                write
                  (failure_state cfg r permanent)
                  r.record_id
                  (after_failure cfg r reason permanent now)
                  fs),
          )
          else (err "QUEUE_LEASE_OWNER_MISMATCH", fs))
  unfolding fail
  fail_lem worker reason permanent now at v w = elim (Bool-cases (is_owner r worker)) [
    | inl o ↦
        rw
          (w, owned_lem worker at v, o, failed-IsValid cfg r reason permanent now v w, valid_id r v)
    | inr o ↦ rw (w, owned_lem worker at v, o)
  ]
