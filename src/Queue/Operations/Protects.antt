-- ===== src/Queue/Operations/Protects.antt =====
-- A live lease keeps every other caller away from the record of a worker.
use skeleton_media.Base.{
  ℕ, ◌+◌, ◌≡◌, String, Bool, true, false, Option, none, List, [], ◌∷◌, inl, inr, Bool-cases, arith,
  All,
}
use skeleton_media.Value.{Fields}
use skeleton_media.Queue.Records.{pending, processing, done, QueueRecord, is_token}
use skeleton_media.Queue.Files.{Files, look, write, sorted_names}
use skeleton_media.Queue.Files.Laws.{look-store, same_path_iff}
use skeleton_media.Queue.Operations.{
  Config, is_leased, is_owner, released, extended, failure_state, after_failure, lease_or_default,
  heartbeat, complete, fail, enqueue, recover_expired, counts,
}
use skeleton_media.Queue.Operations.Consistent.{content_of, look-move_other, look-write_other}
use skeleton_media.Queue.Operations.Steps.{complete_lem, heartbeat_lem, fail_lem}
use skeleton_media.Queue.Operations.Keeps.{empty, full, slot, owned_absent}
use skeleton_media.Queue.Operations.Calls.{
  Call, enqueues, claims, beats, completes, fails, recovers, gets, counting, after, run,
  after-keeps, get_files,
}
use skeleton_media.Queue.Operations.Enqueue.{same, added, enqueue_cases}
use skeleton_media.Queue.Operations.Lease.{
  IsHeld, stays, owner_other, claim-holds, recover_loop-holds,
}

-- The call comes from elsewhere: a call that may take expired records is made while the lease runs,
-- and a call of a worker is of one that does not own the record.
abbrev pub IsForeign : QueueRecord → Call → Type 0
IsForeign r (claims worker lease now) = is_leased r now ≡ true
IsForeign r (recovers now) = is_leased r now ≡ true
IsForeign r (beats name worker lease now) = is_owner r worker ≡ false
IsForeign r (completes name worker now) = is_owner r worker ≡ false
IsForeign r (fails name worker reason permanent now) = is_owner r worker ≡ false
IsForeign r _ = Unit

module _ (cfg : Config) (r : QueueRecord) (fs : Files) (h : IsHeld r fs) where
  complete-look :
      (n worker : String) (now : ℕ)
      → is_owner r worker ≡ false
      → look processing r.record_id (complete cfg n worker now fs).1
        ≡ look processing r.record_id fs
  complete-look n worker now w = elim (slot processing n fs h.consistent) [
    | empty e ↦ unfold complete in rw (owned_absent cfg n worker fs e).1
    | full r' named at k ↦
        rw (named, complete_lem cfg r' fs worker now at k.valid)
          (elim (Bool-cases (is_owner r' worker)) [
            | inr o ↦ rw o
            | inl o ↦ rw o (
                look-move_other processing done r'.record_id (released r' done none now) fs
                  processing r.record_id (owner_other cfg r worker r' fs h w at k.valid o))
          ])
  ]

  heartbeat-look :
      (n worker : String) (lease : Option ℕ) (now : ℕ)
      → is_owner r worker ≡ false
      → look processing r.record_id (heartbeat cfg n worker lease now fs).1
        ≡ look processing r.record_id fs
  heartbeat-look n worker lease now w = elim (slot processing n fs h.consistent) [
    | empty e ↦ unfold heartbeat in rw (owned_absent cfg n worker fs e).1
    | full r' named at k ↦
        rw (named, heartbeat_lem cfg r' fs worker lease now at k.valid)
          (elim (Bool-cases (is_owner r' worker)) [
            | inr o ↦ rw o
            | inl o ↦ rw o (
                look-write_other processing r'.record_id
                  (extended r' (now + lease_or_default cfg lease) now) fs processing r.record_id
                  (owner_other cfg r worker r' fs h w at k.valid o))
          ])
  ]

  fail-look :
      (n worker reason : String) (permanent : Bool) (now : ℕ)
      → is_owner r worker ≡ false
      → look processing r.record_id (fail cfg n worker reason permanent now fs).1
        ≡ look processing r.record_id fs
  fail-look n worker reason permanent now w = elim (Bool-cases (is_token reason)) [
    | inr bad ↦ unfold fail in rw bad
    | inl t ↦ elim (slot processing n fs h.consistent) [
      | empty e ↦ unfold fail in rw (t, (owned_absent cfg n worker fs e).1)
      | full r' named at k ↦
          rw (named, fail_lem cfg r' fs worker reason permanent now at k.valid t)
            (elim (Bool-cases (is_owner r' worker)) [
              | inr o ↦ rw o
              | inl o ↦ rw o (
                  look-move_other processing (failure_state cfg r' permanent) r'.record_id
                    (after_failure cfg r' reason permanent now) fs processing r.record_id
                    (owner_other cfg r worker r' fs h w at k.valid o))
            ])
    ]
  ]

  write_pending-look :
      (n : String) (x : QueueRecord)
      → look processing r.record_id (write pending n x fs) ≡ look processing r.record_id fs
  unfolding write
  write_pending-look n x = ground (
    arith,
    look-store pending n (content_of x) fs processing r.record_id,
    same_path_iff pending n processing r.record_id,
  )

  enqueue-look :
      (operation : String) (payload : Fields) (key : String) (available : Option ℕ) (now : ℕ)
      → look processing r.record_id (enqueue cfg operation payload key available now fs).1
        ≡ look processing r.record_id fs
  enqueue-look operation payload key available now =
      elim (enqueue_cases cfg operation payload key available now fs h.consistent) [
        | same e ↦ rw e
        | added j es e ↦ rw e (write_pending-look _ _)
      ]

  -- While a record is held, no foreign call changes it: it stays in `processing` as it was.
  pub after-holds : (c : Call) → IsForeign r c → IsHeld r (after cfg c fs)
  unfolding after recover_expired
  after-holds (claims worker lease now) l = claim-holds cfg r worker lease now fs l h
  after-holds (recovers now) l = recover_loop-holds cfg r now (sorted_names processing fs) fs l h
  after-holds (beats name worker lease now) w =
      stays cfg r fs _ h (after-keeps cfg (beats name worker lease now) fs h.consistent)
        (heartbeat-look name worker lease now w)
  after-holds (completes name worker now) w =
      stays cfg r fs _ h (after-keeps cfg (completes name worker now) fs h.consistent)
        (complete-look name worker now w)
  after-holds (fails name worker reason permanent now) w =
      stays cfg r fs _ h (after-keeps cfg (fails name worker reason permanent now) fs h.consistent)
        (fail-look name worker reason permanent now w)
  after-holds (enqueues operation payload key available now) w =
      stays cfg r fs _ h
        (after-keeps cfg (enqueues operation payload key available now) fs h.consistent)
        (enqueue-look operation payload key available now)
  after-holds (gets name) w = rw (get_files cfg name fs h.consistent) h
  after-holds counting w = unfold counts in h

-- As long as the lease of a record runs at each call that takes expired records, and no call of a
-- worker is its owner's, any sequence of calls leaves the record in `processing` as it was, and the
-- directories consistent: no one else claims, finishes, fails, extends or recovers it.
pub run-IsHeld :
    (cfg : Config) (r : QueueRecord) (cs : List Call) (fs : Files)
    → IsHeld r fs
    → All (IsForeign r) cs
    → IsHeld r (run cfg cs fs)
unfolding run
run-IsHeld cfg r [] fs h f = h
run-IsHeld cfg r (c ∷ cs) fs h f =
    run-IsHeld cfg r cs (after cfg c fs) (after-holds cfg r fs h c f.0) f.1
