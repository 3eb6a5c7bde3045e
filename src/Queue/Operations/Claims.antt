-- ===== src/Queue/Operations/Claims.antt =====
-- What a claim hands out, and how a claimed job ends.
use skeleton_media.Base.{
  ℕ, ◌+◌, ◌≡◌, ◌≢◌, refl, subst, String, true, Option, some, List, [], ◌∷◌, Result, ok, err, crash,
  inl, inr, Bool-cases, arith, ltb, eq_iff,
}
use skeleton_media.Queue.Records.{QueueState, pending, processing, QueueRecord, is_token}
use skeleton_media.Queue.Records.RoundTrip.{IsValid}
use skeleton_media.Queue.Files.{Files, look, unlink, write, read, sorted_names, same_state}
use skeleton_media.Queue.Operations.{
  M, continue, Config, claimed, is_owner, lease_or_default, recover_expired, claim_loop, claim,
}
use skeleton_media.Queue.Operations.Consistent.{content_of, IsConsistent, look-write_self}
use skeleton_media.Queue.Operations.Steps.{claim_read_lem, claimed-IsValid, read_valid}
use skeleton_media.Queue.Operations.Keeps.{
  empty, full, slot, claimed-IsConsistent, recover_expired-Keeps,
}
use skeleton_media.Queue.Operations.Lease.{IsHeld}
use skeleton_media.Queue.Files.Laws.{look-unlink, same_path_iff}

-- A record that a worker got at a time: it is held, owned, and leased up to this time.
pub record IsGranted (worker : String) (until : ℕ) (c : QueueRecord) (fs : Files) : Type 0 where
  pub held : IsHeld c fs
  pub owned : is_owner c worker ≡ true
  pub leased : c.lease_until ≡ some until

abbrev Grants : String → ℕ → Result (Option QueueRecord) × Files → Type 0
Grants worker until x = (c : QueueRecord) → x.0 ≡ ok (some c) → IsGranted worker until c x.1

pub look-move_target :
    (a s : QueueState) (n : String) (r : QueueRecord) (fs : Files)
    → a ≢ s
    → look s n (unlink a n (write s n r fs)) ≡ some (content_of r)
look-move_target a s n r fs d =
    ground
      (arith, look-unlink a n (write s n r fs) s n, look-write_self s n r fs, same_path_iff a n s n)

module _ (cfg : Config) (worker : String) (w : is_token worker ≡ true) where
  claimed_owner :
      (r : QueueRecord) (lease now : ℕ) → is_owner (claimed r worker lease now) worker ≡ true
  unfolding is_owner same_state
  claimed_owner r lease now = (eq_iff worker worker).1 refl

  granted :
      (r : QueueRecord) (lease now : ℕ) (fs : Files)
      → IsConsistent fs
      → look pending r.record_id fs ≡ some (content_of r)
      → IsValid r
      → IsGranted worker (now + lease) (claimed r worker lease now) (
          unlink pending r.record_id (write processing r.record_id (claimed r worker lease now) fs))
  granted r lease now fs h at v = record {
    held = record {
      at =
          look-move_target pending processing r.record_id (claimed r worker lease now) fs (λ e. cc);
      valid = claimed-IsValid r worker lease now v w;
      consistent = claimed-IsConsistent r worker lease now fs h w at v;
    };
    owned = claimed_owner r lease now;
    leased = refl;
  }

  claim_loop-Grants :
      (lease now : ℕ) (ns : List String) (fs : Files)
      → IsConsistent fs
      → Grants worker (now + lease) (claim_loop cfg worker lease now ns fs)
  unfolding claim_loop
  claim_loop-Grants lease now [] fs h = λ c e. cc
  claim_loop-Grants lease now (n ∷ ns) fs h = elim (slot pending n fs h) [
    | empty e ↦ unfold read in rw e (λ c q. cc)
    | full r named at k ↦
        rw (named, at, read_valid cfg.python r k.valid)
          (rw
            (claim_read_lem cfg r fs worker lease now (claim_loop cfg worker lease now ns) k.valid
              w)
            (elim (Bool-cases (ltb now r.available_at)) [
              | inl later ↦ rw later (claim_loop-Grants lease now ns fs h)
              | inr ready ↦ rw ready (λ c q.
                  subst
                    (λ x. IsGranted worker (now + lease) x (
                      unlink pending r.record_id
                        (write processing r.record_id (claimed r worker lease now) fs)))
                    (cc) (granted r lease now fs h at k.valid))
            ]))
  ]

  continue-Grants :
      {A : Type 0} (until : ℕ) (x : Result A × Files) (f : A → M (Option QueueRecord))
      → IsConsistent x.1
      → ((a : A) (gs : Files) → IsConsistent gs → Grants worker until (f a gs))
      → Grants worker until (continue x f)
  continue-Grants until (ok a, fs) f h k = k a fs h
  continue-Grants until (err e, fs) f h k = λ c q. cc
  continue-Grants until (crash, fs) f h k = λ c q. cc

  -- A claim over consistent directories that returns a record gives it to the worker: the record is
  -- held, owned by the worker, and leased from now for the lease asked for, or for the default.
  pub claim-IsGranted :
      (lease : Option ℕ) (now : ℕ) (fs : Files) (c : QueueRecord)
      → IsConsistent fs
      → (claim cfg worker lease now fs).0 ≡ ok (some c)
      → IsGranted worker (now + lease_or_default cfg lease) c (claim cfg worker lease now fs).1
  unfolding claim
  claim-IsGranted lease now fs c h = rw w (
      continue-Grants (now + lease_or_default cfg lease) (recover_expired cfg now fs) _
        (recover_expired-Keeps cfg now fs h)
        (λ a gs g.
          claim_loop-Grants (lease_or_default cfg lease) now (sorted_names pending gs) gs g)
        c)
