-- ===== src/Queue/Operations/Keeps.antt =====
-- Every call of `FileQueue` keeps the directories consistent, whatever it answers.
use skeleton_media.Base.{
  ℕ, ◌+◌, ◌≡◌, ◌≢◌, refl, sym, ◌∙◌, ap, subst, String, Bool, true, Option, none, some, List, [],
  ◌∷◌, Result, ok, err, crash, inl, inr, Bool-cases, Option-cases, arith, ltb,
}
use skeleton_media.Queue.Records.{
  QueueState, pending, processing, done, failed, quarantined, QueueRecord, is_id, is_token,
}
use skeleton_media.Queue.Records.RoundTrip.{IsValid}
use skeleton_media.Queue.Files.{Content, Files, look, unlink, write, read, sorted_names}
use skeleton_media.Queue.Operations.{
  M, continue, Config, is_leased, recovered, claimed, is_owner, released, extended, failure_state,
  after_failure, lease_or_default, recover_one, recover_loop, recover_expired, claim_loop, claim,
  owned, heartbeat, complete, fail,
}
use skeleton_media.Queue.Operations.Consistent.{
  LeaseFits, content_of, IsStored, IsConsistent, write-IsConsistent, move-IsConsistent,
}
use skeleton_media.Queue.Operations.Steps.{
  recover_one_lem, claim_read_lem, complete_lem, heartbeat_lem, fail_lem, recovered-IsValid,
  claimed-IsValid, released-IsValid, extended-IsValid, failed-IsValid, read_valid,
}

-- What a place holds: nothing, or a record stored well.
pub data Slot (s : QueueState) (n : String) (fs : Files) : Type 0 where
  empty : look s n fs ≡ none → Slot s n fs
  full :
      (r : QueueRecord)
      → n ≡ r.record_id
      → look s r.record_id fs ≡ some (content_of r)
      → IsStored s r.record_id r
      → Slot s n fs

pub slot : (s : QueueState) (n : String) (fs : Files) → IsConsistent fs → Slot s n fs
slot s n fs h = elim (Option-cases (look s n fs)) [
  | inl e ↦ empty e
  | inr (c, e) ↦
      let (r, q, k) = h.stored s n c e in
      full r (sym k.named)
        (subst (λ o. look s o fs ≡ some (content_of r)) (sym k.named) (e ∙ ap some q))
        (subst (λ o. IsStored s o r) (sym k.named) k)
]

unleased :
    (s : QueueState) (r : QueueRecord)
    → processing ≢ s
    → r.lease_until ≡ none
    → r.worker_id ≡ none
    → LeaseFits s r
unleased processing r d a b = absurd (d refl)
unleased pending r d a b = (a, b)
unleased done r d a b = (a, b)
unleased failed r d a b = (a, b)
unleased quarantined r d a b = (a, b)

-- Nothing else has the name of a stored record.
pub only_here :
    (s : QueueState) (r : QueueRecord) (fs : Files)
    → IsConsistent fs
    → look s r.record_id fs ≡ some (content_of r)
    → (t : QueueState) (d : Content) → look t r.record_id fs ≡ some d
    → t ≡ s
only_here s r fs h at t d p = h.single t s r.record_id d (content_of r) p at

-- An action that keeps a consistent queue consistent, whether it returns or raises.
abbrev pub Keeps : {A : Type 0} → M A → Type 0
Keeps m = (fs : Files) → IsConsistent fs → IsConsistent (m fs).1

pub continue-Keeps :
    {A B : Type 0} (x : Result A × Files) (f : A → M B)
    → IsConsistent x.1
    → ((a : A) → Keeps (f a))
    → IsConsistent (continue x f).1
continue-Keeps (ok a, fs) f h k = k a fs h
continue-Keeps (err e, fs) f h k = h
continue-Keeps (crash, fs) f h k = h

-- The change that hands a record to a worker.
pub claimed-IsConsistent :
    (r : QueueRecord) (worker : String) (lease now : ℕ) (fs : Files)
    → IsConsistent fs
    → is_token worker ≡ true
    → look pending r.record_id fs ≡ some (content_of r)
    → IsValid r
    → IsConsistent
        (unlink pending r.record_id (write processing r.record_id (claimed r worker lease now) fs))
claimed-IsConsistent r worker lease now fs h w at v =
    move-IsConsistent processing r.record_id (claimed r worker lease now) fs pending (λ e. cc) h
      (only_here pending r fs h at)
      (record {
        in_state = refl;
        named = refl;
        valid = claimed-IsValid r worker lease now v w;
        fits = (λ e. cc, λ e. cc);
      })

module _ (cfg : Config) where
  pub recover_one-Keeps : (now : ℕ) (n : String) → Keeps (recover_one cfg now n)
  recover_one-Keeps now n fs h = elim (slot processing n fs h) [
    | empty e ↦ unfold recover_one read in rw e h
    | full r named at k ↦
        rw (named, recover_one_lem cfg r fs now at k.valid)
          (elim (Bool-cases (is_leased r now)) [
            | inl leased ↦ rw leased h
            | inr over ↦ rw over (
                move-IsConsistent pending r.record_id (recovered r now) fs processing (λ e. cc) h
                  (only_here processing r fs h at)
                  (record {
                    in_state = refl;
                    named = refl;
                    valid = recovered-IsValid r now k.valid;
                    fits = (refl, refl);
                  }))
          ])
  ]

  recover_loop-Keeps : (now : ℕ) (ns : List String) → Keeps (recover_loop cfg now ns)
  unfolding recover_loop
  recover_loop-Keeps now [] fs h = h
  recover_loop-Keeps now (n ∷ ns) fs h =
      continue-Keeps (recover_one cfg now n fs) _ (recover_one-Keeps now n fs h) λ k gs g.
        continue-Keeps (recover_loop cfg now ns gs) _ (recover_loop-Keeps now ns gs g) (λ m ks i. i)

  pub recover_expired-Keeps : (now : ℕ) → Keeps (recover_expired cfg now)
  unfolding recover_expired
  recover_expired-Keeps now fs h = recover_loop-Keeps now (sorted_names processing fs) fs h

  pub claim_loop-Keeps :
      (worker : String) (lease now : ℕ) (ns : List String)
      → is_token worker ≡ true
      → Keeps (claim_loop cfg worker lease now ns)
  unfolding claim_loop
  claim_loop-Keeps worker lease now [] w fs h = h
  claim_loop-Keeps worker lease now (n ∷ ns) w fs h = elim (slot pending n fs h) [
    | empty e ↦ unfold read in rw e h
    | full r named at k ↦
        rw (named, at, read_valid cfg.python r k.valid)
          (rw
            (claim_read_lem cfg r fs worker lease now (claim_loop cfg worker lease now ns) k.valid
              w)
            (elim (Bool-cases (ltb now r.available_at)) [
              | inl later ↦ rw later (claim_loop-Keeps worker lease now ns w fs h)
              | inr ready ↦ rw ready (claimed-IsConsistent r worker lease now fs h w at k.valid)
            ]))
  ]

  pub claim-Keeps :
      (worker : String) (lease : Option ℕ) (now : ℕ) → Keeps (claim cfg worker lease now)
  unfolding claim
  claim-Keeps worker lease now fs h = elim (Bool-cases (is_token worker)) [
    | inr bad ↦ rw bad h
    | inl w ↦ rw w (
        continue-Keeps (recover_expired cfg now fs) _ (recover_expired-Keeps now fs h) λ k gs g.
          claim_loop-Keeps worker (lease_or_default cfg lease) now (sorted_names pending gs) w gs g)
  ]

  pub owned_absent :
      (n worker : String) (fs : Files)
      → look processing n fs ≡ none
      → (e : String) × (owned cfg n worker fs ≡ (err e, fs))
  unfolding owned read
  owned_absent n worker fs e = elim (Bool-cases (is_id n)) [
    | inl i ↦ ("QUEUE_RECORD_NOT_FOUND", rw (i, e))
    | inr i ↦ ("QUEUE_PATH_INVALID", rw i)
  ]

  pub complete-Keeps : (n worker : String) (now : ℕ) → Keeps (complete cfg n worker now)
  complete-Keeps n worker now fs h = elim (slot processing n fs h) [
    | empty e ↦ unfold complete in rw (owned_absent n worker fs e).1 h
    | full r named at k ↦
        rw (named, complete_lem cfg r fs worker now at k.valid)
          (elim (Bool-cases (is_owner r worker)) [
            | inr o ↦ rw o h
            | inl o ↦ rw o (
                move-IsConsistent done r.record_id (released r done none now) fs processing
                  (λ e. cc) h (only_here processing r fs h at)
                  (record {
                    in_state = refl;
                    named = refl;
                    valid = released-IsValid r done none now k.valid refl;
                    fits = (refl, refl);
                  }))
          ])
  ]

  pub heartbeat-Keeps :
      (n worker : String) (lease : Option ℕ) (now : ℕ) → Keeps (heartbeat cfg n worker lease now)
  heartbeat-Keeps n worker lease now fs h = elim (slot processing n fs h) [
    | empty e ↦ unfold heartbeat in rw (owned_absent n worker fs e).1 h
    | full r named at k ↦
        rw (named, heartbeat_lem cfg r fs worker lease now at k.valid)
          (elim (Bool-cases (is_owner r worker)) [
            | inr o ↦ rw o h
            | inl o ↦ rw o (
                write-IsConsistent processing r.record_id
                  (extended r (now + lease_or_default cfg lease) now) fs h
                  (only_here processing r fs h at)
                  (record {
                    in_state = k.in_state;
                    named = refl;
                    valid = extended-IsValid r (now + lease_or_default cfg lease) now k.valid;
                    fits = (λ e. cc, k.fits.1);
                  }))
          ])
  ]

  pub away : (r : QueueRecord) (permanent : Bool) → processing ≢ failure_state cfg r permanent
  away r permanent e = ground arith

  pub fail-Keeps :
      (n worker reason : String) (permanent : Bool) (now : ℕ)
      → Keeps (fail cfg n worker reason permanent now)
  fail-Keeps n worker reason permanent now fs h = elim (Bool-cases (is_token reason)) [
    | inr bad ↦ unfold fail in rw bad h
    | inl w ↦ elim (slot processing n fs h) [
      | empty e ↦ unfold fail in rw (w, (owned_absent n worker fs e).1) h
      | full r named at k ↦
          rw (named, fail_lem cfg r fs worker reason permanent now at k.valid w)
            (elim (Bool-cases (is_owner r worker)) [
              | inr o ↦ rw o h
              | inl o ↦ rw o (
                  move-IsConsistent (failure_state cfg r permanent) r.record_id
                    (after_failure cfg r reason permanent now) fs processing (away r permanent) h
                    (only_here processing r fs h at)
                    (record {
                      in_state = refl;
                      named = refl;
                      valid = failed-IsValid cfg r reason permanent now k.valid w;
                      fits =
                          unleased (failure_state cfg r permanent) _ (away r permanent) refl refl;
                    }))
            ])
    ]
  ]
