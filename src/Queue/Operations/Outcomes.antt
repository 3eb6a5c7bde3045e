-- ===== src/Queue/Operations/Outcomes.antt =====
-- How a claimed job ends: done, retried later, or in quarantine.
use skeleton_media.Base.{
  ℕ, suc, ◌+◌, ◌-◌, ◌*◌, ◌≤◌, ◌<◌, ◌≡◌, refl, ◌∙◌, ap, subst, String, Bool, true, false, Option,
  none, some, List, ok, inl, inr, ◌⊎◌, Bool-cases, arith, leb, All, min, if◌then◌else◌, leb→le,
}
use native.Mathlib.Nat.{one-le-pow, two-pow-succ}
use skeleton_media.Queue.Records.{
  QueueState, pending, processing, done, quarantined, QueueRecord, is_token,
}
use skeleton_media.Queue.Records.RoundTrip.{IsValid}
use skeleton_media.Queue.Files.{Files, look, unlink, write}
use skeleton_media.Queue.Operations.{
  Config, is_leased, recovered, is_owner, released, failure_state, after_failure, retry_delay,
  recover_one, claim, complete, fail, get,
}
use skeleton_media.Queue.Operations.Consistent.{content_of, IsConsistent}
use skeleton_media.Queue.Operations.Steps.{
  recover_one_lem, complete_lem, fail_lem, released-IsValid, failed-IsValid, recovered-IsValid,
}
use skeleton_media.Queue.Operations.Keeps.{complete-Keeps, fail-Keeps, away, recover_one-Keeps}
use skeleton_media.Queue.Operations.Find.{find_stored}
use skeleton_media.Queue.Operations.Calls.{Call, run}
use skeleton_media.Queue.Operations.Lease.{IsHeld}
use skeleton_media.Queue.Operations.Protects.{IsForeign, run-IsHeld}
use skeleton_media.Queue.Operations.Claims.{look-move_target, claim-IsGranted}

get_stored :
    (cfg : Config) (s : QueueState) (r : QueueRecord) (fs : Files)
    → IsConsistent fs
    → look s r.record_id fs ≡ some (content_of r)
    → IsValid r
    → (get cfg r.record_id fs).0 ≡ ok r
unfolding get
get_stored cfg s r fs h at v = rw (find_stored cfg s r fs h at v)

module _ (cfg : Config) (r : QueueRecord) (fs : Files) (h : IsHeld r fs) (worker : String)
    (o : is_owner r worker ≡ true) (now : ℕ) where
  complete_ok : complete cfg r.record_id worker now fs ≡ (
    ok (released r done none now),
    unlink processing r.record_id (write done r.record_id (released r done none now) fs),
  )
  complete_ok = rw (complete_lem cfg r fs worker now h.at h.valid, o)

  -- The owner of a held record completes it: the call returns the record as done, and so does `get`.
  pub complete-get :
      ((complete cfg r.record_id worker now fs).0 ≡ ok (released r done none now))
      × ((get cfg r.record_id (complete cfg r.record_id worker now fs).1).0
          ≡ ok (released r done none now))
  complete-get = (
    rw complete_ok,
    rw complete_ok (
        get_stored cfg done (released r done none now) _
          (subst (λ x. IsConsistent x.1) complete_ok
            (complete-Keeps cfg r.record_id worker now fs h.consistent))
          (look-move_target processing done r.record_id (released r done none now) fs (λ e. cc))
          (released-IsValid r done none now h.valid refl)),
  )

  module _ (reason : String) (t : is_token reason ≡ true) (permanent : Bool) where
    fail_ok : fail cfg r.record_id worker reason permanent now fs ≡ (
      ok (after_failure cfg r reason permanent now),
      unlink processing r.record_id (
          write
            (failure_state cfg r permanent)
            r.record_id
            (after_failure cfg r reason permanent now)
            fs),
    )
    fail_ok = rw (fail_lem cfg r fs worker reason permanent now h.at h.valid t, o)

    fail-get :
        (get cfg r.record_id (fail cfg r.record_id worker reason permanent now fs).1).0
        ≡ ok (after_failure cfg r reason permanent now)
    fail-get = rw fail_ok (
        get_stored cfg (failure_state cfg r permanent) (after_failure cfg r reason permanent now) _
          (subst (λ x. IsConsistent x.1) fail_ok
            (fail-Keeps cfg r.record_id worker reason permanent now fs h.consistent))
          (look-move_target processing (failure_state cfg r permanent) r.record_id
            (after_failure cfg r reason permanent now) fs (away cfg r permanent))
          (failed-IsValid cfg r reason permanent now h.valid t))

-- Whatever other callers do while the lease of a claimed record runs, its worker can finish the job:
-- after a claim over consistent directories that returned a record, and any calls that are foreign
-- to it, `complete` by the worker returns the record as done, and so does `get` then.
pub claim-complete :
    (cfg : Config) (worker : String) (lease : Option ℕ) (now later : ℕ) (fs : Files)
    (c : QueueRecord) (cs : List Call)
    → is_token worker ≡ true
    → IsConsistent fs
    → (claim cfg worker lease now fs).0 ≡ ok (some c)
    → All (IsForeign c) cs
    → let gs = run cfg cs (claim cfg worker lease now fs).1 in
      ((complete cfg c.record_id worker later gs).0 ≡ ok (released c done none later))
      × ((get cfg c.record_id (complete cfg c.record_id worker later gs).1).0
          ≡ ok (released c done none later))
claim-complete cfg worker lease now later fs c cs w h e f =
    let g = claim-IsGranted cfg worker w lease now fs c h e in
    complete-get cfg c _ (run-IsHeld cfg c cs (claim cfg worker lease now fs).1 g.held f) worker
      g.owned later

delay_bounds : (attempts : ℕ) → (30 ≤ retry_delay attempts) × (retry_delay attempts ≤ 3600)
delay_bounds attempts = omega (arith, one-le-pow (attempts - 1) 2)

-- The delay before a retry is 30 seconds after the first attempt, and doubles with each further
-- attempt up to the limit of 3600 seconds.
pub retry_delay-doubles :
    (attempts : ℕ)
    → (retry_delay 1 ≡ 30)
      × (retry_delay (attempts + 2) ≡ min 3600 (2 * retry_delay (attempts + 1)))
retry_delay-doubles attempts =
    let e : attempts + 2 - 1 ≡ suc attempts = omega arith in
    let e' : attempts + 1 - 1 ≡ attempts = omega arith in
    (refl, rw (e, e') (omega (arith, two-pow-succ attempts)))

-- How `fail` files the record: in quarantine if the failure is permanent or the attempts are used
-- up, and otherwise among the pending records.
abbrev pub IsFiled : Config → QueueRecord → Bool → ℕ → QueueRecord → Type 0
IsFiled cfg r permanent now f =
    (((permanent ≡ true) ⊎ (cfg.max_attempts ≤ r.attempts)) × (f.state ≡ quarantined))
    ⊎ ((permanent ≡ false)
        × (r.attempts < cfg.max_attempts)
        × (f.state ≡ pending)
        × (now + 30 ≤ f.available_at)
        × (f.available_at ≤ now + 3600))

leb-false : (a b : ℕ) → leb a b ≡ false → b < a
leb-false a b h = ground arith

after_failure-IsFiled :
    (cfg : Config) (r : QueueRecord) (reason : String) (permanent : Bool) (now : ℕ)
    → IsFiled cfg r permanent now (after_failure cfg r reason permanent now)
after_failure-IsFiled cfg r reason true now = inl (inl refl, refl)
after_failure-IsFiled cfg r reason false now = elim (Bool-cases (leb cfg.max_attempts r.attempts)) [
  | inl g ↦ inl (inr (leb→le cfg.max_attempts r.attempts g), rw g)
  | inr g ↦
      let b = delay_bounds r.attempts in
      inr (
        refl,
        leb-false cfg.max_attempts r.attempts g,
        rw g,
        rw g (omega arith),
        rw g (omega arith),
      )
]

-- The owner of a held record fails it with a token as the reason: the call returns a record that
-- has no lease and no worker, and `get` then returns the same record. It is in quarantine if the
-- failure is permanent or `max_attempts` is reached, and otherwise pending again, between 30 and 3600
-- seconds from now.
pub fail-IsFiled :
    (cfg : Config) (r : QueueRecord) (fs : Files) (worker reason : String) (permanent : Bool)
    (now : ℕ)
    → IsHeld r fs
    → is_owner r worker ≡ true
    → is_token reason ≡ true
    → (f : QueueRecord) × ((fail cfg r.record_id worker reason permanent now fs).0 ≡ ok f)
      × ((get cfg r.record_id (fail cfg r.record_id worker reason permanent now fs).1).0 ≡ ok f)
      × (f.lease_until ≡ none)
      × (f.worker_id ≡ none)
      × IsFiled cfg r permanent now f
fail-IsFiled cfg r fs worker reason permanent now h o t = (
  after_failure cfg r reason permanent now,
  rw (fail_ok cfg r fs h worker o now reason t permanent),
  fail-get cfg r fs h worker o now reason t permanent,
  refl,
  refl,
  after_failure-IsFiled cfg r reason permanent now,
)

-- Recovery does not look at the number of attempts: a held record whose lease has ended goes back to
-- `pending`, available at once, also when `fail` at that time would put it in quarantine.
pub recovery_ignores_limit :
    (cfg : Config) (r : QueueRecord) (fs : Files) (now : ℕ)
    → IsHeld r fs
    → is_leased r now ≡ false
    → cfg.max_attempts ≤ r.attempts
    → ((get cfg r.record_id (recover_one cfg now r.record_id fs).1).0 ≡ ok (recovered r now))
      × (failure_state cfg r false ≡ quarantined)
recovery_ignores_limit cfg r fs now h over spent =
    let e = recover_one_lem cfg r fs now h.at h.valid in
    let f =
      e
      ∙ ap
          (λ b. if b then (ok 0, fs) else (
            ok 1,
            unlink processing r.record_id (write pending r.record_id (recovered r now) fs),
          ))
          over in
    (
      rw f (
          get_stored cfg pending (recovered r now) _
            (subst (λ x. IsConsistent x.1) f
              (recover_one-Keeps cfg now r.record_id fs h.consistent))
            (look-move_target processing pending r.record_id (recovered r now) fs (λ d. cc))
            (recovered-IsValid r now h.valid)),
      ground arith,
    )
