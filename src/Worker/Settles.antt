-- ===== src/Worker/Settles.antt =====
-- What a run of the worker does to the job that it claims.
use skeleton_media.Base.{
  ℕ, ◌+◌, ◌≤◌, ◌<◌, ◌⊎◌, ◌≡◌, refl, sym, ◌∙◌, subst, String, Bool, true, false, none, some, List,
  [], ◌∷◌, Result, ok, err, crash, Bool-cases, inl, inr, ◌==◌, string_eq,
}
use skeleton_media.Value.{Fields}
use skeleton_media.Queue.Records.{pending, quarantined, done, QueueRecord, is_token}
use skeleton_media.Queue.Files.{Files}
use skeleton_media.Queue.Operations.{
  M, continue, Config, is_owner, extended, released, recover_expired, claim, complete, fail, get,
  counts,
}
use skeleton_media.Queue.Operations.Consistent.{IsConsistent}
use skeleton_media.Queue.Operations.Keeps.{recover_expired-Keeps}
use skeleton_media.Queue.Operations.Calls.{Call, after, run}
use skeleton_media.Queue.Operations.Lease.{IsHeld}
use skeleton_media.Queue.Operations.Protects.{IsForeign, after-holds}
use skeleton_media.Queue.Operations.Claims.{claim-IsGranted}
use skeleton_media.Queue.Operations.Outcomes.{complete-get, IsFiled, fail-IsFiled}
use skeleton_media.Queue.Operations.Working.{is_owner-extended, heartbeat-IsHeld}
use skeleton_media.Worker.{
  Event, beat, other, calls_of, is_permanent, receipt, transcript_fields, video_fields, copied,
  fail_with, done_with, settle, after_claim, run_once,
}

-- The other clients' calls are foreign to the record, as the heartbeats have left it.
abbrev pub Fits : Config → QueueRecord → List Event → Type 0
Fits cfg r [] = Unit
Fits cfg r (beat now ∷ es) = Fits cfg (extended r (now + cfg.lease_seconds) now) es
Fits cfg r (other c ∷ es) = IsForeign r c × Fits cfg r es

-- The worker holds the record that it claimed, whatever its lease is by now.
record IsWorking (worker : String) (c : QueueRecord) (fs : Files) : Type 0 where
  now_at : QueueRecord
  held : IsHeld now_at fs
  owned : is_owner now_at worker ≡ true
  same_id : now_at.record_id ≡ c.record_id
  same_attempts : now_at.attempts ≡ c.attempts

module _ (cfg : Config) (worker : String) where
  run-IsWorking :
      (name : String) (c : QueueRecord) (es : List Event) (r : QueueRecord) (fs : Files)
      → IsHeld r fs
      → is_owner r worker ≡ true
      → r.record_id ≡ name
      → r.attempts ≡ c.attempts
      → name ≡ c.record_id
      → Fits cfg r es
      → IsWorking worker c (run cfg (calls_of name worker es) fs)
  unfolding run
  run-IsWorking name c [] r fs h o n a m f = record {
    now_at = r;
    held = h;
    owned = o;
    same_id = n ∙ m;
    same_attempts = a;
  }
  run-IsWorking name c (beat now ∷ es) r fs h o n a m f =
      run-IsWorking name c es (extended r (now + cfg.lease_seconds) now) _
        (subst
          (λ i.
            IsHeld (extended r (now + cfg.lease_seconds) now)
              (after cfg (Call.beats i worker none now) fs))
          n (heartbeat-IsHeld cfg r fs worker now h o))
        (is_owner-extended r worker (now + cfg.lease_seconds) now ∙ o) n a m f
  run-IsWorking name c (other x ∷ es) r fs h o n a m f =
      run-IsWorking name c es r (after cfg x fs) (after-holds cfg r fs h x f.0) o n a m f.1

-- How a job ends, by what its execution returned or raised.
abbrev pub IsSettled : Config → QueueRecord → ℕ → Result Fields → QueueRecord → Type 0
IsSettled cfg c later (ok result) f = f.state ≡ done
IsSettled cfg c later (err code) f = IsFiled cfg c (is_permanent code) later f
IsSettled cfg c later crash f = IsFiled cfg c false later f

-- A reason code of a `VideoUnderstandingError` is a token.
abbrev pub HasToken : Result Fields → Type 0
HasToken (err code) = is_token code ≡ true
HasToken _ = Unit

-- The job is stored as it ended, with no lease and no worker.
abbrev pub Ends : Config → QueueRecord → ℕ → Result Fields → Files → Type 0
Ends cfg c later outcome fs =
    (f : QueueRecord) × ((get cfg c.record_id fs).0 ≡ ok f)
    × (f.lease_until ≡ none)
    × (f.worker_id ≡ none)
    × IsSettled cfg c later outcome f

unexpected_is_token : is_token "UNEXPECTED_WORKER_FAILURE" ≡ true
unfolding is_token
unexpected_is_token = refl

-- Only the number of attempts decides how a failure is filed.
IsFiled-attempts :
    (cfg : Config) (r c : QueueRecord) (permanent : Bool) (later : ℕ) (f : QueueRecord)
    → r.attempts ≡ c.attempts
    → IsFiled cfg r permanent later f
    → IsFiled cfg c permanent later f
IsFiled-attempts cfg r c permanent later f e d =
    subst
      (λ n.
        (((permanent ≡ true) ⊎ (cfg.max_attempts ≤ n)) × (f.state ≡ quarantined))
        ⊎ ((permanent ≡ false)
            × (n < cfg.max_attempts)
            × (f.state ≡ pending)
            × (later + 30 ≤ f.available_at)
            × (f.available_at ≤ later + 3600)))
      e d

continue_quiet :
    {A B : Type 0} (x : Result A × Files) (f : A → M B)
    → ((a : A) (gs : Files) → (f a gs).1 ≡ gs)
    → (continue x f).1 ≡ x.1
continue_quiet (ok a, fs) f q = q a fs
continue_quiet (err e, fs) f q = refl
continue_quiet (crash, fs) f q = refl

module _ (cfg : Config) (worker : String) (c : QueueRecord) (later : ℕ) where
  -- The files after an action that only reads, or after one that another action follows.
  ends_done :
      (result : Fields) (recovered : ℕ) (fs : Files)
      → (done_with cfg worker result c recovered later fs).1
        ≡ (complete cfg c.record_id worker later fs).1
  unfolding done_with receipt counts
  ends_done result recovered fs =
      continue_quiet (complete cfg c.record_id worker later fs) _ λ r gs.
        elim (Bool-cases (c.operation == "video_transcribe_url")) [
          | inl y ↦ rw y (continue_quiet (copied transcript_fields result, gs) _ (λ x hs. refl))
          | inr n ↦ rw n (continue_quiet (copied video_fields result, gs) _ (λ x hs. refl))
        ]

  ends_failed :
      (reason : String) (permanent : Bool) (recovered : ℕ) (fs : Files)
      → (fail_with cfg worker reason permanent c recovered later fs).1
        ≡ (fail cfg c.record_id worker reason permanent later fs).1
  unfolding fail_with receipt counts
  ends_failed reason permanent recovered fs =
      continue_quiet (fail cfg c.record_id worker reason permanent later fs) _ (λ r gs. refl)

  -- A failure of the job that the worker holds, whatever its lease is by now.
  failed_ends :
      (reason : String) (permanent : Bool) (fs : Files)
      → IsWorking worker c fs
      → is_token reason ≡ true
      → (f : QueueRecord) × ((get cfg c.record_id
            (fail cfg c.record_id worker reason permanent later fs).1).0
          ≡ ok f)
        × (f.lease_until ≡ none)
        × (f.worker_id ≡ none)
        × IsFiled cfg c permanent later f
  failed_ends reason permanent fs w t =
      let (f, e, g, l, k, d) =
        fail-IsFiled cfg w.now_at fs worker reason permanent later w.held w.owned t in
      (
        f,
        subst (λ i. (get cfg i (fail cfg i worker reason permanent later fs).1).0 ≡ ok f) w.same_id
            g,
        l,
        k,
        IsFiled-attempts cfg w.now_at c permanent later f w.same_attempts d,
      )

  completed_ends :
      (fs : Files)
      → IsWorking worker c fs
      → (f : QueueRecord) × ((get cfg c.record_id (complete cfg c.record_id worker later fs).1).0
          ≡ ok f)
        × (f.lease_until ≡ none)
        × (f.worker_id ≡ none)
        × (f.state ≡ done)
  completed_ends fs w = (
    released w.now_at done none later,
    subst
        (λ i.
          (get cfg i (complete cfg i worker later fs).1).0 ≡ ok (released w.now_at done none later))
        w.same_id (complete-get cfg w.now_at fs w.held worker w.owned later).1,
    refl,
    refl,
    refl,
  )

  settle-Ends :
      (outcome : Result Fields) (recovered : ℕ) (fs : Files)
      → IsWorking worker c fs
      → HasToken outcome
      → Ends cfg c later outcome (settle cfg worker outcome c recovered later fs).1
  unfolding settle
  settle-Ends (ok result) recovered fs w t =
      subst (Ends cfg c later (ok result)) (sym (ends_done result recovered fs))
        (completed_ends fs w)
  settle-Ends (err code) recovered fs w t =
      subst (Ends cfg c later (err code)) (sym (ends_failed code (is_permanent code) recovered fs))
        (failed_ends code (is_permanent code) fs w t)
  settle-Ends crash recovered fs w t =
      subst (Ends cfg c later crash)
        (sym (ends_failed "UNEXPECTED_WORKER_FAILURE" false recovered fs))
        (failed_ends "UNEXPECTED_WORKER_FAILURE" false fs w unexpected_is_token)

continue_ok :
    {A B : Type 0} (x : Result A × Files) (f : A → M B) (a : A)
    → x.0 ≡ ok a
    → continue x f ≡ f a x.1
continue_ok (ok b, fs) f a e = cc
continue_ok (err m, fs) f a e = absurd (cc)
continue_ok (crash, fs) f a e = absurd (cc)

-- A run of the worker whose claim returns a job ends that job, whatever its execution does: while
-- it runs, the worker's heartbeats extend the lease, and the calls of other clients are foreign to
-- the record as the heartbeats have left it. Afterwards `get` finds the job with no lease and no
-- worker: done if the execution returned, and otherwise filed as a failure, a permanent one if the
-- reason code, which is a token, begins with a permanent prefix.
pub run_once-Ends :
    (cfg : Config) (worker : String) (execute : QueueRecord → Result Fields) (during : List Event)
    (now later recovered : ℕ) (fs : Files) (c : QueueRecord)
    → is_token worker ≡ true
    → IsConsistent fs
    → (recover_expired cfg now fs).0 ≡ ok recovered
    → (claim cfg worker none now (recover_expired cfg now fs).1).0 ≡ ok (some c)
    → Fits cfg c during
    → HasToken (execute c)
    → Ends cfg c later (execute c) (run_once cfg worker false execute during now later fs).1
unfolding run_once after_claim
run_once-Ends cfg worker execute during now later recovered fs c w h e0 e1 d t =
    let gs = (recover_expired cfg now fs).1 in
    let g = claim-IsGranted cfg worker w none now gs c (recover_expired-Keeps cfg now fs h) e1 in
    let hs = (claim cfg worker none now gs).1 in
    subst (λ x. Ends cfg c later (execute c) x.1)
      (sym (
        continue_ok (recover_expired cfg now fs) _ recovered e0
        ∙ continue_ok (claim cfg worker none now gs) _ (some c) e1))
      (settle-Ends cfg worker c later (execute c) recovered
        (run cfg (calls_of c.record_id worker during) hs)
        (run-IsWorking cfg worker c.record_id c during c hs g.held g.owned refl refl refl d) t)
