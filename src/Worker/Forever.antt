-- ===== src/Worker/Forever.antt =====
-- `VideoWorker.run_forever` (worker.py), up to the round at whose start its stop event is set. That no
-- other instance holds the lock is assumed of the call.
use skeleton_media.Base.{
  ℕ, String, Option, none, some, List, [], ◌∷◌, Result, ok, err, crash, false,
}
use skeleton_media.Value.{Fields}
use skeleton_media.Queue.Records.{QueueRecord}
use skeleton_media.Queue.Operations.{
  M, ◌>>=◌, ◌>>◌, pure, modify, Config, recover_expired, claim, complete, fail,
}
use skeleton_media.Queue.Operations.Calls.{run, run-keeps}
use skeleton_media.Queue.Operations.Keeps.{
  Keeps, continue-Keeps, recover_expired-Keeps, claim-Keeps, complete-Keeps, fail-Keeps,
}
use skeleton_media.Worker.{Event, calls_of, is_permanent}

-- A round of the loop: what happens to the queue during its job, and the times of the clock at its start
-- and at the end of the job.
pub record Round : Type 0 where
  pub during : List Event
  pub now : ℕ
  pub later : ℕ

module _ (cfg : Config) (worker : String) (execute : QueueRecord → Result Fields) where
  -- The end of a job; an error of the queue ends the loop.
  end_job : Result Fields → QueueRecord → ℕ → M (Unit {0})
  end_job (ok result) r later = do complete cfg r.record_id worker later; pure tt
  end_job (err code) r later = do
    fail cfg r.record_id worker code (is_permanent code) later
    pure tt
  end_job crash r later = do
    fail cfg r.record_id worker "UNEXPECTED_WORKER_FAILURE" false later
    pure tt

  work_on : Round → Option QueueRecord → M (Unit {0})
  unfolding end_job
  work_on x none = pure tt
  work_on x (some r) = do
    modify (run cfg (calls_of r.record_id worker x.during))
    end_job (execute r) r x.later

  pub one_round : Round → M (Unit {0})
  unfolding work_on
  one_round x = do recover_expired cfg x.now; r ← claim cfg worker none x.now; work_on x r

  pub run_forever : List Round → M (Unit {0})
  unfolding one_round
  run_forever [] = pure tt
  run_forever (x ∷ xs) = do one_round x; run_forever xs

  end_job-Keeps : (o : Result Fields) (r : QueueRecord) (later : ℕ) → Keeps (end_job o r later)
  unfolding end_job
  end_job-Keeps (ok result) r later fs h =
      continue-Keeps (complete cfg r.record_id worker later fs) _
        (complete-Keeps cfg r.record_id worker later fs h) (λ a gs g. g)
  end_job-Keeps (err code) r later fs h =
      continue-Keeps (fail cfg r.record_id worker code (is_permanent code) later fs) _
        (fail-Keeps cfg r.record_id worker code (is_permanent code) later fs h) (λ a gs g. g)
  end_job-Keeps crash r later fs h =
      continue-Keeps (fail cfg r.record_id worker "UNEXPECTED_WORKER_FAILURE" false later fs) _
        (fail-Keeps cfg r.record_id worker "UNEXPECTED_WORKER_FAILURE" false later fs h)
        (λ a gs g. g)

  work_on-Keeps : (x : Round) (o : Option QueueRecord) → Keeps (work_on x o)
  unfolding work_on
  work_on-Keeps x none fs h = h
  work_on-Keeps x (some r) fs h =
      end_job-Keeps (execute r) r x.later (run cfg (calls_of r.record_id worker x.during) fs)
        (run-keeps cfg (calls_of r.record_id worker x.during) fs h)

  one_round-Keeps : (x : Round) → Keeps (one_round x)
  unfolding one_round
  one_round-Keeps x fs h =
      continue-Keeps (recover_expired cfg x.now fs) _ (recover_expired-Keeps cfg x.now fs h)
        λ n gs g.
          continue-Keeps (claim cfg worker none x.now gs) _ (claim-Keeps cfg worker none x.now gs g)
            (λ r hs k. work_on-Keeps x r hs k)

  -- However many rounds the worker makes, and wherever an error of the queue ends them, whatever its jobs
  -- do and the other clients call meanwhile, the queue stays consistent.
  pub run_forever-Keeps : (xs : List Round) → Keeps (run_forever xs)
  unfolding run_forever
  run_forever-Keeps [] fs h = h
  run_forever-Keeps (x ∷ xs) fs h =
      continue-Keeps (one_round x fs) _ (one_round-Keeps x fs h)
        (λ a gs g. run_forever-Keeps xs gs g)
