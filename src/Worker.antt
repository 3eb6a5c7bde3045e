-- ===== src/Worker.antt =====
-- The worker of the job queue (skeleton_media/video_understanding/worker.py): `VideoWorker.run_once`.
-- The pipeline is a parameter, as it is an argument of the class; `Execute` models `_execute`.
pub mod Execute
mod Settles
mod Forever
mod Tests
use skeleton_media.Base.{
  ℕ, String, Bool, true, false, ◌&&◌, Option, none, some, List, [], ◌∷◌, ◌==◌, nat_eq, string_eq,
  any, if◌then◌else◌, Result, ok, err, crash, raise_if,
}
use skeleton_media.Value.{Fields, end, field, codes}
use skeleton_media.Value
use skeleton_media.Queue.Records.{QueueState, quarantined, QueueRecord}
use skeleton_media.Queue.Files.{Files, same_state}
use skeleton_media.Queue.Operations.{
  M, ◌>>=◌, ◌>>◌, pure, lift, modify, Config, recover_expired, claim, complete, fail, counts,
}
use skeleton_media.Queue.Operations.Calls.{Call, beats, run}

abbrev is_prefix : List ℕ → List ℕ → Bool
is_prefix [] cs = true
is_prefix (p ∷ ps) [] = false
is_prefix (p ∷ ps) (c ∷ cs) = (p == c) && is_prefix ps cs

abbrev permanent_prefixes : List String
permanent_prefixes =
    "INVALID_" ∷ "UNSAFE_" ∷ "UNSUPPORTED_" ∷ "URL_" ∷ "DIRECT_MEDIA_HOST_NOT_ALLOWED"
    ∷ "LOCAL_MEDIA_NOT_REGISTERED" ∷ "ARTIFACT_PATH_ESCAPE" ∷ []

-- `exc.reason_code.startswith(_PERMANENT_PREFIXES)`
unfoldable pub is_permanent : String → Bool
is_permanent code = any (λ p. is_prefix (codes p) (codes code)) permanent_prefixes

-- The fields that a receipt of a finished job copies from the public result: their names in the
-- receipt, and there.
abbrev transcript_fields : List (String × String)
transcript_fields =
    ("processing_status", "status")
    ∷ ("review_required", "review_required")
    ∷ ("canonical_mutation_status", "canonical_mutation_status")
    ∷ ("transcript_count", "transcript_count")
    ∷ ("readable_segment_count", "readable_segment_count")
    ∷ ("word_accuracy_status", "word_accuracy_status")
    ∷ ("independent_asr", "independent_asr")
    ∷ ("llm_status", "llm_status")
    ∷ ("vision_status", "vision_status")
    ∷ []

abbrev video_fields : List (String × String)
video_fields =
    ("processing_status", "status")
    ∷ ("review_required", "review_required")
    ∷ ("canonical_mutation_status", "canonical_mutation_status")
    ∷ ("projection_status", "projection_status")
    ∷ ("transcript_count", "transcript_count")
    ∷ ("frame_count", "frame_count")
    ∷ ("ocr_count", "ocr_count")
    ∷ ("evidence_count", "evidence_count")
    ∷ []

-- A missing field is a `KeyError`.
pub copied : List (String × String) → Fields → Result Fields
copied [] result = ok end
copied ((k, j) ∷ ks) result =
    let rest = copied ks result in
    elim (Value.get result j) [
      | none ↦ crash
      | some v ↦ elim rest [ ok fs ↦ ok (field k v fs) | err e ↦ err e | crash ↦ crash ]
    ]

pub record Receipt : Type 0 where
  pub status : String
  pub reason_code : String
  pub recovered_lease_count : ℕ
  pub queue_counts : List (QueueState × ℕ)
  pub copied_fields : Fields

-- What happens to the queue while a job runs: a heartbeat of the worker's own thread, or a call of
-- another client.
pub data Event : Type 0 where
  beat : (now : ℕ) → Event
  other : Call → Event

abbrev pub call_of : String → String → Event → Call
call_of name worker (beat now) = beats name worker none now
call_of name worker (other c) = c

abbrev pub calls_of : String → String → List Event → List Call
calls_of name worker [] = []
calls_of name worker (e ∷ es) = call_of name worker e ∷ calls_of name worker es

module _ (cfg : Config) (worker : String) where
  -- `_public`, with the fields that are added to it.
  receipt : String → String → ℕ → Fields → M Receipt
  receipt status reason recovered extra = do
    states ← counts cfg
    pure (record {
      status = status;
      reason_code = reason;
      recovered_lease_count = recovered;
      queue_counts = states;
      copied_fields = extra;
    })

  -- An error of the job: it is failed with the reason.
  fail_with : String → Bool → QueueRecord → ℕ → ℕ → M Receipt
  unfolding receipt
  fail_with reason permanent r recovered now = do
    f ← fail cfg r.record_id worker reason permanent now
    receipt (if same_state f.state quarantined then "QUARANTINED" else "RETRY") reason recovered end

  done_with : Fields → QueueRecord → ℕ → ℕ → M Receipt
  unfolding receipt
  done_with result r recovered now = do
    complete cfg r.record_id worker now
    (if r.operation == "video_transcribe_url"
        then (do
          extra ← lift (copied transcript_fields result)
          receipt "DONE" "TRANSCRIPT_PROCESSED" recovered extra)
        else (do
          extra ← lift (copied video_fields result)
          receipt "DONE" "VIDEO_PROCESSED" recovered extra))

  -- The end of a job, by what `_execute` returned or raised.
  pub settle : Result Fields → QueueRecord → ℕ → ℕ → M Receipt
  unfolding fail_with done_with
  settle (ok result) r recovered now = done_with result r recovered now
  settle (err code) r recovered now = fail_with code (is_permanent code) r recovered now
  settle crash r recovered now = fail_with "UNEXPECTED_WORKER_FAILURE" false r recovered now

  after_claim : (QueueRecord → Result Fields) → List Event → ℕ → ℕ → Option QueueRecord → M Receipt
  unfolding settle receipt
  after_claim execute during recovered later none = receipt "IDLE" "QUEUE_EMPTY" recovered end
  after_claim execute during recovered later (some r) = do
    modify (run cfg (calls_of r.record_id worker during))
    settle (execute r) r recovered later

  -- `run_once` of a worker that may find the lock of another instance taken. The clock reads `now` at
  -- the recovery and at the claim, and `later` at the end of the job.
  pub run_once : Bool → (QueueRecord → Result Fields) → List Event → ℕ → ℕ → M Receipt
  unfolding after_claim
  run_once taken execute during now later = do
    lift (raise_if taken "WORKER_ALREADY_RUNNING")
    recovered ← recover_expired cfg now
    record_or_none ← claim cfg worker none now
    after_claim execute during recovered later record_or_none
