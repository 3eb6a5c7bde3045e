-- ===== src/Worker/Execute/Permanent/Tests.antt =====
-- A malformed job.
use skeleton_media.Base.{none}
use skeleton_media.Value.{text, end, field}
use skeleton_media.Queue.Records.{QueueRecord, pending}
use skeleton_media.Worker.Execute.{work_of}
use skeleton_media.Worker.Execute.Permanent.{IsPermanent, work_of-IsPermanent}

abbrev malformed : QueueRecord
malformed = record {
  schema = "skeleton.video_understanding.queue_record.v1";
  record_id = "job_0";
  idempotency_key = "k";
  operation = "video_transcribe_url";
  payload = field "source" (text "u") (field "approval_ref" (text "a") end);
  state = pending;
  attempts = 0;
  available_at = 0;
  lease_until = none;
  worker_id = none;
  reason_code = none;
  created_at = 0;
  updated_at = 0;
}

work_of-IsPermanent_example : IsPermanent (work_of (λ s. s) malformed)
work_of-IsPermanent_example = work_of-IsPermanent (λ s. s) malformed
