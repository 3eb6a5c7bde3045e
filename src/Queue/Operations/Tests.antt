-- ===== src/Queue/Operations/Tests.antt =====
-- The queue at concrete inputs.
use skeleton_media.Base.{
  ◌+◌, ◌≡◌, refl, true, false, none, some, List, [], ◌∷◌, ok, err, arith, ◌⊎◌, ◌*◌, min, All,
}
use skeleton_media.Value.{text, Fields, fields_strict, end, field, Python}
use skeleton_media.Queue.Records.{
  QueueState, pending, done, quarantined, QueueRecord, is_id, is_token, checked, from_dict,
  record_to_dict,
}
use skeleton_media.Queue.Records.RoundTrip.{from_dict-to_dict}
use skeleton_media.Queue.Files.{
  Files, look, unlink, write, read, sorted_names, same_state, store, is_at,
}
use skeleton_media.Queue.Operations.{
  Config, recovered, claimed, is_owner, released, failure_state, retry_delay, new_record,
  is_bad_key, enqueue, claim, complete, fail, get, recover_one, claim_loop, recover_expired,
  recover_loop, find, find_in, lease_or_default,
}
use skeleton_media.Queue.Operations.Consistent.{content_of, IsStored, IsConsistent}
use skeleton_media.Queue.Operations.Enqueue.{IsJob}
use skeleton_media.Queue.Operations.Calls.{
  Call, enqueues, claims, beats, counting, recovers, run, run-IsConsistent, get-Found,
  enqueue-idempotent,
}
use skeleton_media.Queue.Operations.Lease.{IsHeld}
use skeleton_media.Queue.Operations.Protects.{IsForeign, run-IsHeld}
use skeleton_media.Queue.Operations.Claims.{IsGranted, claim-IsGranted}
use skeleton_media.Queue.Operations.Outcomes.{
  complete-get, claim-complete, retry_delay-doubles, IsFiled, fail-IsFiled, recovery_ignores_limit,
}

abbrev python : Python
python = record { str_of = λ v. "?"; int_of = λ s. none; float_of = λ s. none; dict_of = λ v. none }

abbrev cfg : Config
cfg = record {
  lease_seconds = 900;
  max_attempts = 1;
  python = python;
  digest = λ key. "0123456789abcdef0123456789abcdef";
}

abbrev payload : Fields
payload = field "source" (text "local-media:a") end

abbrev added : List Call
added = enqueues "video_process_one" payload "k" none 100 ∷ []

abbrev fs : Files
fs = run cfg added []

abbrev job : QueueRecord
job = new_record cfg "video_process_one" payload "k" none 100

abbrev mine : QueueRecord
mine = claimed job "w1" 900 200

run-IsConsistent_example : IsConsistent fs
run-IsConsistent_example = run-IsConsistent cfg added

added_file : fs ≡ write pending job.record_id job []
unfolding run enqueue find find_in look checked is_id is_token is_bad_key write fields_strict
added_file = refl

from_dict-to_dict_example : from_dict python (record_to_dict job) ≡ ok job
unfolding checked is_id is_token fields_strict
from_dict-to_dict_example = from_dict-to_dict python job refl

claimed_mine : (claim cfg "w1" none 200 fs).0 ≡ ok (some mine)
unfolding run enqueue find find_in look checked is_id is_token is_bad_key claim recover_expired
    recover_loop claim_loop sorted_names write store unlink is_at read from_dict record_to_dict
    fields_strict
claimed_mine = refl

w1_is_token : is_token "w1" ≡ true
unfolding is_token
w1_is_token = refl

abbrev others : List Call
others = claims "w2" none 500 ∷ beats job.record_id "w2" none 600 ∷ recovers 1000 ∷ counting ∷ []

others-IsForeign : All (IsForeign mine) others
unfolding is_owner same_state
others-IsForeign = (refl, (refl, (refl, (tt, tt))))

claim-IsGranted_example :
    IsGranted "w1" (200 + lease_or_default cfg none) mine (claim cfg "w1" none 200 fs).1
claim-IsGranted_example =
    claim-IsGranted cfg "w1" w1_is_token none 200 fs mine (run-IsConsistent cfg added) claimed_mine

IsHeld-mine : IsHeld mine (claim cfg "w1" none 200 fs).1
IsHeld-mine = claim-IsGranted_example.held

run-IsHeld_example : IsHeld mine (run cfg others (claim cfg "w1" none 200 fs).1)
run-IsHeld_example =
    run-IsHeld cfg mine others (claim cfg "w1" none 200 fs).1 IsHeld-mine others-IsForeign

claim-complete_example :
    ((complete cfg mine.record_id "w1" 1050 (run cfg others (claim cfg "w1" none 200 fs).1)).0
      ≡ ok (released mine done none 1050))
    × ((get cfg mine.record_id
          (complete cfg mine.record_id "w1" 1050
            (run cfg others (claim cfg "w1" none 200 fs).1)).1).0
        ≡ ok (released mine done none 1050))
claim-complete_example =
    claim-complete cfg "w1" none 200 1050 fs mine others w1_is_token (run-IsConsistent cfg added)
      claimed_mine others-IsForeign

abbrev gs : Files
gs = (claim cfg "w1" none 200 fs).1

mine_owned : is_owner mine "w1" ≡ true
unfolding is_owner same_state
mine_owned = refl

complete-get_example :
    ((complete cfg mine.record_id "w1" 300 gs).0 ≡ ok (released mine done none 300))
    × ((get cfg mine.record_id (complete cfg mine.record_id "w1" 300 gs).1).0
        ≡ ok (released mine done none 300))
complete-get_example = complete-get cfg mine gs IsHeld-mine "w1" mine_owned 300

slow_is_token : is_token "SLOW" ≡ true
unfolding is_token
slow_is_token = refl

fail-IsFiled_example :
    (f : QueueRecord) × ((fail cfg mine.record_id "w1" "SLOW" false 300 gs).0 ≡ ok f)
    × ((get cfg mine.record_id (fail cfg mine.record_id "w1" "SLOW" false 300 gs).1).0 ≡ ok f)
    × (f.lease_until ≡ none)
    × (f.worker_id ≡ none)
    × IsFiled cfg mine false 300 f
fail-IsFiled_example =
    fail-IsFiled cfg mine gs "w1" "SLOW" false 300 IsHeld-mine mine_owned slow_is_token

recovery_ignores_limit_example :
    ((get cfg mine.record_id (recover_one cfg 1200 mine.record_id gs).1).0
      ≡ ok (recovered mine 1200))
    × (failure_state cfg mine false ≡ quarantined)
recovery_ignores_limit_example =
    recovery_ignores_limit cfg mine gs 1200 IsHeld-mine refl (omega arith)

retry_delay-doubles_example : (retry_delay 1 ≡ 30) × (retry_delay 4 ≡ min 3600 (2 * retry_delay 3))
retry_delay-doubles_example = retry_delay-doubles 2

job_is_id : is_id job.record_id ≡ true
unfolding is_id
job_is_id = refl

get-Found_example :
    ((get cfg job.record_id fs ≡ (err "QUEUE_RECORD_NOT_FOUND", fs))
      × ((s : QueueState) → look s job.record_id fs ≡ none))
    ⊎ ((s : QueueState) × (r : QueueRecord) × (get cfg job.record_id fs ≡ (ok r, fs))
        × (look s job.record_id fs ≡ some (content_of r))
        × IsStored s job.record_id r)
get-Found_example = get-Found cfg job.record_id fs (run-IsConsistent cfg added) job_is_id

abbrev again : Fields
again = field "source" (text "other") end

is_job : IsJob cfg "video_process_one" payload "k"
unfolding is_id is_token is_bad_key fields_strict
is_job = record { key_fits = refl; names_operation = refl; strict = refl; identifies = refl }

IsJob-again : IsJob cfg "video_transcribe_url" again "k"
unfolding is_id is_token is_bad_key fields_strict
IsJob-again = record { key_fits = refl; names_operation = refl; strict = refl; identifies = refl }

enqueue-idempotent_example :
    (r : QueueRecord) × ((enqueue cfg "video_process_one" payload "k" none 500 fs).0 ≡ ok r)
    × (enqueue cfg "video_transcribe_url" again "k"
          (some 7)
          600
          (enqueue cfg "video_process_one" payload "k" none 500 fs).1
        ≡ (ok r, (enqueue cfg "video_process_one" payload "k" none 500 fs).1))
enqueue-idempotent_example =
    enqueue-idempotent cfg "video_process_one" "video_transcribe_url" "k" payload again none
      (some 7) 500 600 fs (run-IsConsistent cfg added) is_job IsJob-again
