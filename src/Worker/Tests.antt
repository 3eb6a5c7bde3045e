-- ===== src/Worker/Tests.antt =====
-- A run of the worker at a concrete input.
use skeleton_media.Base.{◌≡◌, refl, false, true, none, some, List, [], ◌∷◌, Result, ok, err}
use skeleton_media.Value.{Fields, text, end, field, fields_strict}
use skeleton_media.Queue.Records.{QueueRecord, is_id, is_token, checked, from_dict, record_to_dict}
use skeleton_media.Queue.Files.{Files, look, unlink, write, read, sorted_names, store, is_at}
use skeleton_media.Queue.Operations.{
  Config, claimed, new_record, enqueue, find, find_in, is_bad_key, claim, claim_loop,
  recover_expired, recover_loop,
}
use skeleton_media.Queue.Operations.Calls.{Call, enqueues, run, run-IsConsistent}
use skeleton_media.Worker.{Event, beat, other, run_once}
use skeleton_media.Worker.Settles.{Ends, run_once-Ends}

abbrev cfg : Config
cfg = record {
  lease_seconds = 900;
  max_attempts = 3;
  python = record {
    str_of = λ v. "?";
    int_of = λ s. none;
    float_of = λ s. none;
    dict_of = λ v. none;
  };
  digest = λ key. "0123456789abcdef0123456789abcdef";
}

abbrev payload : Fields
payload = field "source" (text "local-media:a") end

abbrev added : List Call
added = enqueues "video_process_one" payload "k" none 100 ∷ []

abbrev fs : Files
fs = run cfg added []

abbrev mine : QueueRecord
mine = claimed (new_record cfg "video_process_one" payload "k" none 100) "w1" 900 200

abbrev slow : QueueRecord → Result Fields
slow r = err "SLOW"

abbrev during : List Event
during = beat 500 ∷ other (Call.claims "w2" none 1300) ∷ []

nothing_recovered : (recover_expired cfg 200 fs).0 ≡ ok 0
unfolding run enqueue find find_in look checked is_id is_token is_bad_key recover_expired
    recover_loop sorted_names write store unlink is_at read from_dict record_to_dict fields_strict
nothing_recovered = refl

claimed_mine : (claim cfg "w1" none 200 (recover_expired cfg 200 fs).1).0 ≡ ok (some mine)
unfolding run enqueue find find_in look checked is_id is_token is_bad_key claim recover_expired
    recover_loop claim_loop sorted_names write store unlink is_at read from_dict record_to_dict
    fields_strict
claimed_mine = refl

w1_is_token : is_token "w1" ≡ true
unfolding is_token
w1_is_token = refl

slow_is_token : is_token "SLOW" ≡ true
unfolding is_token
slow_is_token = refl

run_once-Ends_example :
    Ends cfg mine 1310 (slow mine) (run_once cfg "w1" false slow during 200 1310 fs).1
run_once-Ends_example =
    run_once-Ends cfg "w1" slow during 200 1310 0 fs mine w1_is_token (run-IsConsistent cfg added)
      nothing_recovered claimed_mine (refl, tt) slow_is_token
