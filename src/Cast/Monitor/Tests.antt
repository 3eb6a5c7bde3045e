-- ===== src/Cast/Monitor/Tests.antt =====
-- A monitor at concrete inputs.
use skeleton_media.Base.{
  ap, ◌==◌, nat_eq, List, ◌≡◌, ◌≢◌, refl, ℕ, String, Bool, true, false, Option, none, some, [], ◌∷◌,
  All, string_eq,
}
use skeleton_media.Cast.Monitor.{
  Monitor, Snapshot, Probe, Release, Notification, claim_refusal, alert_of,
}
use skeleton_media.Cast.Monitor.Calls.{Job, ack, write_ack, set_for_job}
use skeleton_media.Cast.Monitor.Statements.{
  Desk, MonitorEvent, claims, tests, ack_tests, writes, tested, step, follow, asks,
}
use skeleton_media.Cast.Monitor.Alerts.{writes-alerts_once, tests-alert_twice}
use skeleton_media.Cast.Monitor.Silent.{visits, ticks, set_for_job-is_silent}

abbrev as_is : String → String
as_is s = s

abbrev past : String → Bool
past s = true

abbrev key_of : ℕ → ℕ → String
key_of s e = "S01E02"

abbrev series : Monitor
series = record {
  tmdb_id = 7;
  media_type = "tv";
  title = "Series";
  catalog_url = "";
  enabled = true;
  explicit_override = "ON";
  title_status = "";
  baseline_release_key = "S01E01";
  baseline_season = 1;
  baseline_episode = 1;
  baseline_air_date = "";
  pending_release_key = some "S01E02";
  pending_season = 1;
  pending_episode = 2;
  pending_air_date = "";
  pending_episode_title = "";
  state = "WAITING_FOR_TRANSLATION";
  localization_type = "";
  localization_source = "";
  alert_claim_occurrence = "";
  alert_claimed_at = 0;
  notified_release_key = "";
  telegram_message_id = none;
  last_release_check = 0;
  last_localization_check = 0;
  created_at = 1;
  updated_at = 1;
}

abbrev claimed_series : Monitor
claimed_series = record series { alert_claim_occurrence = "o1" }

abbrev next_release : Release
next_release = record {
  release_key = "S01E02";
  season = 1;
  episode = 2;
  air_date = "";
  episode_title = "";
}

abbrev found : Probe
found = record { available = true; capability = ""; provider = "" }

abbrev later_release : Snapshot
later_release = record {
  status = "";
  release_key = "S01E03";
  season = 1;
  episode = 3;
  air_date = "";
  episode_title = "";
}

abbrev tv_job : Job
tv_job = record {
  tmdb_id = 7;
  media_type = "tv";
  title = "Series";
  catalog_url = "";
  source_max = (0, 0);
  has_full_source = false;
}

o1_named : ◌≢◌ {A = String} "o1" ""
o1_named e = absurd (cc)

others_differ : ◌≢◌ {A = String} "o2" "o1"
others_differ e = let b : false ≡ true = ap (λ s. s == "o1") e in absurd (cc (b))

abbrev at_write : Desk
at_write = record { row = series; waiting = claims "Series" next_release "o1" 9 found ∷ [] }

abbrev later_calls : List MonitorEvent
later_calls =
    asks 10 (some later_release)
    ∷ tests next_release "o2" 11 found
    ∷ ack_tests "S01E02" "o2" none 12
    ∷ writes 0
    ∷ []

-- The tests of the occurrence lead to the desk of the witness.
tested_series :
    (step as_is as_is past key_of
      (record { row = series; waiting = [] })
      (tests next_release "o1" 9 found)).0
    ≡ at_write
unfolding step tested claim_refusal
tested_series = refl

writes-alerts_once_example :
    ((step as_is as_is past key_of at_write (writes 0)).1
      ≡ some (alert_of "Series" next_release "o1" found))
    × ((follow as_is as_is past key_of
          (step as_is as_is past key_of at_write (writes 0)).0
          later_calls).0.row.alert_claim_occurrence
        ≡ "o1")
    × All
        (λ a. a ≡ none)
        (follow as_is as_is past key_of
          (step as_is as_is past key_of at_write (writes 0)).0
          later_calls).1
writes-alerts_once_example =
    writes-alerts_once as_is as_is past key_of series "Series" next_release "o1" 9 found later_calls
      o1_named (tt, (tt, (others_differ, (tt, tt))))

series_free : claim_refusal series next_release ≡ none
unfolding claim_refusal
series_free = refl

abbrev two_ticks : Desk × List (Option Notification)
two_ticks =
    follow as_is as_is past key_of (record { row = series; waiting = [] })
      (tests next_release "o1" 9 found ∷ tests next_release "o2" 9 found ∷ writes 0 ∷ writes 0 ∷ [])

tests-alert_twice_example :
    (two_ticks.1
      ≡ none
        ∷ none
        ∷ some (alert_of "Series" next_release "o1" found)
        ∷ some (alert_of "Series" next_release "o2" found)
        ∷ [])
    × (two_ticks.0.row.alert_claim_occurrence ≡ "o2")
    × ((key : String) (m : Option ℕ) (later : ℕ) → ack two_ticks.0.row key "o1" m later ≡ none)
tests-alert_twice_example =
    tests-alert_twice as_is as_is past key_of series next_release "o1" "o2" 9 9 found found refl
      refl series_free others_differ

abbrev filed : Monitor
filed = record claimed_series {
  notified_release_key = "S01E02";
  telegram_message_id = some 5;
  baseline_release_key = "S01E02";
  baseline_season = 1;
  baseline_episode = 2;
  baseline_air_date = "";
  pending_release_key = none;
  pending_season = 0;
  pending_episode = 0;
  pending_air_date = "";
  pending_episode_title = "";
  state = "NOTIFIED";
  alert_claim_occurrence = "";
  alert_claimed_at = 0;
  updated_at = 12;
}

alert_acknowledged : ack claimed_series "S01E02" "o1" (some 5) 12 ≡ some filed
unfolding ack write_ack
alert_acknowledged = refl

set_for_job-is_silent_example :
    All
      (λ a. a ≡ none)
      (visits as_is as_is past key_of
        (set_for_job key_of (some filed) tv_job true none 13)
        (ticks "o3" 200000 (some later_release) (λ r q. found) ∷ [])).1
set_for_job-is_silent_example =
    set_for_job-is_silent as_is as_is past key_of "S01E02" claimed_series filed "o1" (some 5) 12 13
      tv_job none (ticks "o3" 200000 (some later_release) (λ r q. found) ∷ []) refl
      alert_acknowledged refl refl
