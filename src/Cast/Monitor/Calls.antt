-- ===== src/Cast/Monitor/Calls.antt =====
-- The other calls on a row of media_release_monitor.py: `ack`, `release_claim`, `set_for_job`,
-- `ensure_auto_for_job`, and the schedule of a row.
use skeleton_media.Base.{
  ℕ, String, Bool, true, false, not, ◌&&◌, ◌||◌, Option, none, some, ◌==◌, string_eq, nat_eq,
  if◌then◌else◌,
}
use skeleton_media.Cast.Monitor.{Monitor, Snapshot, text_or, is_on}

-- The test of an acknowledgement, on the row that is read.
abbrev pub ack_mismatch : Monitor → String → String → Bool
ack_mismatch r release_key occurrence_id =
    not (text_or r.pending_release_key == release_key)
    || not (r.alert_claim_occurrence == occurrence_id)

-- The UPDATE of an acknowledgement, on the row as it is then.
unfoldable pub write_ack : Monitor → String → Option ℕ → ℕ → Monitor
write_ack r release_key message_id now = record r {
  notified_release_key = release_key;
  telegram_message_id = message_id;
  baseline_release_key = release_key;
  baseline_season = r.pending_season;
  baseline_episode = r.pending_episode;
  baseline_air_date = r.pending_air_date;
  pending_release_key = none;
  pending_season = 0;
  pending_episode = 0;
  pending_air_date = "";
  pending_episode_title = "";
  state = "NOTIFIED";
  alert_claim_occurrence = "";
  alert_claimed_at = 0;
  updated_at = now;
}

-- `none` is the `ValueError` of an acknowledgement that does not fit.
unfoldable pub ack : Monitor → String → String → Option ℕ → ℕ → Option Monitor
unfolding write_ack
ack r release_key occurrence_id message_id now =
    if ack_mismatch r release_key occurrence_id
    then none
    else some (write_ack r release_key message_id now)

abbrev pub is_some : Option String → Bool
is_some none = false
is_some (some s) = true

-- A claim that is NULL equals no occurrence.
unfoldable pub release_claim : Monitor → String → ℕ → Monitor
release_claim r occurrence_id now =
    if not (r.alert_claim_occurrence == "") && r.alert_claim_occurrence == occurrence_id
    then record r {
      alert_claim_occurrence = "";
      alert_claimed_at = 0;
      state = if is_some r.pending_release_key then "WAITING_FOR_TRANSLATION" else r.state;
      updated_at = now;
    }
    else r

-- What `_identity` finds, with the largest season and episode of the job's sources, and whether the
-- job has a full source.
pub record Job : Type 0 where
  pub tmdb_id : ℕ
  pub media_type : String
  pub title : String
  pub catalog_url : String
  pub source_max : ℕ × ℕ
  pub has_full_source : Bool

pub record Baseline : Type 0 where
  pub key : String
  pub season : ℕ
  pub episode : ℕ
  pub air_date : String
  pub status : String

abbrev baseline_of : Option Monitor → Baseline
baseline_of none = record { key = ""; season = 0; episode = 0; air_date = ""; status = "" }
baseline_of (some r) = record {
  key = r.baseline_release_key;
  season = r.baseline_season;
  episode = r.baseline_episode;
  air_date = r.baseline_air_date;
  status = r.title_status;
}

abbrev new_monitor : Job → Bool → Baseline → ℕ → Monitor
new_monitor job enabled b now = record {
  tmdb_id = job.tmdb_id;
  media_type = job.media_type;
  title = job.title;
  catalog_url = job.catalog_url;
  enabled = enabled;
  explicit_override = if enabled then "ON" else "OFF";
  title_status = b.status;
  baseline_release_key = b.key;
  baseline_season = b.season;
  baseline_episode = b.episode;
  baseline_air_date = b.air_date;
  pending_release_key = none;
  pending_season = 0;
  pending_episode = 0;
  pending_air_date = "";
  pending_episode_title = "";
  state = if enabled then "MONITORED" else "OFF";
  localization_type = "";
  localization_source = "";
  alert_claim_occurrence = "";
  alert_claimed_at = 0;
  notified_release_key = "";
  telegram_message_id = none;
  last_release_check = 0;
  last_localization_check = 0;
  created_at = now;
  updated_at = now;
}

-- The `DO UPDATE` of the upsert.
abbrev updated_monitor : Monitor → Job → Bool → Baseline → ℕ → Monitor
updated_monitor r job enabled b now = record r {
  tmdb_id = job.tmdb_id;
  media_type = job.media_type;
  title = job.title;
  catalog_url = job.catalog_url;
  enabled = enabled;
  explicit_override = if enabled then "ON" else "OFF";
  title_status = if b.status == "" then r.title_status else b.status;
  baseline_release_key = if r.baseline_release_key == "" then b.key else r.baseline_release_key;
  baseline_season = if r.baseline_season == 0 then b.season else r.baseline_season;
  baseline_episode = if r.baseline_episode == 0 then b.episode else r.baseline_episode;
  baseline_air_date = if r.baseline_air_date == "" then b.air_date else r.baseline_air_date;
  state =
      if not enabled
      then "OFF"
      else if not (text_or r.pending_release_key == "")
      then r.state
      else "MONITORED";
  updated_at = now;
}

abbrev upsert : Option Monitor → Job → Bool → Baseline → ℕ → Monitor
upsert none job enabled b now = new_monitor job enabled b now
upsert (some r) job enabled b now = updated_monitor r job enabled b now

-- `key_of s e` is the text "S…E…" with both numbers in at least two digits.
module _ (key_of : ℕ → ℕ → String) where
  abbrev first_baseline : Job → Baseline → Option Snapshot → Baseline
  first_baseline job b (some s) = record {
    key = s.release_key;
    season = s.season;
    episode = s.episode;
    air_date = s.air_date;
    status = s.status;
  }
  first_baseline job b none = record b {
    key =
        if not (job.source_max.0 == 0) && not (job.source_max.1 == 0)
        then key_of job.source_max.0 job.source_max.1
        else "";
    season = job.source_max.0;
    episode = job.source_max.1;
  }

  -- The row after `set_for_job`. `snap` is the snapshot, `none` if it raised.
  unfoldable pub set_for_job : Option Monitor → Job → Bool → Option Snapshot → ℕ → Monitor
  set_for_job old job asked_on snap now =
      let enabled = asked_on && job.media_type == "tv" in
      let b =
        if enabled && (baseline_of old).key == ""
        then first_baseline job (baseline_of old) snap
        else baseline_of old in
      let cur = upsert old job enabled b now in
      if enabled && not job.has_full_source && text_or cur.pending_release_key == ""
      then if job.media_type == "tv" && not (b.key == "")
        then record cur {
          pending_release_key = some b.key;
          pending_season = b.season;
          pending_episode = b.episode;
          pending_air_date = b.air_date;
          state = "WAITING_FOR_TRANSLATION";
          updated_at = now;
        }
        else if job.media_type == "movie"
        then record cur {
          pending_release_key = some "MOVIE";
          state = "WAITING_FOR_TRANSLATION";
          updated_at = now;
        }
        else cur
      else cur

  module _ (upper lower : String → String) (is_past : String → Bool) where
    -- The row after `ensure_auto_for_job`.
    unfoldable pub ensure_auto : Monitor → Job → Option Snapshot → ℕ → Monitor
    unfolding set_for_job
    ensure_auto old job snap now =
        if upper old.explicit_override == "ON"
        then if old.enabled && not job.has_full_source && text_or old.pending_release_key == ""
          then set_for_job (some old) job true snap now
          else old
        else if old.enabled
        then record old { enabled = false; state = "OFF"; updated_at = now }
        else old

    -- The entry of `schedules`: whether it is on, and its times.
    unfoldable pub schedule : Monitor → Bool × String
    unfolding is_on
    schedule r =
        let on = is_on upper lower is_past r in
        let pending =
          on
          && not (text_or r.pending_release_key == "")
          && not (r.state == "NOTIFIED" || r.state == "OFF") in
        let terminal =
          (lower r.title_status == "ended" || lower r.title_status == "canceled") && not pending in
        (on, if pending then "17 */6 * * *" else if terminal then "31 5 * * 1" else "23 5 * * *")
