-- ===== src/Cast/Monitor.antt =====
-- The monitor of new releases, media_release_monitor.py: one row of its table, and the calls that
-- change it. NULL is the empty text or 0, as every reader takes it, except in `pending_release_key`.
pub mod Calls
pub mod Statements
pub mod Alerts
pub mod Silent
mod Tests
use skeleton_media.Base.{
  ℕ, ◌+◌, ◌-◌, ◌*◌, String, Bool, true, false, not, ◌&&◌, ◌||◌, Option, none, some, List, [], ◌∷◌,
  length, ltb, leb, ◌==◌, string_eq, nat_eq, if◌then◌else◌,
}
use skeleton_media.Value.{codes}
use skeleton_media.Cast.Releases.{release_tuple, is_later}

pub record Monitor : Type 0 where
  pub tmdb_id : ℕ
  pub media_type : String
  pub title : String
  pub catalog_url : String
  pub enabled : Bool
  pub explicit_override : String
  pub title_status : String
  pub baseline_release_key : String
  pub baseline_season : ℕ
  pub baseline_episode : ℕ
  pub baseline_air_date : String
  pub pending_release_key : Option String
  pub pending_season : ℕ
  pub pending_episode : ℕ
  pub pending_air_date : String
  pub pending_episode_title : String
  pub state : String
  pub localization_type : String
  pub localization_source : String
  pub alert_claim_occurrence : String
  pub alert_claimed_at : ℕ
  pub notified_release_key : String
  pub telegram_message_id : Option ℕ
  pub last_release_check : ℕ
  pub last_localization_check : ℕ
  pub created_at : ℕ
  pub updated_at : ℕ

-- `str(x or '')`
abbrev pub text_or : Option String → String
text_or none = ""
text_or (some s) = s

-- What `tmdb_release_snapshot` returns.
pub record Snapshot : Type 0 where
  pub status : String
  pub release_key : String
  pub season : ℕ
  pub episode : ℕ
  pub air_date : String
  pub episode_title : String

-- The answer of the localization probe.
pub record Probe : Type 0 where
  pub available : Bool
  pub capability : String
  pub provider : String

pub record Notification : Type 0 where
  pub release_key : String
  pub title : String
  pub season : ℕ
  pub episode : ℕ
  pub episode_title : String
  pub air_date : String
  pub capability : String
  pub provider : String
  pub occurrence_id : String

pub record TickAnswer : Type 0 where
  pub reason : String
  pub notification : Option Notification

abbrev or_else : String → String → String
or_else s d = if s == "" then d else s

pub record Release : Type 0 where
  pub release_key : String
  pub season : ℕ
  pub episode : ℕ
  pub air_date : String
  pub episode_title : String

abbrev quiet : String → TickAnswer
quiet reason = record { reason = reason; notification = none }

-- The UPDATE after the probe.
unfoldable pub write_check : Monitor → ℕ → Monitor
write_check r now = record r { last_localization_check = now; updated_at = now }

-- The tests of an alert, on the row that is read after the probe.
unfoldable pub claim_refusal : Monitor → Release → Option String
claim_refusal r release =
    if r.notified_release_key == release.release_key
    then some "ALREADY_NOTIFIED"
    else if not (r.alert_claim_occurrence == "")
    then some "ALERT_ALREADY_CLAIMED"
    else none

-- The UPDATE that claims the alert, on the row as it is then: it tests nothing.
unfoldable pub write_claim : Monitor → String → ℕ → Probe → Monitor
write_claim r occurrence_id now probe = record r {
  state = "LOCALIZATION_AVAILABLE";
  localization_type = or_else probe.capability "uk_audio";
  localization_source = or_else probe.provider "home_media";
  alert_claim_occurrence = occurrence_id;
  alert_claimed_at = now;
  updated_at = now;
}

-- The notification of a claimed alert, with the title of the row that was read.
unfoldable pub alert_of : String → Release → String → Probe → Notification
alert_of title release occurrence_id probe = record {
  release_key = release.release_key;
  title = title;
  season = release.season;
  episode = release.episode;
  episode_title = release.episode_title;
  air_date = release.air_date;
  capability = or_else probe.capability "uk_audio";
  provider = or_else probe.provider "Home";
  occurrence_id = occurrence_id;
}

-- The tests and the claim, with nothing between them.
unfoldable pub claim_alert : Monitor → Release → String → ℕ → Probe → Monitor × TickAnswer
unfolding claim_refusal write_claim alert_of
claim_alert r release occurrence_id now probe = elim (claim_refusal r release) [
  | some reason ↦ (r, quiet reason)
  | none ↦ (
    write_claim r occurrence_id now probe,
    record {
      reason = "LOCALIZATION_AVAILABLE";
      notification = some (alert_of r.title release occurrence_id probe);
    },
  )
]

-- `tick` from the answer of the probe on, if no other call comes between its statements; `Statements` has
-- them one by one.
unfoldable pub after_probe : Monitor → Release → String → ℕ → Probe → Monitor × TickAnswer
unfolding write_check claim_alert
after_probe r release occurrence_id now probe =
    let seen = write_check r now in
    if probe.available
    then claim_alert seen release occurrence_id now probe
    else (seen, quiet (or_else r.state "MONITORED"))

-- `upper` and `lower` are Python's; `is_past d` says that `d` is a date of the past or of today, or no date.
module _ (upper lower : String → String) (is_past : String → Bool) where
  -- `_effectively_enabled`
  unfoldable pub is_on : Monitor → Bool
  is_on r = r.enabled && (upper r.explicit_override == "ON") && (lower r.media_type == "tv")

  abbrev is_due : String → Bool
  is_due air = air == "" || is_past air

  -- The fields that a check of the releases changes.
  unfoldable pub checked_release : Monitor → Snapshot → Monitor
  unfolding release_tuple
  checked_release r snap =
      if not (snap.release_key == "") && r.baseline_release_key == ""
      then record r {
        baseline_release_key = snap.release_key;
        baseline_season = snap.season;
        baseline_episode = snap.episode;
        baseline_air_date = snap.air_date;
        state = "MONITORED";
      }
      else if not (snap.release_key == "")
          && text_or r.pending_release_key == ""
          && is_later (release_tuple snap.release_key) (release_tuple r.baseline_release_key)
          && not (snap.release_key == r.notified_release_key)
      then record r {
        pending_release_key = some snap.release_key;
        pending_season = snap.season;
        pending_episode = snap.episode;
        pending_air_date = snap.air_date;
        pending_episode_title = snap.episode_title;
        state = if is_due snap.air_date then "WAITING_FOR_TRANSLATION" else "RELEASE_KNOWN";
      }
      else r

  -- `tick` up to the probe: a check of the releases at most every 20 hours, `none` if it raised.
  unfoldable pub refresh : Monitor → ℕ → Option Snapshot → Monitor
  unfolding checked_release
  refresh r now snap =
      if r.media_type == "tv"
        && (r.last_release_check == 0 || leb 72000 (now - r.last_release_check))
      then elim snap [
        | none ↦ record r { last_release_check = now; updated_at = now }
        | some s ↦ record (checked_release r s) {
          last_release_check = now;
          title_status = or_else s.status r.title_status;
          updated_at = now;
        }
      ]
      else r

  -- The release that the probe is asked about.
  unfoldable pub asked : Monitor → Option Release
  asked r =
      if not (text_or r.pending_release_key == "") && is_due r.pending_air_date
      then some (record {
        release_key = text_or r.pending_release_key;
        season = r.pending_season;
        episode = r.pending_episode;
        air_date = r.pending_air_date;
        episode_title = r.pending_episode_title;
      })
      else none

  unfoldable pub tick :
      Option Monitor
      → String
      → ℕ
      → Option Snapshot
      → (Monitor → Release → Probe)
      → Option Monitor × TickAnswer
  unfolding is_on refresh asked after_probe
  tick none occurrence_id now snap probe = (none, quiet "MONITOR_DISABLED")
  tick (some r) occurrence_id now snap probe =
      if not (is_on r)
      then (some r, quiet "MONITOR_DISABLED")
      else let fresh = refresh r now snap in
        elim (asked fresh) [
          | none ↦ (some fresh, quiet (or_else fresh.state "MONITORED"))
          | some release ↦
              let done = after_probe fresh release occurrence_id now (probe fresh release) in
              (some done.0, done.1)
        ]
