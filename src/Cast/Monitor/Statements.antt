-- ===== src/Cast/Monitor/Statements.antt =====
-- The statements of the calls on one row of media_release_monitor.py, in any order. A tick makes its
-- statements on separate connections, and so does an acknowledgement: here the reading of the row
-- with its tests and the UPDATE of the claim are separate steps, between which any others may come.
-- `release_claim` is one UPDATE with its test; the calls that switch a monitor, and a tick up to its
-- probe, write no column of the claim, and are one step each.
use skeleton_media.Base.{
  ℕ, zero, suc, String, Bool, Option, none, some, List, [], ◌∷◌, ◌++◌, string_eq, nat_eq,
  if◌then◌else◌,
}
use skeleton_media.Cast.Monitor.{
  Monitor, Snapshot, Probe, Notification, is_on, refresh, Release, write_check, claim_refusal,
  write_claim, alert_of,
}
use skeleton_media.Cast.Monitor.Calls.{
  ack_mismatch, write_ack, release_claim, Job, set_for_job, ensure_auto,
}

-- What a call is about to write, after its tests.
pub data Write : Type 0 where
  claims : (title : String) → Release → String → ℕ → Probe → Write
  files : String → Option ℕ → ℕ → Write

-- A row, and the calls that stand between their tests and their UPDATE.
pub record Desk : Type 0 where
  pub row : Monitor
  pub waiting : List Write

-- `asks` is a tick up to its probe, `probed` its first UPDATE after it, `tests` and `ack_tests` read the
-- row, and `writes n` is the UPDATE of the call that waits at position n.
pub data MonitorEvent : Type 0 where
  asks : ℕ → Option Snapshot → MonitorEvent
  probed : ℕ → MonitorEvent
  tests : Release → String → ℕ → Probe → MonitorEvent
  ack_tests : String → String → Option ℕ → ℕ → MonitorEvent
  writes : ℕ → MonitorEvent
  frees : String → ℕ → MonitorEvent
  sets : Job → Bool → Option Snapshot → ℕ → MonitorEvent
  watches : Job → Option Snapshot → ℕ → MonitorEvent

-- The write at a position, and the others.
unfoldable pub pick : ℕ → List Write → Option (Write × List Write)
pick n [] = none
pick zero (w ∷ ws) = some (w, ws)
pick (suc n) (w ∷ ws) = elim (pick n ws) [ none ↦ none | some p ↦ some (p.0, w ∷ p.1) ]

unfoldable pub carried_out : Monitor → Write → Monitor × Option Notification
unfolding write_claim alert_of write_ack
carried_out r (claims title release o now probe) =
    (write_claim r o now probe, some (alert_of title release o probe))
carried_out r (files key message_id now) = (write_ack r key message_id now, none)

-- The claim that waits after the tests, if they pass.
unfoldable pub tested : Monitor → Release → String → ℕ → Probe → List Write
unfolding claim_refusal
tested r release o now probe =
    if probe.available
    then elim (claim_refusal r release) [
      | some reason ↦ []
      | none ↦ claims r.title release o now probe ∷ []
    ]
    else []

module _ (upper lower : String → String) (is_past : String → Bool) (key_of : ℕ → ℕ → String) where
  abbrev with_row : Desk → Monitor → Desk × Option Notification
  with_row d r = (record d { row = r }, none)

  abbrev with_waiting : Desk → List Write → Desk × Option Notification
  with_waiting d ws = (record d { waiting = d.waiting ++ ws }, none)

  unfoldable pub picked : Desk → Option (Write × List Write) → Desk × Option Notification
  unfolding carried_out
  picked d none = (d, none)
  picked d (some p) =
      (record { row = (carried_out d.row p.0).0; waiting = p.1 }, (carried_out d.row p.0).1)

  unfoldable pub step : Desk → MonitorEvent → Desk × Option Notification
  unfolding is_on refresh tested release_claim set_for_job ensure_auto pick picked write_check
  step d (asks now snap) = with_row d (
      if is_on upper lower is_past d.row then refresh upper lower is_past d.row now snap else d.row)
  step d (probed now) = with_row d (write_check d.row now)
  step d (tests release o now probe) = with_waiting d (tested d.row release o now probe)
  step d (ack_tests key o message_id now) =
      with_waiting d (if ack_mismatch d.row key o then [] else files key message_id now ∷ [])
  step d (writes n) = picked d (pick n d.waiting)
  step d (frees o now) = with_row d (release_claim d.row o now)
  step d (sets job on snap now) = with_row d (set_for_job key_of (some d.row) job on snap now)
  step d (watches job snap now) =
      with_row d (ensure_auto key_of upper lower is_past d.row job snap now)

  unfoldable pub follow : Desk → List MonitorEvent → Desk × List (Option Notification)
  unfolding step
  follow d [] = (d, [])
  follow d (e ∷ es) =
      let first = step d e in let rest = follow first.0 es in (rest.0, first.1 ∷ rest.1)
