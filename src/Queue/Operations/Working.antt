-- ===== src/Queue/Operations/Working.antt =====
-- A worker that holds a record: its heartbeats, and the ways in which it gives the record back.
use skeleton_media.Base.{ℕ, ◌+◌, ◌≡◌, refl, ap, ◌∙◌, String, true, none, ok}
use skeleton_media.Queue.Records.{processing, QueueRecord}
use skeleton_media.Queue.Files.{Files, look, write}
use skeleton_media.Queue.Operations.{Config, is_owner, extended, heartbeat}
use skeleton_media.Queue.Operations.Consistent.{look-write_self}
use skeleton_media.Queue.Operations.Steps.{heartbeat_lem, extended-IsValid}
use skeleton_media.Queue.Operations.Keeps.{heartbeat-Keeps}
use skeleton_media.Queue.Operations.Calls.{beats, after}
use skeleton_media.Queue.Operations.Lease.{IsHeld}

pub is_owner-extended :
    (r : QueueRecord) (worker : String) (until now : ℕ)
    → is_owner (extended r until now) worker ≡ is_owner r worker
unfolding is_owner
is_owner-extended r worker until now = refl

heartbeat_ok :
    (cfg : Config) (r : QueueRecord) (fs : Files) (worker : String) (now : ℕ)
    → IsHeld r fs
    → is_owner r worker ≡ true
    → heartbeat cfg r.record_id worker none now fs ≡ (
      ok (extended r (now + cfg.lease_seconds) now),
      write processing r.record_id (extended r (now + cfg.lease_seconds) now) fs,
    )
heartbeat_ok cfg r fs worker now h o = heartbeat_lem cfg r fs worker none now h.at h.valid ∙ rw o

-- A heartbeat of the owner extends the lease, and the record stays held.
pub heartbeat-IsHeld :
    (cfg : Config) (r : QueueRecord) (fs : Files) (worker : String) (now : ℕ)
    → IsHeld r fs
    → is_owner r worker ≡ true
    → IsHeld
        (extended r (now + cfg.lease_seconds) now)
        (after cfg (beats r.record_id worker none now) fs)
unfolding after
heartbeat-IsHeld cfg r fs worker now h o = record {
  at =
      ap (λ x. look processing r.record_id x.1) (heartbeat_ok cfg r fs worker now h o)
      ∙ look-write_self processing r.record_id (extended r (now + cfg.lease_seconds) now) fs;
  valid = extended-IsValid r (now + cfg.lease_seconds) now h.valid;
  consistent = heartbeat-Keeps cfg r.record_id worker none now fs h.consistent;
}
