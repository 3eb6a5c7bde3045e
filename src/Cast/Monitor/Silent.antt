-- ===== src/Cast/Monitor/Silent.antt =====
-- What becomes of a monitor that is switched on again after its alert was acknowledged.
use skeleton_media.Base.{
  ℕ, ◌≡◌, refl, sym, ◌∙◌, subst, inl, inr, String, Bool, true, false, Option, none, some, List, [],
  ◌∷◌, All, ◌==◌, string_eq, nat_eq, Bool-cases, Option-cases, arith, eq_iff,
}
use skeleton_media.Cast.Monitor.{
  Monitor, Snapshot, Probe, Notification, is_on, checked_release, refresh, Release, asked,
  claim_alert, claim_refusal, write_claim, write_check, after_probe, tick,
}
use skeleton_media.Cast.Monitor.Calls.{ack, write_ack, Job, set_for_job, ensure_auto}

pub data Visit : Type 0 where
  ticks : String → ℕ → Option Snapshot → (Monitor → Release → Probe) → Visit
  sets : Job → Bool → Option Snapshot → ℕ → Visit
  watches : Job → Option Snapshot → ℕ → Visit

-- The release that waits for its alert is the one whose alert was sent last.
abbrev IsStuck : String → Monitor → Type 0
IsStuck k r = (r.notified_release_key ≡ k) × (r.pending_release_key ≡ some k)

module _ (upper lower : String → String) (is_past : String → Bool) (key_of : ℕ → ℕ → String) where
  abbrev kept : Monitor → Option Monitor → Monitor
  kept r none = r
  kept r (some s) = s

  unfoldable pub visit : Monitor → Visit → Monitor × Option Notification
  unfolding tick set_for_job ensure_auto
  visit r (ticks occurrence_id now snap probe) =
      let done = tick upper lower is_past (some r) occurrence_id now snap probe in
      (kept r done.0, done.1.notification)
  visit r (sets job on snap now) = (set_for_job key_of (some r) job on snap now, none)
  visit r (watches job snap now) = (ensure_auto key_of upper lower is_past r job snap now, none)

  unfoldable pub visits : Monitor → List Visit → Monitor × List (Option Notification)
  unfolding visit
  visits r [] = (r, [])
  visits r (v ∷ vs) =
      let first = visit r v in let rest = visits first.0 vs in (rest.0, first.1 ∷ rest.1)

  module _ (k : String) (named : (k == "") ≡ false) where
    refresh-IsStuck :
        (r : Monitor) (now : ℕ) (snap : Option Snapshot)
        → IsStuck k r
        → IsStuck k (refresh upper lower is_past r now snap)
    unfolding refresh checked_release
    refresh-IsStuck r now none (a, b) = (ground (arith, a, b), ground (arith, a, b))
    refresh-IsStuck r now (some s) (a, b) =
        (ground (arith, a, b, named), ground (arith, a, b, named))

    set_for_job-IsStuck :
        (r : Monitor) (job : Job) (on : Bool) (snap : Option Snapshot) (now : ℕ)
        → IsStuck k r
        → IsStuck k (set_for_job key_of (some r) job on snap now)
    unfolding set_for_job
    set_for_job-IsStuck r job on snap now (a, b) =
        (ground (arith, a, b, named), ground (arith, a, b, named))

    ensure_auto-IsStuck :
        (r : Monitor) (job : Job) (snap : Option Snapshot) (now : ℕ)
        → IsStuck k r
        → IsStuck k (ensure_auto key_of upper lower is_past r job snap now)
    unfolding ensure_auto
    ensure_auto-IsStuck r job snap now (a, b) =
        (ground (arith, a, b, named), ground (arith, a, b, named))

    asked-pending :
        (r : Monitor) (release : Release)
        → IsStuck k r
        → asked upper lower is_past r ≡ some release
        → release.release_key ≡ k
    unfolding asked
    asked-pending r release (a, b) e = ground (arith, a, b, e, named)

    after_probe-IsStuck :
        (r : Monitor) (release : Release) (o : String) (now : ℕ) (probe : Probe)
        → release.release_key ≡ k
        → IsStuck k r
        → IsStuck k (after_probe r release o now probe).0
          × ((after_probe r release o now probe).1.notification ≡ none)
    unfolding after_probe claim_alert claim_refusal write_claim write_check
    after_probe-IsStuck r release o now probe e (a, b) =
        let same : (r.notified_release_key == release.release_key) ≡ true =
          (eq_iff r.notified_release_key release.release_key).1 (a ∙ sym e) in
        ((ground (arith, a, b, same), ground (arith, a, b, same)), ground (arith, same))

    tick_off :
        (r : Monitor) (o : String) (now : ℕ) (snap : Option Snapshot)
        (probe : Monitor → Release → Probe)
        → is_on upper lower is_past r ≡ false
        → visit r (ticks o now snap probe) ≡ (r, none)
    unfolding visit tick
    tick_off r o now snap probe off = rw (off) refl

    tick_idle :
        (r : Monitor) (o : String) (now : ℕ) (snap : Option Snapshot)
        (probe : Monitor → Release → Probe)
        → is_on upper lower is_past r ≡ true
        → asked upper lower is_past (refresh upper lower is_past r now snap) ≡ none
        → visit r (ticks o now snap probe) ≡ (refresh upper lower is_past r now snap, none)
    unfolding visit tick
    tick_idle r o now snap probe on q = rw (on, q) refl

    tick_asked :
        (r : Monitor) (o : String) (now : ℕ) (snap : Option Snapshot)
        (probe : Monitor → Release → Probe) (release : Release)
        → is_on upper lower is_past r ≡ true
        → asked upper lower is_past (refresh upper lower is_past r now snap) ≡ some release
        → visit r (ticks o now snap probe) ≡ (
          (after_probe
              (refresh upper lower is_past r now snap)
              release
              o
              now
              (probe (refresh upper lower is_past r now snap) release)).0,
          (after_probe
              (refresh upper lower is_past r now snap)
              release
              o
              now
              (probe (refresh upper lower is_past r now snap) release)).1.notification,
        )
    unfolding visit tick
    tick_asked r o now snap probe release on q = rw (on, q) refl

    abbrev IsSilent : Monitor × Option Notification → Type 0
    IsSilent a = IsStuck k a.0 × (a.1 ≡ none)

    tick-IsSilent :
        (r : Monitor) (o : String) (now : ℕ) (snap : Option Snapshot)
        (probe : Monitor → Release → Probe)
        → IsStuck k r
        → IsSilent (visit r (ticks o now snap probe))
    tick-IsSilent r o now snap probe h = elim (Bool-cases (is_on upper lower is_past r)) [
      | inl on ↦
          let fresh = refresh upper lower is_past r now snap in
          let s = refresh-IsStuck r now snap h in
          elim (Option-cases (asked upper lower is_past fresh)) [
            | inl q ↦ subst IsSilent (sym (tick_idle r o now snap probe on q)) (s, refl)
            | inr (release, q) ↦ subst IsSilent (sym (tick_asked r o now snap probe release on q)) (
                after_probe-IsStuck fresh release o now (probe fresh release)
                  (asked-pending fresh release s q) s)
          ]
      | inr off ↦ subst IsSilent (sym (tick_off r o now snap probe off)) (h, refl)
    ]

    visit-IsSilent : (r : Monitor) (v : Visit) → IsStuck k r → IsSilent (visit r v)
    unfolding visit
    visit-IsSilent r (ticks o now snap probe) h = tick-IsSilent r o now snap probe h
    visit-IsSilent r (sets job on snap now) h = (set_for_job-IsStuck r job on snap now h, refl)
    visit-IsSilent r (watches job snap now) h = (ensure_auto-IsStuck r job snap now h, refl)

    visits-IsStuck :
        (r : Monitor) (vs : List Visit) → IsStuck k r → All (λ a. a ≡ none) (visits r vs).1
    unfolding visits
    visits-IsStuck r [] h = tt
    visits-IsStuck r (v ∷ vs) h =
        let (s, n) = visit-IsSilent r v h in (n, visits-IsStuck (visit r v).0 vs s)

    ack-filed :
        (r s : Monitor) (o : String) (m : Option ℕ) (now : ℕ)
        → ack r k o m now ≡ some s
        → (s.notified_release_key ≡ k)
          × (s.baseline_release_key ≡ k)
          × (s.pending_release_key ≡ none)
    unfolding ack write_ack
    ack-filed r s o m now e = (ground (arith, e), ground (arith, e), ground (arith, e))

    set_for_job-files :
        (s : Monitor) (job : Job) (snap : Option Snapshot) (now : ℕ)
        → s.notified_release_key ≡ k
        → s.baseline_release_key ≡ k
        → s.pending_release_key ≡ none
        → job.media_type ≡ "tv"
        → job.has_full_source ≡ false
        → IsStuck k (set_for_job key_of (some s) job true snap now)
    unfolding set_for_job
    set_for_job-files s job snap now a b c tv missing =
        let t : (job.media_type == "tv") ≡ true = (eq_iff job.media_type "tv").1 tv in
        let base : (s.baseline_release_key == "") ≡ false = rw (b) named in
        (ground (arith, a, t), rw (t, missing, base, c) (ground (arith, base, b)))

  -- Once an alert is acknowledged, if the monitor of that series is switched on while the job has no full
  -- source, no tick alerts again: not for a later release either, whatever the remote site lists and
  -- the probe answers, and however often the monitor is switched in between.
  pub set_for_job-is_silent :
      (k : String) (r s : Monitor) (o : String) (m : Option ℕ) (now later : ℕ) (job : Job)
      (snap : Option Snapshot) (vs : List Visit)
      → (k == "") ≡ false
      → ack r k o m now ≡ some s
      → job.media_type ≡ "tv"
      → job.has_full_source ≡ false
      → All (λ a. a ≡ none) (visits (set_for_job key_of (some s) job true snap later) vs).1
  set_for_job-is_silent k r s o m now later job snap vs named e tv missing =
      let (a, b, c) = ack-filed k named r s o m now e in
      visits-IsStuck k named (set_for_job key_of (some s) job true snap later) vs
        (set_for_job-files k named s job snap later a b c tv missing)
