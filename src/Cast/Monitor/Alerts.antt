-- ===== src/Cast/Monitor/Alerts.antt =====
-- Which alerts the statements of ticks and other calls send, in whatever order they come.
use skeleton_media.Base.{
  ℕ, zero, suc, ◌≡◌, ◌≢◌, refl, sym, ◌∙◌, ap, subst, inl, inr, String, Bool, true, false, Option,
  none, some, List, [], ◌∷◌, ◌++◌, All, ◌==◌, string_eq, nat_eq, Bool-cases, arith, eq_iff,
}
use skeleton_media.Cast.Monitor.{
  Monitor, Snapshot, Probe, Notification, checked_release, refresh, Release, write_check,
  claim_refusal, write_claim, alert_of,
}
use skeleton_media.Cast.Monitor.Calls.{ack, release_claim, Job, set_for_job, ensure_auto}
use skeleton_media.Cast.Monitor.Statements.{
  Write, claims, Desk, MonitorEvent, asks, probed, tests, ack_tests, writes, frees, sets, watches,
  pick, carried_out, tested, picked, step, follow,
}

pick-none : (n : ℕ) → pick n [] ≡ none
unfolding pick
pick-none zero = refl
pick-none (suc n) = refl

module _ (upper lower : String → String) (is_past : String → Bool) (key_of : ℕ → ℕ → String) where
  -- The calls that end a claim are those of its own occurrence.
  abbrev pub KeepsClaim : String → MonitorEvent → Type 0
  KeepsClaim o (ack_tests k p m now) = p ≢ o
  KeepsClaim o (frees p now) = p ≢ o
  KeepsClaim o _ = Unit

  -- An occurrence has the claim, and no call waits to write.
  abbrev Claimed : String → Desk × Option Notification → Type 0
  Claimed o a = (a.0.row.alert_claim_occurrence ≡ o) × (a.0.waiting ≡ []) × (a.1 ≡ none)

  refresh-claim :
      (r : Monitor) (now : ℕ) (snap : Option Snapshot)
      → (refresh upper lower is_past r now snap).alert_claim_occurrence ≡ r.alert_claim_occurrence
  unfolding refresh checked_release
  refresh-claim r now none = ground arith
  refresh-claim r now (some s) = ground arith

  set_for_job-claim :
      (r : Monitor) (job : Job) (on : Bool) (snap : Option Snapshot) (now : ℕ)
      → (set_for_job key_of (some r) job on snap now).alert_claim_occurrence
        ≡ r.alert_claim_occurrence
  unfolding set_for_job
  set_for_job-claim r job on snap now = ground arith

  ensure_auto-claim :
      (r : Monitor) (job : Job) (snap : Option Snapshot) (now : ℕ)
      → (ensure_auto key_of upper lower is_past r job snap now).alert_claim_occurrence
        ≡ r.alert_claim_occurrence
  unfolding ensure_auto
  ensure_auto-claim r job snap now = ground (arith, set_for_job-claim r job true snap now)

  tested-claimed :
      (r : Monitor) (release : Release) (o : String) (now : ℕ) (probe : Probe)
      → (r.alert_claim_occurrence == "") ≡ false
      → tested r release o now probe ≡ []
  unfolding tested claim_refusal
  tested-claimed r release o now probe c = ground (arith, c)

  release_claim-claimed :
      (r : Monitor) (p : String) (now : ℕ)
      → (r.alert_claim_occurrence == p) ≡ false
      → release_claim r p now ≡ r
  unfolding release_claim
  release_claim-claimed r p now c = ground (arith, c)

  differs : (a b : String) → b ≢ a → (a == b) ≡ false
  differs a b n = elim (Bool-cases (a == b)) [
    | inl e ↦ absurd (n (sym ((eq_iff a b).0 e)))
    | inr e ↦ e
  ]

  waits : (d : Desk) (ws : List Write) → d.waiting ≡ [] → ws ≡ [] → d.waiting ++ ws ≡ []
  waits d ws w e = rw (w, e) refl

  -- Where no call waits, there is nothing to write.
  writes_idle :
      (d : Desk) (i : ℕ) → d.waiting ≡ [] → step upper lower is_past key_of d (writes i) ≡ (d, none)
  unfolding step picked
  writes_idle d i w = ap (picked upper lower is_past key_of d) (ap (pick i) w ∙ pick-none i)

  step-Claimed :
      (d : Desk) (o : String) (e : MonitorEvent)
      → o ≢ ""
      → d.row.alert_claim_occurrence ≡ o
      → d.waiting ≡ []
      → KeepsClaim o e
      → Claimed o (step upper lower is_past key_of d e)
  unfolding step write_check picked pick
  step-Claimed d o (asks now snap) n c w k =
      (ground (arith, c, refresh-claim d.row now snap), w, refl)
  step-Claimed d o (probed now) n c w k = (c, w, refl)
  step-Claimed d o (tests release p now probe) n c w k = (
    c,
    waits d _ w (tested-claimed d.row release p now probe (rw (c) (differs o "" (λ q. n (sym q))))),
    refl,
  )
  step-Claimed d o (ack_tests key p m now) n c w k = (
    c,
    let e : (d.row.alert_claim_occurrence == p) ≡ false = rw (c) (differs o p k) in
        waits d _ w (ground (arith, e)),
    refl,
  )
  step-Claimed d o (writes i) n c w k = subst (Claimed o) (sym (writes_idle d i w)) (c, w, refl)
  step-Claimed d o (frees p now) n c w k = (
    ap (λ x. x.alert_claim_occurrence) (release_claim-claimed d.row p now (rw (c) (differs o p k)))
        ∙ c,
    w,
    refl,
  )
  step-Claimed d o (sets job on snap now) n c w k =
      (set_for_job-claim d.row job on snap now ∙ c, w, refl)
  step-Claimed d o (watches job snap now) n c w k =
      (ensure_auto-claim d.row job snap now ∙ c, w, refl)

  follow-Claimed :
      (d : Desk) (o : String) (es : List MonitorEvent)
      → o ≢ ""
      → d.row.alert_claim_occurrence ≡ o
      → d.waiting ≡ []
      → All (KeepsClaim o) es
      → ((follow upper lower is_past key_of d es).0.row.alert_claim_occurrence ≡ o)
        × All (λ a. a ≡ none) (follow upper lower is_past key_of d es).1
  unfolding follow
  follow-Claimed d o [] n c w k = (c, tt)
  follow-Claimed d o (e ∷ es) n c w (k, ks) =
      let (a, b, s) = step-Claimed d o e n c w k in
      let (f, t) = follow-Claimed (step upper lower is_past key_of d e).0 o es n a b ks in
      (f, (s, t))

  -- Where the occurrence o, which is not the empty text, has made its tests, and no other call stands
  -- between its tests and its UPDATE, the UPDATE of o claims the alert and sends it, and from then
  -- on, until o acknowledges the alert or releases its claim, no call sends another alert of the
  -- title and the claim stays, whatever the order of the statements of other ticks and calls, and
  -- whatever the remote sites and the probe answer.
  pub writes-alerts_once :
      (r : Monitor) (title : String) (release : Release) (o : String) (now : ℕ) (probe : Probe)
      (es : List MonitorEvent)
      → o ≢ ""
      → All (KeepsClaim o) es
      → let desk : Desk = record { row = r; waiting = claims title release o now probe ∷ [] } in
        ((step upper lower is_past key_of desk (writes 0)).1
          ≡ some (alert_of title release o probe))
        × ((follow upper lower is_past key_of
              (step upper lower is_past key_of desk (writes 0)).0
              es).0.row.alert_claim_occurrence
            ≡ o)
        × All
            (λ a. a ≡ none)
            (follow upper lower is_past key_of
              (step upper lower is_past key_of desk (writes 0)).0
              es).1
  unfolding step pick picked carried_out write_claim
  writes-alerts_once r title release o now probe es named ks =
      let (c, d) =
        follow-Claimed (record { row = write_claim r o now probe; waiting = [] }) o es named refl
          refl ks in
      (refl, c, d)

  -- Where no alert is claimed and the release is not the one that was alerted last: if two ticks of
  -- different occurrences, whose probes both find it available, both make their tests before either
  -- makes its UPDATE, then both send an alert of the release, the claim is that of the second, and
  -- every acknowledgement by the first is refused.
  pub tests-alert_twice :
      (r : Monitor) (release : Release) (o o' : String) (now now' : ℕ) (probe probe' : Probe)
      → probe.available ≡ true
      → probe'.available ≡ true
      → claim_refusal r release ≡ none
      → o' ≢ o
      → let both =
          follow upper lower is_past key_of
            (record { row = r; waiting = [] })
            (tests release o now probe ∷ tests release o' now' probe' ∷ writes 0 ∷ writes 0 ∷ []) in
        (both.1
          ≡ none
            ∷ none
            ∷ some (alert_of r.title release o probe)
            ∷ some (alert_of r.title release o' probe')
            ∷ [])
        × (both.0.row.alert_claim_occurrence ≡ o')
        × ((key : String) (m : Option ℕ) (later : ℕ) → ack both.0.row key o m later ≡ none)
  unfolding follow step tested pick picked carried_out write_claim ack
  tests-alert_twice r release o o' now now' probe probe' a a' free apart =
      let e : (o' == o) ≡ false = differs o' o (λ q. apart (sym q)) in
      rw (a, a', free) (refl, refl, λ key m later. ground (arith, e))
