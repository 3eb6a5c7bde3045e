-- ===== src/Lifecycle/Paths.antt =====
-- Runs of accepted transitions (models.py, `validate_transition`).
use skeleton_media.Base.{◌≡◌, ◌≢◌, refl, ◌⊎◌, inl, inr, Bool, true, ok, subst, arith}
use skeleton_media.Lifecycle.{
  ProcessingState, queued, processing, processed, understood, project_linked, review_required,
  human_reviewed, accepted_reusable, promoted, failed, quarantined, validate_transition,
}

-- One accepted transition, with the approvals that the caller gave.
pub data Step (s t : ProcessingState) : Type 0 where
  step : (human canon : Bool) → validate_transition s t human canon ≡ ok tt → Step s t

-- A history, newest transition last.
pub data Run (s : ProcessingState) : ProcessingState → Type 0 where
  start : Run s s
  next : {t u : ProcessingState} → Run s t → Step t u → Run s u

-- A transition of the history left `human_reviewed` for `accepted_reusable`, and the caller
-- said `human_approved`.
abbrev pub HumanApproved : {s t : ProcessingState} → Run s t → Type 0
HumanApproved start = ⊥
HumanApproved (next {t} {u} r (step human canon h)) =
    ((t ≡ human_reviewed) × (u ≡ accepted_reusable) × (human ≡ true)) ⊎ HumanApproved r

-- A transition of the history entered `promoted`, and the caller said `canon_approved`.
abbrev pub CanonApproved : {s t : ProcessingState} → Run s t → Type 0
CanonApproved start = ⊥
CanonApproved (next {u = u} r (step human canon h)) =
    ((u ≡ promoted) × (canon ≡ true)) ⊎ CanonApproved r

entry-reusable :
    (s : ProcessingState) (human canon : Bool)
    → validate_transition s accepted_reusable human canon ≡ ok tt
    → (s ≡ human_reviewed) × (human ≡ true)
unfolding validate_transition
entry-reusable s human canon h = ground arith

entry-promoted :
    (s : ProcessingState) (human canon : Bool)
    → validate_transition s promoted human canon ≡ ok tt
    → (s ≡ accepted_reusable) × (canon ≡ true)
unfolding validate_transition
entry-promoted s human canon h = ground arith

reusable_needs_human :
    {s t : ProcessingState} (r : Run s t) → t ≡ accepted_reusable → s ≡ queued → HumanApproved r
reusable_needs_human start e q = cc
reusable_needs_human (next {t} {u} r (step human canon h)) e q =
    let f =
      entry-reusable t human canon (subst (λ v. validate_transition t v human canon ≡ ok tt) e h) in
    inl (f.0, e, f.1)

promoted_needs_both :
    {s t : ProcessingState} (r : Run s t)
    → t ≡ promoted
    → s ≡ queued
    → HumanApproved r × CanonApproved r
promoted_needs_both start e q = cc
promoted_needs_both (next {t} {u} r (step human canon h)) e q =
    let f =
      entry-promoted t human canon (subst (λ v. validate_transition t v human canon ≡ ok tt) e h) in
    (inr (reusable_needs_human r f.0 q), inl (e, f.1))

-- Every history of accepted transitions from QUEUED to PROMOTED holds a transition from
-- HUMAN_REVIEWED to ACCEPTED_REUSABLE made with human approval, and a transition into PROMOTED
-- made with canon approval.
pub promotion_needs_approvals : (r : Run queued promoted) → HumanApproved r × CanonApproved r
promotion_needs_approvals r = promoted_needs_both r refl refl

terminal-promoted :
    (t : ProcessingState) (human canon : Bool) → validate_transition promoted t human canon ≢ ok tt
unfolding validate_transition
terminal-promoted t human canon h = ground arith

promoted_terminal_from : {s t : ProcessingState} (r : Run s t) → s ≡ promoted → t ≡ promoted
promoted_terminal_from start e = e
promoted_terminal_from (next {t} {u} r (step human canon h)) e =
    let f = promoted_terminal_from r e in
    absurd (
      terminal-promoted u human canon
        (subst (λ v. validate_transition v u human canon ≡ ok tt) f h))

-- No run of accepted transitions leaves PROMOTED, whatever approvals the caller gives.
pub promoted_is_final : {t : ProcessingState} → Run promoted t → t ≡ promoted
promoted_is_final r = promoted_terminal_from r refl

-- The caller gave both approvals at every transition of the history.
abbrev pub BothGiven : {s t : ProcessingState} → Run s t → Type 0
BothGiven start = Unit
BothGiven (next r (step human canon h)) = (human ≡ true) × (canon ≡ true) × BothGiven r

-- A history in which both approvals are given throughout.
abbrev pub Approved : ProcessingState → ProcessingState → Type 0
Approved s t = (r : Run s t) × BothGiven r

move :
    {s t : ProcessingState} (u : ProcessingState)
    → Approved s t
    → validate_transition t u true true ≡ ok tt
    → Approved s u
move u (r, b) h = (next r (step true true h), (refl, refl, b))

idle : {s : ProcessingState} → Approved s s
idle = (start, tt)

finish : {s : ProcessingState} → Approved s human_reviewed → Approved s promoted
unfolding validate_transition
finish r = move promoted (move accepted_reusable r refl) refl

review : {s : ProcessingState} → Approved s review_required → Approved s promoted
unfolding validate_transition
review r = finish (move human_reviewed r refl)

work : {s : ProcessingState} → Approved s queued → Approved s promoted
unfolding validate_transition
work r = review (move review_required (move processing r refl) refl)

-- From every state there is a run of accepted transitions to PROMOTED, and it is one in which the
-- caller gives human and canon approval at each transition.
pub promotion_reachable : (s : ProcessingState) → (r : Run s promoted) × BothGiven r
unfolding validate_transition
promotion_reachable queued = work idle
promotion_reachable processing = review (move review_required idle refl)
promotion_reachable processed = review (move review_required idle refl)
promotion_reachable understood = finish (move human_reviewed idle refl)
promotion_reachable project_linked = finish (move human_reviewed idle refl)
promotion_reachable review_required = review idle
promotion_reachable human_reviewed = finish idle
promotion_reachable accepted_reusable = move promoted idle refl
promotion_reachable promoted = idle
promotion_reachable failed = work (move queued idle refl)
promotion_reachable quarantined = work (move queued idle refl)
