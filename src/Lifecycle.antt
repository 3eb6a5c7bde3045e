-- ===== src/Lifecycle.antt =====
-- The states of a processed video (skeleton_media/video_understanding/models.py:
-- `ProcessingState`, `_ALLOWED_TRANSITIONS`, `validate_transition`).
mod Paths
mod Tests
use skeleton_media.Base.{◌≡◌, Bool, true, false, not, ◌&&◌, Result, ok, err, ◌>>◌, raise_if, arith}

pub data ProcessingState : Type 0 where
  queued processing processed understood project_linked review_required : ProcessingState
  human_reviewed accepted_reusable promoted failed quarantined : ProcessingState

-- `target_state in _ALLOWED_TRANSITIONS[current_state]`
unfoldable pub allowed : ProcessingState → ProcessingState → Bool
allowed queued processing = true
allowed queued failed = true
allowed queued quarantined = true
allowed processing processed = true
allowed processing review_required = true
allowed processing failed = true
allowed processing quarantined = true
allowed processed understood = true
allowed processed review_required = true
allowed processed failed = true
allowed understood project_linked = true
allowed understood review_required = true
allowed understood human_reviewed = true
allowed project_linked review_required = true
allowed project_linked human_reviewed = true
allowed review_required human_reviewed = true
allowed review_required failed = true
allowed review_required quarantined = true
allowed human_reviewed accepted_reusable = true
allowed human_reviewed review_required = true
allowed accepted_reusable promoted = true
allowed failed queued = true
allowed failed quarantined = true
allowed quarantined queued = true
allowed _ _ = false

-- `state is ProcessingState.ACCEPTED_REUSABLE`
unfoldable pub is_reusable : ProcessingState → Bool
is_reusable accepted_reusable = true
is_reusable _ = false

-- `state is ProcessingState.PROMOTED`
unfoldable pub is_promoted : ProcessingState → Bool
is_promoted promoted = true
is_promoted _ = false

unfoldable pub validate_transition :
    (current target : ProcessingState) (human_approved canon_approved : Bool) → Result (Unit {0})
unfolding allowed is_reusable is_promoted
validate_transition current target human_approved canon_approved = do
  raise_if (not (allowed current target)) "INVALID_STATE_TRANSITION"
  raise_if (is_reusable target && not human_approved) "HUMAN_REVIEW_REQUIRED"
  raise_if (is_promoted target && not canon_approved) "CANON_APPROVAL_REQUIRED"
