-- ===== src/Lifecycle/Tests.antt =====
-- Runs at concrete inputs.
use skeleton_media.Base.{◌≡◌}
use skeleton_media.Lifecycle.{queued, review_required, promoted}
use skeleton_media.Lifecycle.Paths.{
  Run, start, BothGiven, HumanApproved, CanonApproved, promotion_needs_approvals, promoted_is_final,
  promotion_reachable,
}

full_run : Run queued promoted
full_run = (promotion_reachable queued).0

promotion_needs_approvals_example : HumanApproved full_run × CanonApproved full_run
promotion_needs_approvals_example = promotion_needs_approvals full_run

promoted_is_final_example : promoted ≡ promoted
promoted_is_final_example = promoted_is_final start

promotion_reachable_example : (r : Run review_required promoted) × BothGiven r
promotion_reachable_example = promotion_reachable review_required
