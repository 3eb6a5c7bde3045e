-- ===== src/Values/Evidence/Stable.antt =====
-- Values that the constructors accepted.
use skeleton_media.Base.{◌≡◌, refl, subst, String, false, not, ◌&&◌, ok}
use skeleton_media.Values.Fields.{confidence, nonempty, opaque_id, string_tuple}
use skeleton_media.Values.Fields.Again.{
  bind_ok, raise_ok, ok_inj, confidence-again, nonempty-again, opaque_id-again, string_tuple-again,
}
use skeleton_media.Values.Evidence.{Claim, is_inferred, is_empty, checked_claim}

-- With a `strip` that does nothing to a stripped text: a claim that the constructor accepted has
-- evidence unless it is inferred, and the constructor accepts it again and leaves it as it is.
pub checked_claim-again :
    (strip : String → String) (x y : Claim)
    → ((s : String) → strip (strip s) ≡ strip s)
    → checked_claim strip x ≡ ok y
    → ((not (is_inferred y.support_type) && is_empty y.evidence_ids) ≡ false)
      × (checked_claim strip y ≡ ok y)
unfolding checked_claim
checked_claim-again strip x y h e0 =
    let (i, a, e1) = bind_ok (opaque_id strip x.claim_id) _ y e0 in
    let (t, b, e2) = bind_ok (nonempty strip 4096 x.text) _ y e1 in
    let (v, c, e3) = bind_ok (string_tuple strip x.evidence_ids) _ y e2 in
    let (k, d, e4) = bind_ok (confidence x.score) _ y e3 in
    let (g, e5) =
      raise_ok (not (is_inferred x.support_type) && is_empty v) "EVIDENCE_REQUIRED" _ y e4 in
    subst
      (λ z.
        ((not (is_inferred z.support_type) && is_empty z.evidence_ids) ≡ false)
        × (checked_claim strip z ≡ ok z))
      (ok_inj _ y e5)
      (
        g,
        rw
            (
              opaque_id-again strip h x.claim_id i a,
              nonempty-again strip h 4096 x.text t b,
              string_tuple-again strip h x.evidence_ids v c,
              confidence-again x.score k d,
              g,
            )
            refl,
      )
