-- ===== src/Values/Record/Reviewed.antt =====
-- What the review of an accepted record says of its state.
use skeleton_media.Base.{
  ◌≡◌, subst, String, Bool, true, false, not, ◌&&◌, ◌||◌, ◌==◌, string_eq, ok, arith,
}
use skeleton_media.Lifecycle.{is_reusable, is_promoted}
use skeleton_media.Values.Fields.{is_video_record_id, nonempty, sha256, string_tuple}
use skeleton_media.Values.Fields.Again.{bind_ok, raise_ok, ok_inj}
use skeleton_media.Values.Evidence.{ReviewDecision, checked_review}
use skeleton_media.Values.Record.{VideoRecord, checked_record}

-- A promoted review is an accepted one, of a record in the state PROMOTED; an accepted one is of a
-- record that is accepted for reuse or promoted.
abbrev pub review_fits : VideoRecord → Bool
review_fits r =
    (not r.review.promoted || (r.review.accepted_reusable && is_promoted r.state))
    && (not r.review.accepted_reusable || (is_reusable r.state || is_promoted r.state))

reviewed_flags :
    (strip : String → String) (d d' : ReviewDecision)
    → checked_review strip d ≡ ok d'
    → (d'.promoted && not d'.accepted_reusable) ≡ false
unfolding checked_review
reviewed_flags strip d d' e0 =
    let (s, a, e1) = bind_ok (nonempty strip 64 d.status) _ d' e0 in
    let (t, b, e2) = bind_ok (nonempty strip 64 d.reviewer_type) _ d' e1 in
    let (r, c, e3) = bind_ok (string_tuple strip d.reason_codes) _ d' e2 in
    let (g, e4) =
      raise_ok (d.promoted && not d.accepted_reusable) "INVALID_REVIEW_DECISION" _ d' e3 in
    subst (λ z. (z.promoted && not z.accepted_reusable) ≡ false) (ok_inj _ d' e4) g

-- A record whose review the constructor of reviews returned, and which the constructor of records
-- accepted, agrees with its review: a promoted review is accepted for reuse and of a promoted record,
-- and an accepted one of a record that is accepted for reuse or promoted.
pub checked_record-fits :
    (strip : String → String) (d : ReviewDecision) (x y : VideoRecord)
    → checked_review strip d ≡ ok x.review
    → checked_record strip x ≡ ok y
    → review_fits y ≡ true
unfolding checked_record
checked_record-fits strip d x y v e0 =
    let (a, e1) =
      raise_ok (not (x.schema == "skeleton.video_understanding.record.v1")) "INVALID_SCHEMA" _ y
        e0 in
    let (b, e2) =
      raise_ok (not (is_video_record_id x.video_record_id)) "INVALID_VIDEO_RECORD_ID" _ y e1 in
    let (r, c, e3) = bind_ok (nonempty strip 128 x.processing_revision) _ y e2 in
    let (h, k, e4) = bind_ok (sha256 x.artifact_manifest_hash) _ y e3 in
    let (m, e5) =
      raise_ok (x.review.promoted && not (is_promoted x.state)) "STATE_REVIEW_MISMATCH" _ y e4 in
    let (n, e6) =
      raise_ok (x.review.accepted_reusable && not (is_reusable x.state || is_promoted x.state))
        "STATE_REVIEW_MISMATCH" _ y e5 in
    subst (λ z. review_fits z ≡ true) (ok_inj _ y e6)
      (fits x.review.promoted x.review.accepted_reusable (is_promoted x.state) (is_reusable x.state)
        (reviewed_flags strip d x.review v) m n)
  where
    fits :
        (p a s u : Bool)
        → (p && not a) ≡ false
        → (p && not s) ≡ false
        → (a && not (u || s)) ≡ false
        → ((not p || (a && s)) && (not a || (u || s))) ≡ true
    fits p a s u f g h = ground arith
