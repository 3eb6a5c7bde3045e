-- ===== src/Values/Receipts.antt =====
-- `public_receipt` and `reject_unknown_fields` (models.py). The counts are natural numbers and
-- `review_required` is a Boolean here, which the code tests first.
use skeleton_media.Base.{
  ℕ, String, Bool, false, not, ◌||◌, Option, none, some, List, any, ◌==◌, string_eq, Result, ok,
  ◌>>=◌, raise_if,
}
use skeleton_media.Value.{Value, Fields, null, bool, int, text, obj, end, field}
use skeleton_media.Values.Fields.{nonempty}
use skeleton_media.Values.Record.{ProcessingMode, Domain, mode_value, domain_value}

pub record ReceiptFields : Type 0 where
  pub operation : String
  pub status : String
  pub reason_code : String
  pub mode : ProcessingMode
  pub detected_domain : Option Domain
  pub transcript_count : ℕ
  pub frame_count : ℕ
  pub ocr_count : ℕ
  pub evidence_count : ℕ
  pub review_required : Bool
  pub canonical_mutation_status : String
  pub projection_status : String

abbrev domain_or_none : Option Domain → Value
domain_or_none none = null
domain_or_none (some d) = text (domain_value d)

unfoldable pub made_receipt : (String → String) → ReceiptFields → Result Value
unfolding nonempty
made_receipt strip x = do
  operation ← nonempty strip 64 x.operation
  status ← nonempty strip 64 x.status
  reason_code ← nonempty strip 128 x.reason_code
  canonical_mutation_status ← nonempty strip 64 x.canonical_mutation_status
  projection_status ← nonempty strip 64 x.projection_status
  ok (
      obj (
        field "schema" (text "skeleton.video_understanding.receipt.v1") (
          field "operation" (text operation) (
            field "status" (text status) (
              field "reason_code" (text reason_code) (
                field "mode" (text (mode_value x.mode)) (
                  field "detected_domain" (domain_or_none x.detected_domain) (
                    field "transcript_count" (int x.transcript_count) (
                      field "frame_count" (int x.frame_count) (
                        field "ocr_count" (int x.ocr_count) (
                          field "evidence_count" (int x.evidence_count) (
                            field "review_required" (bool x.review_required) (
                              field "canonical_mutation_status" (text canonical_mutation_status) (
                                field "projection_status" (text projection_status) end))))))))))))))

abbrev is_unknown : List String → Fields → Bool
is_unknown allowed end = false
is_unknown allowed (field k v fs) = not (any (λ a. a == k) allowed) || is_unknown allowed fs

unfoldable pub reject_unknown_fields : Fields → List String → Result (Unit {0})
reject_unknown_fields payload allowed = raise_if (is_unknown allowed payload) "UNKNOWN_FIELDS"
