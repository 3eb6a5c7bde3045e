-- ===== src/Values/Evidence.antt =====
-- The small value types of models.py. Each `checked_` function is the constructor of its type: the
-- value with its texts stripped, if `__post_init__` accepts it.
pub mod Stable
use skeleton_media.Base.{
  ℕ, String, Bool, true, false, not, ◌&&◌, Option, List, [], ◌∷◌, Result, ok, ◌>>=◌, ◌>>◌, raise_if,
}
use skeleton_media.Value
use skeleton_media.Values.Fields.{
  confidence, timestamp_range, sha256, nonempty, nonempty_or_none, opaque_id, string_tuple,
}

pub data SupportType : Type 0 where
  transcript_only visual_only joint external_reference inferred : SupportType

abbrev pub is_inferred : SupportType → Bool
is_inferred inferred = true
is_inferred _ = false

abbrev pub is_empty : List String → Bool
is_empty [] = true
is_empty _ = false

pub record SourceReference : Type 0 where
  pub source_type : String
  pub private_identity : String
  pub adapter : String
  pub metadata : Value.Fields

pub record TranscriptArtifact : Type 0 where
  pub artifact_id : String
  pub language : String
  pub provider : String
  pub quality_status : String
  pub segment_count : ℕ
  pub text_sha256 : String

pub record FrameEvidence : Type 0 where
  pub artifact_id : String
  pub timestamp_seconds : ℕ
  pub evidence_kind : String
  pub score : ℕ
  pub ocr_text : Option String

pub record Topic : Type 0 where
  pub name : String
  pub score : ℕ
  pub evidence_ids : List String

pub record Entity : Type 0 where
  pub entity_type : String
  pub name : String
  pub score : ℕ
  pub evidence_ids : List String

pub record Claim : Type 0 where
  pub claim_id : String
  pub text : String
  pub support_type : SupportType
  pub evidence_ids : List String
  pub score : ℕ

pub record Workflow : Type 0 where
  pub workflow_id : String
  pub name : String
  pub ordered_steps : List String
  pub evidence_ids : List String
  pub score : ℕ

pub record TimestampedEvidence : Type 0 where
  pub evidence_id : String
  pub start_seconds : ℕ
  pub end_seconds : ℕ
  pub artifact_id : String
  pub evidence_kind : String
  pub score : ℕ
  pub private_excerpt : Option String

pub record ProjectLink : Type 0 where
  pub project_id : String
  pub relation : String
  pub score : ℕ
  pub operator_selected : Bool

pub record ReviewDecision : Type 0 where
  pub status : String
  pub reviewer_type : String
  pub reason_codes : List String
  pub accepted_reusable : Bool
  pub promoted : Bool

module _ (strip : String → String) where
  pub checked_source : SourceReference → Result SourceReference
  checked_source x = do
    t ← nonempty strip 64 x.source_type
    p ← nonempty strip 4096 x.private_identity
    a ← nonempty strip 64 x.adapter
    ok (record x { source_type = t; private_identity = p; adapter = a })

  pub checked_transcript : TranscriptArtifact → Result TranscriptArtifact
  checked_transcript x = do
    i ← opaque_id strip x.artifact_id
    l ← nonempty strip 32 x.language
    p ← nonempty strip 128 x.provider
    q ← nonempty strip 64 x.quality_status
    h ← sha256 x.text_sha256
    ok (record x {
      artifact_id = i;
      language = l;
      provider = p;
      quality_status = q;
      text_sha256 = h;
    })

  pub checked_frame : FrameEvidence → Result FrameEvidence
  checked_frame x = do
    i ← opaque_id strip x.artifact_id
    r ← timestamp_range x.timestamp_seconds x.timestamp_seconds
    k ← nonempty strip 64 x.evidence_kind
    c ← confidence x.score
    t ← nonempty_or_none strip 100000 x.ocr_text
    ok (record {
      artifact_id = i;
      timestamp_seconds = r.0;
      evidence_kind = k;
      score = c;
      ocr_text = t;
    })

  pub checked_topic : Topic → Result Topic
  checked_topic x = do
    n ← nonempty strip 256 x.name
    c ← confidence x.score
    e ← string_tuple strip x.evidence_ids
    ok (record { name = n; score = c; evidence_ids = e })

  pub checked_entity : Entity → Result Entity
  checked_entity x = do
    t ← nonempty strip 64 x.entity_type
    n ← nonempty strip 512 x.name
    c ← confidence x.score
    e ← string_tuple strip x.evidence_ids
    ok (record { entity_type = t; name = n; score = c; evidence_ids = e })

  -- The test on the evidence comes last, on the accepted fields.
  unfoldable pub checked_claim : Claim → Result Claim
  checked_claim x = do
    i ← opaque_id strip x.claim_id
    t ← nonempty strip 4096 x.text
    e ← string_tuple strip x.evidence_ids
    c ← confidence x.score
    raise_if (not (is_inferred x.support_type) && is_empty e) "EVIDENCE_REQUIRED"
    ok (record {
      claim_id = i;
      text = t;
      support_type = x.support_type;
      evidence_ids = e;
      score = c;
    })

  pub checked_workflow : Workflow → Result Workflow
  checked_workflow x = do
    i ← opaque_id strip x.workflow_id
    n ← nonempty strip 512 x.name
    s ← string_tuple strip x.ordered_steps
    e ← string_tuple strip x.evidence_ids
    raise_if (is_empty s) "WORKFLOW_STEPS_REQUIRED"
    c ← confidence x.score
    ok (record { workflow_id = i; name = n; ordered_steps = s; evidence_ids = e; score = c })

  pub checked_evidence : TimestampedEvidence → Result TimestampedEvidence
  checked_evidence x = do
    i ← opaque_id strip x.evidence_id
    a ← opaque_id strip x.artifact_id
    r ← timestamp_range x.start_seconds x.end_seconds
    k ← nonempty strip 64 x.evidence_kind
    c ← confidence x.score
    p ← nonempty_or_none strip 20000 x.private_excerpt
    ok (record {
      evidence_id = i;
      start_seconds = r.0;
      end_seconds = r.1;
      artifact_id = a;
      evidence_kind = k;
      score = c;
      private_excerpt = p;
    })

  pub checked_link : ProjectLink → Result ProjectLink
  checked_link x = do
    i ← opaque_id strip x.project_id
    r ← nonempty strip 64 x.relation
    c ← confidence x.score
    ok (record x { project_id = i; relation = r; score = c })

  unfoldable pub checked_review : ReviewDecision → Result ReviewDecision
  checked_review x = do
    s ← nonempty strip 64 x.status
    t ← nonempty strip 64 x.reviewer_type
    r ← string_tuple strip x.reason_codes
    raise_if (x.promoted && not x.accepted_reusable) "INVALID_REVIEW_DECISION"
    ok (record x { status = s; reviewer_type = t; reason_codes = r })
