-- ===== src/Values/Record.antt =====
-- `VideoRequest` and `VideoRecord` (models.py). The tests on the types of the fields are the types of
-- the model.
pub mod Reviewed
use skeleton_media.Base.{
  ℕ, String, Bool, true, false, not, ◌&&◌, ◌||◌, ◌==◌, string_eq, Option, none, some, List, Result,
  ok, ltb, leb, ◌>>=◌, ◌>>◌, raise_if,
}
use skeleton_media.Value
use skeleton_media.Lifecycle.{ProcessingState, is_reusable, is_promoted}
use skeleton_media.Values.Fields.{is_video_record_id, sha256, nonempty, nonempty_or_none}
use skeleton_media.Values.Evidence.{
  SourceReference, TranscriptArtifact, FrameEvidence, Topic, Entity, Claim, Workflow,
  TimestampedEvidence, ProjectLink, ReviewDecision,
}

pub data ProcessingMode : Type 0 where
  quick standard deep targeted archive : ProcessingMode

pub data Domain : Type 0 where
  dios home_automation travel construction legal_documents aviation skeleton_architecture
        general_knowledge :
      Domain

-- `ProcessingMode.value`
abbrev pub mode_value : ProcessingMode → String
mode_value quick = "QUICK"
mode_value standard = "STANDARD"
mode_value deep = "DEEP"
mode_value targeted = "TARGETED"
mode_value archive = "ARCHIVE"

-- `Domain.value`
abbrev pub domain_value : Domain → String
domain_value dios = "DIOS"
domain_value home_automation = "HOME_AUTOMATION"
domain_value travel = "TRAVEL"
domain_value construction = "CONSTRUCTION"
domain_value legal_documents = "LEGAL_DOCUMENTS"
domain_value aviation = "AVIATION"
domain_value skeleton_architecture = "SKELETON_ARCHITECTURE"
domain_value general_knowledge = "GENERAL_KNOWLEDGE"

abbrev pub is_targeted : ProcessingMode → Bool
is_targeted targeted = true
is_targeted _ = false

abbrev pub is_none : Option String → Bool
is_none none = true
is_none (some s) = false

pub record VideoRequest : Type 0 where
  pub operation : String
  pub mode : ProcessingMode
  pub source : Option String
  pub project_hint : Option String
  pub question : Option String
  pub depth : ℕ
  pub profile : Option Domain

pub record VideoRecord : Type 0 where
  pub schema : String
  pub video_record_id : String
  pub processing_revision : String
  pub state : ProcessingState
  pub mode : ProcessingMode
  pub source : SourceReference
  pub detected_domain : Domain
  pub domain_candidates : List Value.Fields
  pub about : Value.Fields
  pub structure : List Value.Fields
  pub methods : List Workflow
  pub topics : List Topic
  pub entities : List Entity
  pub claims : List Claim
  pub evidence : List TimestampedEvidence
  pub actions : List Value.Fields
  pub conflicts : List Value.Fields
  pub project_links : List ProjectLink
  pub review : ReviewDecision
  pub artifact_manifest_hash : String
  pub transcript_artifacts : List TranscriptArtifact
  pub frame_evidence : List FrameEvidence

module _ (strip : String → String) where
  pub checked_request : VideoRequest → Result VideoRequest
  checked_request x = do
    o ← nonempty strip 64 x.operation
    raise_if (not (leb 1 x.depth && leb x.depth 3)) "INVALID_DEPTH"
    s ← nonempty_or_none strip 4096 x.source
    p ← nonempty_or_none strip 256 x.project_hint
    q ← nonempty_or_none strip 4000 x.question
    raise_if (is_targeted x.mode && is_none q) "QUESTION_REQUIRED"
    ok (record x { operation = o; source = s; project_hint = p; question = q })

  unfoldable pub checked_record : VideoRecord → Result VideoRecord
  checked_record x = do
    raise_if (not (x.schema == "skeleton.video_understanding.record.v1")) "INVALID_SCHEMA"
    raise_if (not (is_video_record_id x.video_record_id)) "INVALID_VIDEO_RECORD_ID"
    r ← nonempty strip 128 x.processing_revision
    h ← sha256 x.artifact_manifest_hash
    raise_if (x.review.promoted && not (is_promoted x.state)) "STATE_REVIEW_MISMATCH"
    raise_if (x.review.accepted_reusable && not (is_reusable x.state || is_promoted x.state))
        "STATE_REVIEW_MISMATCH"
    ok (record x { processing_revision = r; artifact_manifest_hash = h })
