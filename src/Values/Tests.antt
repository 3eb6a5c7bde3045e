-- ===== src/Values/Tests.antt =====
-- Values at concrete inputs.
use skeleton_media.Base.{◌≡◌, refl, String, true, false, [], ◌∷◌, ok, not, ◌&&◌}
use skeleton_media.Value
use skeleton_media.Lifecycle.{promoted, is_promoted, is_reusable}
use skeleton_media.Values.Fields.{
  nonempty, opaque_id, is_opaque_id, string_tuple, nonempty_each, confidence, sha256, is_sha256,
  is_video_record_id,
}
use skeleton_media.Values.Evidence.{
  Claim, joint, is_inferred, is_empty, checked_claim, ReviewDecision, checked_review,
}
use skeleton_media.Values.Evidence.Stable.{checked_claim-again}
use skeleton_media.Values.Record.{VideoRecord, standard, travel, checked_record}
use skeleton_media.Values.Record.Reviewed.{review_fits, checked_record-fits}

abbrev plain : String → String
plain s = s

abbrev seen : Claim
seen = record {
  claim_id = "claim:1";
  text = "It rains.";
  support_type = joint;
  evidence_ids = "ev:1" ∷ [];
  score = 900;
}

seen_accepted : checked_claim plain seen ≡ ok seen
unfolding checked_claim opaque_id is_opaque_id nonempty string_tuple nonempty_each confidence
seen_accepted = refl

checked_claim-again_example :
    ((not (is_inferred seen.support_type) && is_empty seen.evidence_ids) ≡ false)
    × (checked_claim plain seen ≡ ok seen)
checked_claim-again_example = checked_claim-again plain seen seen (λ s. refl) seen_accepted

abbrev review : ReviewDecision
review = record {
  status = "REVIEWED";
  reviewer_type = "HUMAN";
  reason_codes = [];
  accepted_reusable = true;
  promoted = true;
}

abbrev video : VideoRecord
video = record {
  schema = "skeleton.video_understanding.record.v1";
  video_record_id = "vr_abcde";
  processing_revision = "r1";
  state = promoted;
  mode = standard;
  source = record {
    source_type = "url";
    private_identity = "p";
    adapter = "a";
    metadata = Value.end;
  };
  detected_domain = travel;
  domain_candidates = [];
  about = Value.end;
  structure = [];
  methods = [];
  topics = [];
  entities = [];
  claims = [];
  evidence = [];
  actions = [];
  conflicts = [];
  project_links = [];
  review = review;
  artifact_manifest_hash = "0123456789abcdef0123456789abcdef0123456789abcdef0123456789abcdef";
  transcript_artifacts = [];
  frame_evidence = [];
}

review_accepted : checked_review plain review ≡ ok review
unfolding checked_review nonempty string_tuple nonempty_each
review_accepted = refl

video_accepted : checked_record plain video ≡ ok video
unfolding checked_record nonempty is_video_record_id sha256 is_sha256 is_promoted is_reusable
video_accepted = refl

checked_record-fits_example : review_fits video ≡ true
checked_record-fits_example =
    checked_record-fits plain review video video review_accepted video_accepted
