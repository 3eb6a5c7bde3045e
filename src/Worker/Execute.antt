-- ===== src/Worker/Execute.antt =====
-- `VideoWorker._execute` (worker.py): the tests on a job's payload, and the call of the pipeline that it
-- leads to. `strip` is Python's `str.strip`.
mod Permanent
use skeleton_media.Base.{
  String, Bool, true, false, not, ◌&&◌, ◌||◌, ◌==◌, string_eq, Option, none, some, List, [], ◌∷◌,
  any, all, Result, ok, err, crash, ◌>>=◌, ◌>>◌, raise_if, if◌then◌else◌,
}
use skeleton_media.Value.{Value, null, bool, text, Fields, end, field, get}
use skeleton_media.Queue.Records.{QueueRecord}
use skeleton_media.Values.Record.{
  ProcessingMode, quick, standard, deep, targeted, archive, Domain, dios, home_automation, travel,
  construction, legal_documents, aviation, skeleton_architecture, general_knowledge,
}

-- The call of the pipeline, with its arguments.
pub data Work : Type 0 where
  transcribe_only :
      (source : String) (mode : ProcessingMode) (approval_ref : String) (verify : Bool) → Work
  process :
      (source : String) (mode : ProcessingMode) (approval_ref : String)
      (question project_hint : Option String) (profile : Option Domain)
      → Work

mode_named : List (String × ProcessingMode) → String → Result ProcessingMode
mode_named [] s = err "INVALID_MODE"
mode_named ((n, m) ∷ ms) s = let rest = mode_named ms s in if n == s then ok m else rest

abbrev modes : List (String × ProcessingMode)
modes =
    ("QUICK", quick)
    ∷ ("STANDARD", standard)
    ∷ ("DEEP", deep)
    ∷ ("TARGETED", targeted)
    ∷ ("ARCHIVE", archive)
    ∷ []

-- `ProcessingMode(payload.get("mode", "STANDARD"))`
mode_of : Option Value → Result ProcessingMode
unfolding mode_named
mode_of none = ok standard
mode_of (some (text s)) = mode_named modes s
mode_of (some _) = err "INVALID_MODE"

domain_named : List (String × Domain) → String → Result (Option Domain)
domain_named [] s = err "INVALID_PROFILE"
domain_named ((n, d) ∷ ds) s = let rest = domain_named ds s in if n == s then ok (some d) else rest

abbrev domains : List (String × Domain)
domains =
    ("DIOS", dios)
    ∷ ("HOME_AUTOMATION", home_automation)
    ∷ ("TRAVEL", travel)
    ∷ ("CONSTRUCTION", construction)
    ∷ ("LEGAL_DOCUMENTS", legal_documents)
    ∷ ("AVIATION", aviation)
    ∷ ("SKELETON_ARCHITECTURE", skeleton_architecture)
    ∷ ("GENERAL_KNOWLEDGE", general_knowledge)
    ∷ []

-- `Domain(profile_raw) if profile_raw is not None else None`
profile_of : Option Value → Result (Option Domain)
unfolding domain_named
profile_of none = ok none
profile_of (some null) = ok none
profile_of (some (text s)) = domain_named domains s
profile_of (some _) = err "INVALID_PROFILE"

-- A text or `None`.
text_or_none : String → Option Value → Result (Option String)
text_or_none code none = ok none
text_or_none code (some null) = ok none
text_or_none code (some (text s)) = ok (some s)
text_or_none code (some _) = err code

required_text : Option Value → Result String
required_text (some (text s)) = ok s
required_text _ = err "INVALID_QUEUE_PAYLOAD"

-- `payload["verify_with_independent_asr"]` and its test: without the key, a `KeyError`.
verify_of : Option Value → Result Bool
verify_of none = crash
verify_of (some (bool b)) = ok b
verify_of (some _) = err "INVALID_TRANSCRIPT_VERIFY"

abbrev field_names : Fields → List String
field_names end = []
field_names (field k v fs) = k ∷ field_names fs

abbrev is_among : List String → String → Bool
is_among names n = any (λ m. m == n) names

abbrev transcript_keys : List String
transcript_keys = "source" ∷ "approval_ref" ∷ "mode" ∷ "verify_with_independent_asr" ∷ []

-- `set(payload) == {…}`
pub has_exactly : List String → Fields → Bool
has_exactly names fs =
    all (is_among names) (field_names fs) && all (is_among (field_names fs)) names

abbrev is_light : ProcessingMode → Bool
is_light quick = true
is_light standard = true
is_light _ = false

module _ (strip : String → String) where
  transcription : Fields → String → String → ProcessingMode → Result Work
  unfolding verify_of has_exactly
  transcription payload source approval_ref mode = do
    raise_if (not (has_exactly transcript_keys payload)) "INVALID_TRANSCRIPT_PAYLOAD"
    raise_if (not (is_light mode)) "INVALID_TRANSCRIPT_MODE"
    verify ← verify_of (get payload "verify_with_independent_asr")
    raise_if (strip approval_ref == "") "INVALID_TRANSCRIPT_APPROVAL"
    ok (transcribe_only source mode approval_ref verify)

  processing_of : Fields → String → String → ProcessingMode → Result Work
  unfolding profile_of text_or_none
  processing_of payload source approval_ref mode = do
    profile ← profile_of (get payload "profile")
    question ← text_or_none "INVALID_QUESTION" (get payload "question")
    project_hint ← text_or_none "INVALID_PROJECT_HINT" (get payload "project_hint")
    ok (process source mode approval_ref question project_hint profile)

  -- The tests, in the order of the code.
  pub work_of : QueueRecord → Result Work
  unfolding mode_of required_text transcription processing_of
  work_of r = do
    raise_if (not (r.operation == "video_process_one" || r.operation == "video_transcribe_url"))
        "INVALID_QUEUE_OPERATION"
    source ← required_text (get r.payload "source")
    approval_ref ← required_text (get r.payload "approval_ref")
    mode ← mode_of (get r.payload "mode")
    if r.operation == "video_transcribe_url"
        then transcription r.payload source approval_ref mode
        else processing_of r.payload source approval_ref mode

  pub execute : (Work → Result Fields) → QueueRecord → Result Fields
  unfolding work_of
  execute pipeline r = do w ← work_of r; pipeline w
