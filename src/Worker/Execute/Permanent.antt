-- ===== src/Worker/Execute/Permanent.antt =====
-- A malformed job fails for good.
mod Tests
use skeleton_media.Base.{
  ◌≡◌, ◌≢◌, refl, arith, any, all, ◌&&◌, String, Bool, true, false, Option, none, some, List, [],
  ◌∷◌, Result, ok, err, crash, ◌>>=◌, ◌>>◌, raise_if, if◌then◌else◌, ◌==◌, string_eq, not, ◌||◌,
  inl, inr, Bool-cases,
}
use skeleton_media.Value.{
  Value, null, bool, int, float, nan, infinite, text, arr, obj, foreign, Fields, end, field, get,
  codes,
}
use skeleton_media.Queue.Records.{QueueRecord}
use skeleton_media.Values.Record.{ProcessingMode, Domain}
use skeleton_media.Worker.{is_permanent}
use skeleton_media.Worker.Execute.{
  Work, transcribe_only, process, modes, domains, mode_named, mode_of, domain_named, profile_of,
  text_or_none, required_text, verify_of, has_exactly, transcription, processing_of, work_of,
  execute, transcript_keys, is_light, field_names, is_among,
}

-- The tests end in a value, or in an error that is permanent; no other exception is raised.
abbrev pub IsPermanent : {A : Type 0} → Result A → Type 0
IsPermanent (ok a) = Unit
IsPermanent (err code) = is_permanent code ≡ true
IsPermanent crash = ⊥

bind-IsPermanent :
    {A B : Type 0} (m : Result A) (f : A → Result B)
    → IsPermanent m
    → ((a : A) → IsPermanent (f a))
    → IsPermanent (m >>= f)
bind-IsPermanent (ok a) f h k = k a
bind-IsPermanent (err code) f h k = h
bind-IsPermanent crash f h k = elim h [ ]

raise-IsPermanent :
    {A : Type 0} (b : Bool) (code : String) (m : Result A)
    → is_permanent code ≡ true
    → IsPermanent m
    → IsPermanent (raise_if b code >> m)
raise-IsPermanent true code m p h = p
raise-IsPermanent false code m p h = h

-- What follows a test may rely on it.
test-IsPermanent :
    {A : Type 0} (b : Bool) (code : String) (m : Result A)
    → is_permanent code ≡ true
    → (b ≡ true → IsPermanent m)
    → IsPermanent (raise_if (not b) code >> m)
test-IsPermanent true code m p h = h refl
test-IsPermanent false code m p h = p

mode_named-IsPermanent :
    (ms : List (String × ProcessingMode)) (s : String) → IsPermanent (mode_named ms s)
unfolding mode_named is_permanent
mode_named-IsPermanent [] s = refl
mode_named-IsPermanent ((n, m) ∷ ms) s = elim (Bool-cases (n == s)) [
  | inl y ↦ rw y tt
  | inr z ↦ rw z (mode_named-IsPermanent ms s)
]

domain_named-IsPermanent :
    (ds : List (String × Domain)) (s : String) → IsPermanent (domain_named ds s)
unfolding domain_named is_permanent
domain_named-IsPermanent [] s = refl
domain_named-IsPermanent ((n, d) ∷ ds) s = elim (Bool-cases (n == s)) [
  | inl y ↦ rw y tt
  | inr z ↦ rw z (domain_named-IsPermanent ds s)
]

mode_of-IsPermanent : (v : Option Value) → IsPermanent (mode_of v)
unfolding mode_of is_permanent
mode_of-IsPermanent none = tt
mode_of-IsPermanent (some null) = refl
mode_of-IsPermanent (some (bool b)) = refl
mode_of-IsPermanent (some (int n)) = refl
mode_of-IsPermanent (some (float n)) = refl
mode_of-IsPermanent (some nan) = refl
mode_of-IsPermanent (some infinite) = refl
mode_of-IsPermanent (some (text s)) = mode_named-IsPermanent modes s
mode_of-IsPermanent (some (arr xs)) = refl
mode_of-IsPermanent (some (obj fs)) = refl
mode_of-IsPermanent (some foreign) = refl

profile_of-IsPermanent : (v : Option Value) → IsPermanent (profile_of v)
unfolding profile_of is_permanent
profile_of-IsPermanent none = tt
profile_of-IsPermanent (some null) = tt
profile_of-IsPermanent (some (bool b)) = refl
profile_of-IsPermanent (some (int n)) = refl
profile_of-IsPermanent (some (float n)) = refl
profile_of-IsPermanent (some nan) = refl
profile_of-IsPermanent (some infinite) = refl
profile_of-IsPermanent (some (text s)) = domain_named-IsPermanent domains s
profile_of-IsPermanent (some (arr xs)) = refl
profile_of-IsPermanent (some (obj fs)) = refl
profile_of-IsPermanent (some foreign) = refl

text_or_none-IsPermanent :
    (code : String) (v : Option Value)
    → is_permanent code ≡ true
    → IsPermanent (text_or_none code v)
unfolding text_or_none
text_or_none-IsPermanent code none p = tt
text_or_none-IsPermanent code (some null) p = tt
text_or_none-IsPermanent code (some (bool b)) p = p
text_or_none-IsPermanent code (some (int n)) p = p
text_or_none-IsPermanent code (some (float n)) p = p
text_or_none-IsPermanent code (some nan) p = p
text_or_none-IsPermanent code (some infinite) p = p
text_or_none-IsPermanent code (some (text s)) p = tt
text_or_none-IsPermanent code (some (arr xs)) p = p
text_or_none-IsPermanent code (some (obj fs)) p = p
text_or_none-IsPermanent code (some foreign) p = p

required_text-IsPermanent : (v : Option Value) → IsPermanent (required_text v)
unfolding required_text is_permanent
required_text-IsPermanent none = refl
required_text-IsPermanent (some null) = refl
required_text-IsPermanent (some (bool b)) = refl
required_text-IsPermanent (some (int n)) = refl
required_text-IsPermanent (some (float n)) = refl
required_text-IsPermanent (some nan) = refl
required_text-IsPermanent (some infinite) = refl
required_text-IsPermanent (some (text s)) = tt
required_text-IsPermanent (some (arr xs)) = refl
required_text-IsPermanent (some (obj fs)) = refl
required_text-IsPermanent (some foreign) = refl

-- A key among the names of the fields has a value.
get-is_among : (fs : Fields) (k : String) → is_among (field_names fs) k ≡ true → get fs k ≢ none
unfolding get
get-is_among end k e q = absurd (cc)
get-is_among (field j v fs) k e q = elim (Bool-cases (j == k)) [
  | inl y ↦ let z : ◌≡◌ {A = Option Value} (some v) none = rw y at q in absurd (cc (z))
  | inr n ↦ get-is_among fs k (rw n at e) (rw n at q)
]

has_exactly-verify :
    (fs : Fields)
    → has_exactly transcript_keys fs ≡ true
    → get fs "verify_with_independent_asr" ≢ none
unfolding has_exactly
has_exactly-verify fs e = get-is_among fs "verify_with_independent_asr" (ground arith)

-- A value that is there is a Boolean, or refused for good.
verify_of-IsPermanent : (v : Option Value) → v ≢ none → IsPermanent (verify_of v)
unfolding verify_of is_permanent
verify_of-IsPermanent none n = absurd (n refl)
verify_of-IsPermanent (some null) n = refl
verify_of-IsPermanent (some (bool b)) n = tt
verify_of-IsPermanent (some (int m)) n = refl
verify_of-IsPermanent (some (float m)) n = refl
verify_of-IsPermanent (some nan) n = refl
verify_of-IsPermanent (some infinite) n = refl
verify_of-IsPermanent (some (text s)) n = refl
verify_of-IsPermanent (some (arr xs)) n = refl
verify_of-IsPermanent (some (obj fs)) n = refl
verify_of-IsPermanent (some foreign) n = refl

transcription-IsPermanent :
    (strip : String → String) (fs : Fields) (s a : String) (m : ProcessingMode)
    → IsPermanent (transcription strip fs s a m)
unfolding transcription is_permanent
transcription-IsPermanent strip fs s a m =
    test-IsPermanent (has_exactly transcript_keys fs) "INVALID_TRANSCRIPT_PAYLOAD" _ refl (λ e.
      raise-IsPermanent (not (is_light m)) "INVALID_TRANSCRIPT_MODE" _ refl (
        bind-IsPermanent (verify_of (get fs "verify_with_independent_asr")) _
          (verify_of-IsPermanent (get fs "verify_with_independent_asr") (has_exactly-verify fs e))
          (λ v. raise-IsPermanent (strip a == "") "INVALID_TRANSCRIPT_APPROVAL" _ refl tt)))

processing_of-IsPermanent :
    (strip : String → String) (fs : Fields) (s a : String) (m : ProcessingMode)
    → IsPermanent (processing_of strip fs s a m)
unfolding processing_of is_permanent
processing_of-IsPermanent strip fs s a m =
    bind-IsPermanent (profile_of (get fs "profile")) _ (profile_of-IsPermanent (get fs "profile"))
      λ p.
        bind-IsPermanent (text_or_none "INVALID_QUESTION" (get fs "question")) _
          (text_or_none-IsPermanent "INVALID_QUESTION" (get fs "question") refl)
          λ q.
            bind-IsPermanent (text_or_none "INVALID_PROJECT_HINT" (get fs "project_hint")) _
              (text_or_none-IsPermanent "INVALID_PROJECT_HINT" (get fs "project_hint") refl) λ h. tt

-- The tests of `_execute` on a job, whatever its operation and payload, end in a call of the pipeline or
-- in a refusal with a reason code that the worker takes as permanent; they raise no other
-- exception, so that the key that `video_transcribe_url` reads without a default is there when it
-- is read.
pub work_of-IsPermanent :
    (strip : String → String) (r : QueueRecord) → IsPermanent (work_of strip r)
unfolding work_of is_permanent
work_of-IsPermanent strip r =
    raise-IsPermanent
      (not (r.operation == "video_process_one" || r.operation == "video_transcribe_url"))
      "INVALID_QUEUE_OPERATION" _ refl
      (bind-IsPermanent (required_text (get r.payload "source")) _
        (required_text-IsPermanent (get r.payload "source"))
        λ s.
          bind-IsPermanent (required_text (get r.payload "approval_ref")) _
            (required_text-IsPermanent (get r.payload "approval_ref"))
            λ a.
              bind-IsPermanent (mode_of (get r.payload "mode")) _
                (mode_of-IsPermanent (get r.payload "mode"))
                λ m. elim (Bool-cases (r.operation == "video_transcribe_url")) [
                  | inl y ↦ rw y (transcription-IsPermanent strip r.payload s a m)
                  | inr n ↦ rw n (processing_of-IsPermanent strip r.payload s a m)
                ])
