-- ===== src/Queue/Operations/Enqueue.antt =====
-- `enqueue` over consistent directories.
use skeleton_media.Base.{
  ℕ, ◌≡◌, refl, sym, ◌∙◌, String, true, false, Option, none, some, ok, inl, inr, Bool-cases, arith,
  All,
}
use skeleton_media.Value.{Fields, fields_strict}
use skeleton_media.Queue.Records.{pending, QueueRecord, is_id, is_token, checked}
use skeleton_media.Queue.Records.RoundTrip.{IsValid}
use skeleton_media.Queue.Files.{Files, look, write}
use skeleton_media.Queue.Operations.{
  Config, is_bad_key, find, new_record, record_id_of, enqueue, states,
}
use skeleton_media.Queue.Operations.Consistent.{IsStored, IsConsistent, write-IsConsistent}
use skeleton_media.Queue.Operations.Find.{nowhere, once, at_state, find_lem}

-- What `enqueue` asks of its arguments, and of the digest: that it makes a record identity.
pub record IsJob (cfg : Config) (operation : String) (payload : Fields) (key : String)
    : Type 0 where
  pub key_fits : is_bad_key cfg key ≡ false
  pub names_operation : is_token operation ≡ true
  pub strict : fields_strict payload ≡ true
  pub identifies : is_id (record_id_of cfg key) ≡ true

module _ (cfg : Config) (operation : String) (payload : Fields) (key : String)
    (available : Option ℕ) (now : ℕ) (fs : Files) where
  abbrev pub fresh : QueueRecord
  fresh = new_record cfg operation payload key available now

  -- The files after the call.
  pub data Outcome (gs : Files) : Type 0 where
    same : gs ≡ fs → Outcome gs
    added :
        IsJob cfg operation payload key
        → All (λ s. look s fresh.record_id fs ≡ none) states
        → gs ≡ write pending fresh.record_id fresh fs
        → Outcome gs

  pub fresh-IsValid : IsJob cfg operation payload key → IsValid fresh
  unfolding checked
  fresh-IsValid j = ground (arith, j.names_operation, j.strict, j.identifies)

  fresh-IsStored : IsJob cfg operation payload key → IsStored pending fresh.record_id fresh
  fresh-IsStored j = record {
    in_state = refl;
    named = refl;
    valid = fresh-IsValid j;
    fits = (refl, refl);
  }

  -- With a new name, the record is added.
  pub enqueue_adds :
      IsJob cfg operation payload key
      → find cfg (record_id_of cfg key) fs ≡ (ok none, fs)
      → enqueue cfg operation payload key available now fs
        ≡ (ok fresh, write pending fresh.record_id fresh fs)
  unfolding enqueue
  enqueue_adds j f =
      rw (j.key_fits, j.names_operation, j.strict, f) (rw (fresh-IsValid j, j.identifies))

  -- With a known name, its record is returned.
  pub enqueue_returns :
      (r : QueueRecord)
      → IsJob cfg operation payload key
      → find cfg (record_id_of cfg key) fs ≡ (ok (some r), fs)
      → enqueue cfg operation payload key available now fs ≡ (ok r, fs)
  unfolding enqueue
  enqueue_returns r j f = rw (j.key_fits, j.names_operation, j.strict, f)

  enqueue_job_cases :
      IsConsistent fs
      → IsJob cfg operation payload key
      → Outcome (enqueue cfg operation payload key available now fs).1
  enqueue_job_cases h j = elim (find_lem cfg (record_id_of cfg key) fs h j.identifies) [
    | once s r named at k q ↦ same (rw (enqueue_returns r j q))
    | nowhere es q ↦ added j es (rw (enqueue_adds j q))
  ]

  enqueue_refused :
      is_id (record_id_of cfg key) ≡ false
      → (enqueue cfg operation payload key available now fs).1 ≡ fs
  unfolding enqueue find
  enqueue_refused i = elim (Bool-cases (is_bad_key cfg key)) [
    | inl a ↦ rw a
    | inr a ↦ elim (Bool-cases (is_token operation)) [
      | inr b ↦ rw (a, b)
      | inl b ↦ elim (Bool-cases (fields_strict payload)) [
        | inr c ↦ rw (a, b, c)
        | inl c ↦ rw (a, b, c, i)
      ]
    ]
  ]

  -- `enqueue` changes nothing, or adds the new record under a name that no directory has.
  pub enqueue_cases :
      IsConsistent fs → Outcome (enqueue cfg operation payload key available now fs).1
  unfolding enqueue
  enqueue_cases h = elim (Bool-cases (is_bad_key cfg key)) [
    | inl a ↦ same (rw a)
    | inr a ↦ elim (Bool-cases (is_token operation)) [
      | inr b ↦ same (rw (a, b))
      | inl b ↦ elim (Bool-cases (fields_strict payload)) [
        | inr c ↦ same (rw (a, b, c))
        | inl c ↦ elim (Bool-cases (is_id (record_id_of cfg key))) [
          | inr i ↦ same (enqueue_refused i)
          | inl i ↦
              enqueue_job_cases h
                (record { key_fits = a; names_operation = b; strict = c; identifies = i })
        ]
      ]
    ]
  ]

  pub enqueue_keeps :
      IsConsistent fs → IsConsistent (enqueue cfg operation payload key available now fs).1
  enqueue_keeps h = elim (enqueue_cases h) [
    | same e ↦ rw e h
    | added j es e ↦ rw e (
        write-IsConsistent pending fresh.record_id fresh fs h
          (λ t d p. let x = sym (at_state (λ u. look u fresh.record_id fs ≡ none) t es) ∙ p in cc)
          (fresh-IsStored j))
  ]
