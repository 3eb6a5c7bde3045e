-- ===== src/Queue/Operations/Calls.antt =====
-- Whole histories of a queue, and what `enqueue` and `get` promise over them.
use skeleton_media.Base.{
  ℕ, ◌≡◌, refl, sym, subst, String, Bool, true, Option, none, some, List, [], ◌∷◌, ok, err, inl,
  inr, Bool-cases, ◌⊎◌,
}
use skeleton_media.Value.{Fields}
use skeleton_media.Queue.Records.{QueueState, pending, QueueRecord, is_id}
use skeleton_media.Queue.Files.{Files, look, write}
use skeleton_media.Queue.Operations.{
  Config, find, record_id_of, enqueue, claim, heartbeat, complete, fail, recover_expired, get,
  counts,
}
use skeleton_media.Queue.Operations.Consistent.{content_of, look-write_self, IsStored, IsConsistent}
use skeleton_media.Queue.Operations.Keeps.{
  claim-Keeps, heartbeat-Keeps, complete-Keeps, fail-Keeps, recover_expired-Keeps,
}
use skeleton_media.Queue.Operations.Find.{nowhere, once, at_state, find_lem, find_stored}
use skeleton_media.Queue.Operations.Enqueue.{
  IsJob, fresh, fresh-IsValid, enqueue_adds, enqueue_returns, enqueue_keeps,
}

-- A call of `FileQueue`; its last argument is the time of the clock.
pub data Call : Type 0 where
  enqueues :
      (operation : String) (payload : Fields) (key : String) (available : Option ℕ) (now : ℕ) → Call
  claims : (worker : String) (lease : Option ℕ) (now : ℕ) → Call
  beats : (name worker : String) (lease : Option ℕ) (now : ℕ) → Call
  completes : (name worker : String) (now : ℕ) → Call
  fails : (name worker reason : String) (permanent : Bool) (now : ℕ) → Call
  recovers : (now : ℕ) → Call
  gets : (name : String) → Call
  counting : Call

-- The files after a call, whatever it answers.
unfoldable pub after : Config → Call → Files → Files
after cfg (enqueues operation payload key available now) fs =
    (enqueue cfg operation payload key available now fs).1
after cfg (claims worker lease now) fs = (claim cfg worker lease now fs).1
after cfg (beats name worker lease now) fs = (heartbeat cfg name worker lease now fs).1
after cfg (completes name worker now) fs = (complete cfg name worker now fs).1
after cfg (fails name worker reason permanent now) fs =
    (fail cfg name worker reason permanent now fs).1
after cfg (recovers now) fs = (recover_expired cfg now fs).1
after cfg (gets name) fs = (get cfg name fs).1
after cfg counting fs = (counts cfg fs).1

unfoldable pub run : Config → List Call → Files → Files
unfolding after
run cfg [] fs = fs
run cfg (c ∷ cs) fs = run cfg cs (after cfg c fs)

module _ (cfg : Config) where
  pub get_files : (n : String) (fs : Files) → IsConsistent fs → (get cfg n fs).1 ≡ fs
  unfolding get
  get_files n fs h = elim (Bool-cases (is_id n)) [
    | inr i ↦ unfold find in rw i
    | inl i ↦ elim (find_lem cfg n fs h i) [ nowhere es q ↦ rw q | once s r named at k q ↦ rw q ]
  ]

  pub after-keeps : (c : Call) (fs : Files) → IsConsistent fs → IsConsistent (after cfg c fs)
  unfolding after counts
  after-keeps (enqueues operation payload key available now) fs h =
      enqueue_keeps cfg operation payload key available now fs h
  after-keeps (claims worker lease now) fs h = claim-Keeps cfg worker lease now fs h
  after-keeps (beats name worker lease now) fs h = heartbeat-Keeps cfg name worker lease now fs h
  after-keeps (completes name worker now) fs h = complete-Keeps cfg name worker now fs h
  after-keeps (fails name worker reason permanent now) fs h =
      fail-Keeps cfg name worker reason permanent now fs h
  after-keeps (recovers now) fs h = recover_expired-Keeps cfg now fs h
  after-keeps (gets name) fs h = rw (get_files name fs h) h
  after-keeps counting fs h = h

  pub run-keeps : (cs : List Call) (fs : Files) → IsConsistent fs → IsConsistent (run cfg cs fs)
  unfolding run
  run-keeps [] fs h = h
  run-keeps (c ∷ cs) fs h = run-keeps cs (after cfg c fs) (after-keeps c fs h)

new-IsConsistent : IsConsistent []
unfolding look
new-IsConsistent = record { stored = λ s n c p. absurd (cc); single = λ s t n c d p q. absurd (cc) }

-- After any calls on a new queue, whatever they answer, every file holds a valid record with the
-- state of its directory and the identity of its name, a record has a lease and a worker exactly
-- if it is in `processing`, and no name is in two directories.
pub run-IsConsistent : (cfg : Config) (cs : List Call) → IsConsistent (run cfg cs [])
run-IsConsistent cfg cs = run-keeps cfg cs [] new-IsConsistent

-- `get` of a well-formed identity over consistent directories: it says that there is no record if no
-- directory has the name, and otherwise returns the one record stored under it; it changes nothing
-- and never finds a duplicate.
pub get-Found :
    (cfg : Config) (n : String) (fs : Files)
    → IsConsistent fs
    → is_id n ≡ true
    → ((get cfg n fs ≡ (err "QUEUE_RECORD_NOT_FOUND", fs))
        × ((s : QueueState) → look s n fs ≡ none))
      ⊎ ((s : QueueState) × (r : QueueRecord) × (get cfg n fs ≡ (ok r, fs))
          × (look s n fs ≡ some (content_of r))
          × IsStored s n r)
unfolding get
get-Found cfg n fs h i = elim (find_lem cfg n fs h i) [
  | nowhere es q ↦ inl (rw q, λ s. at_state (λ t. look t n fs ≡ none) s es)
  | once s r named at k q ↦ inr (
    s,
    r,
    rw q,
    subst (λ o. look s o fs ≡ some (content_of r)) (sym named) at,
    subst (λ o. IsStored s o r) (sym named) k,
  )
]

-- A key names one job. Over consistent directories, if two calls of `enqueue` with the same key each
-- ask for a well-formed job (the key within its bounds, the operation a token, the payload strict
-- JSON, the hash of the key an identity), then the second one, made right after the first at any
-- time of the clock, returns the record that the first returned and changes nothing, also where its
-- operation, payload and start differ from those of the first.
pub enqueue-idempotent :
    (cfg : Config) (operation operation' key : String) (payload payload' : Fields)
    (available available' : Option ℕ) (now now' : ℕ) (fs : Files)
    → IsConsistent fs
    → IsJob cfg operation payload key
    → IsJob cfg operation' payload' key
    → let first = enqueue cfg operation payload key available now fs in
      (r : QueueRecord) × (first.0 ≡ ok r)
      × (enqueue cfg operation' payload' key available' now' first.1 ≡ (ok r, first.1))
enqueue-idempotent cfg op op' key payload payload' available available' now now' fs h j j' =
    elim (find_lem cfg (record_id_of cfg key) fs h j.identifies) [
      | once s r named at k q ↦
          rw (enqueue_returns cfg op payload key available now fs r j q)
            (r, refl, enqueue_returns cfg op' payload' key available' now' fs r j' q)
      | nowhere es q ↦
          let new = fresh cfg op payload key available now fs in
          let adds = enqueue_adds cfg op payload key available now fs j q in
          rw adds (
            new,
            refl,
            enqueue_returns cfg op' payload' key available' now'
                (write pending new.record_id new fs) new j'
                (find_stored cfg pending new (write pending new.record_id new fs)
                  (subst (λ x. IsConsistent x.1) adds
                    (enqueue_keeps cfg op payload key available now fs h))
                  (look-write_self pending new.record_id new fs)
                  (fresh-IsValid cfg op payload key available now fs j)),
          )
    ]
