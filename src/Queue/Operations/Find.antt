-- ===== src/Queue/Operations/Find.antt =====
-- `_find`, `get` and `enqueue` over consistent directories.
use skeleton_media.Base.{
  ◌≡◌, ◌≢◌, refl, sym, ◌∙◌, ap, subst, String, true, Option, none, some, List, [], ◌∷◌, Result, ok,
  inl, inr, Option-cases, arith, All, string_eq,
}
use mathlib.Core.Option.{some-injective}
use skeleton_media.Queue.Records.{
  QueueState, pending, processing, done, failed, quarantined, QueueRecord, is_id,
}
use skeleton_media.Queue.Records.RoundTrip.{IsValid}
use skeleton_media.Queue.Files.{Files, look, read}
use skeleton_media.Queue.Operations.{Config, states, find_in, find}
use skeleton_media.Queue.Operations.Consistent.{content_of, IsStored, IsConsistent}
use skeleton_media.Queue.Operations.Steps.{valid_id, read_valid}
use skeleton_media.Queue.Operations.Keeps.{empty, full, slot, only_here}

-- What `_find` meets: no directory has the name, or exactly one has it, with a record stored well.
-- `answer` is made of the record.
pub data Found {A : Type 0} (answer : Option QueueRecord → A) (ss : List QueueState) (n : String)
    (fs : Files) (x : Result A × Files) : Type 0 where
  nowhere : All (λ s. look s n fs ≡ none) ss → x ≡ (ok (answer none), fs) → Found answer ss n fs x
  once :
      (s : QueueState) (r : QueueRecord)
      → n ≡ r.record_id
      → look s r.record_id fs ≡ some (content_of r)
      → IsStored s r.record_id r
      → x ≡ (ok (answer (some r)), fs)
      → Found answer ss n fs x

abbrev as_list : Option QueueRecord → List QueueRecord
as_list none = []
as_list (some r) = r ∷ []

abbrev itself : Option QueueRecord → Option QueueRecord
itself o = o

-- Each state once.
abbrev Apart : List QueueState → Type 0
Apart [] = Unit
Apart (s ∷ ss) = All (λ t. t ≢ s) ss × Apart ss

states-Apart : Apart states
states-Apart = ground arith

pub at_state : (P : QueueState → Type 0) (s : QueueState) → All P states → P s
at_state P pending a = a.0
at_state P processing a = a.1.0
at_state P done a = a.1.1.0
at_state P failed a = a.1.1.1.0
at_state P quarantined a = a.1.1.1.1.0

elsewhere_none :
    (s : QueueState) (r : QueueRecord) (fs : Files) (ss : List QueueState)
    → IsConsistent fs
    → look s r.record_id fs ≡ some (content_of r)
    → All (λ t. t ≢ s) ss
    → All (λ t. look t r.record_id fs ≡ none) ss
elsewhere_none s r fs [] h at d = tt
elsewhere_none s r fs (t ∷ ss) h at d = elim (Option-cases (look t r.record_id fs)) [
  | inl e ↦ (e, elsewhere_none s r fs ss h at d.1)
  | inr (c, e) ↦ absurd (d.0 (only_here s r fs h at t c e))
]

module _ (cfg : Config) where
  find_in_absent :
      (ss : List QueueState) (n : String) (fs : Files)
      → All (λ s. look s n fs ≡ none) ss
      → find_in cfg ss n fs ≡ (ok [], fs)
  unfolding find_in
  find_in_absent [] n fs a = refl
  find_in_absent (s ∷ ss) n fs a = rw (a.0, find_in) (find_in_absent ss n fs a.1)

  find_in_lem :
      (ss : List QueueState) (n : String) (fs : Files)
      → IsConsistent fs
      → Apart ss
      → Found as_list ss n fs (find_in cfg ss n fs)
  unfolding find_in
  find_in_lem [] n fs h a = nowhere tt refl
  find_in_lem (s ∷ ss) n fs h a = elim (slot s n fs h) [
    | empty e ↦ elim (find_in_lem ss n fs h a.1) [
      | nowhere es q ↦ nowhere (e, es) (rw (e, find_in) q)
      | once t r named at k q ↦ once t r named at k (rw (e, find_in) q)
    ]
    | full r named at k ↦ once s r named at k (
        rw named (
          rw (
            at,
            find_in,
            read_valid cfg.python r k.valid,
            find_in_absent ss r.record_id fs (elsewhere_none s r fs ss h at a.0),
          )))
  ]

  -- Over consistent directories `_find` answers for every well-formed identity, never with
  -- `QUEUE_DUPLICATE_STATE`, and changes nothing.
  pub find_lem :
      (n : String) (fs : Files)
      → IsConsistent fs
      → is_id n ≡ true
      → Found itself states n fs (find cfg n fs)
  unfolding find
  find_lem n fs h i = elim (find_in_lem states n fs h states-Apart) [
    | nowhere es q ↦ nowhere es (rw (i, q))
    | once s r named at k q ↦ once s r named at k (rw (i, q))
  ]

  pub content_injective :
      (r r' : QueueRecord) → IsValid r → IsValid r' → content_of r ≡ content_of r' → r ≡ r'
  content_injective r r' v v' e =
      let q : ok r ≡ ok r' =
        sym (read_valid cfg.python r v)
        ∙ ap (λ c. read cfg.python (some c)) e
        ∙ read_valid cfg.python r' v' in
      cc

  -- `_find` returns the record that a directory holds.
  pub find_stored :
      (s : QueueState) (r : QueueRecord) (fs : Files)
      → IsConsistent fs
      → look s r.record_id fs ≡ some (content_of r)
      → IsValid r
      → find cfg r.record_id fs ≡ (ok (some r), fs)
  find_stored s r fs h at v = elim (find_lem r.record_id fs h (valid_id r v)) [
    | nowhere es q ↦
        let e = at_state (λ t. look t r.record_id fs ≡ none) s es in
        let x : none ≡ some (content_of r) = sym e ∙ at in cc
    | once t r' named at' k q ↦
        let there : look t r.record_id fs ≡ some (content_of r') =
          subst (λ o. look t o fs ≡ some (content_of r')) (sym named) at' in
        let here : look s r.record_id fs ≡ some (content_of r') =
          subst (λ u. look u r.record_id fs ≡ some (content_of r'))
            (h.single t s r.record_id (content_of r') (content_of r) there at) there in
        let same : some (content_of r) ≡ some (content_of r') = sym at ∙ here in
        q
        ∙ ap (λ x. (ok (some x), fs))
            (sym (content_injective r r' v k.valid (some-injective _ _ same)))
  ]
