-- ===== src/Artifacts/Store/WriteOnce.antt =====
-- A map from identities to directories that is written once at each key: what the store refines.
use skeleton_media.Base.{
  ◌≡◌, ◌⊎◌, String, true, false, Option, none, some, List, [], ◌∷◌, string_eq, Result, ok,
  if◌then◌else◌, nat_eq,
}
use skeleton_media.Value.{Fields, text, get}
use skeleton_media.Artifacts.Manifest.{Inventory, observed_at}
use skeleton_media.Artifacts.Manifest.Sets.{promised}
use skeleton_media.Artifacts.Store.{
  Library, Place, same_place, Target, Finalize, FinalizedArtifact, readback, Prepared, prepare,
  receipt_of, promoted,
}

abbrev pub Spec : Type 0
Spec = Place → Option Target

abbrev pub update : Spec → Place → Target → Spec
update f k t j = if same_place k j then some t else f j

-- An answer that is no receipt.
abbrev pub IsRefusal : Result FinalizedArtifact → Type 0
IsRefusal (ok r) = ⊥
IsRefusal _ = Unit

-- The manifest file of a directory names a hash.
abbrev pub Names : Target → String → Type 0
Names t h =
    (payload : Fields) × (t.manifest_json ≡ some payload)
    × (get payload "manifest_hash" ≡ some (text h))

module _ (lib : Library) where
  -- A directory reads back as a manifest: at each path the hash and the size of its entry, and no other
  -- files.
  abbrev pub Holds : Target → Prepared → Type 0
  Holds t p =
      ((i : Inventory) × (readback lib t.items ≡ ok i)
        × ((q : String) → observed_at i q ≡ promised p.manifest.entries q))
      × Names t p.hash

  -- What a call may do to the map, and answer: nothing, a replay of what is there, or the first write at
  -- its key.
  pub data Step (c : Finalize) (f : Spec) : Spec → Result FinalizedArtifact → Type 0 where
    refuses : (a : Result FinalizedArtifact) → IsRefusal a → Step c f f a
    repeats :
        (p : Prepared) (t : Target)
        → prepare lib c ≡ ok p
        → f p.key ≡ some t
        → Holds t p
        → Step c f f (ok (receipt_of lib c p true))
    writes :
        (p : Prepared) (a : Result FinalizedArtifact)
        → prepare lib c ≡ ok p
        → f p.key ≡ none
        → IsRefusal a ⊎ ((a ≡ ok (receipt_of lib c p false)) × Holds (promoted lib c p) p)
        → Step c f (update f p.key (promoted lib c p)) a

  -- The steps of a list of calls, with their answers.
  pub data Steps : List Finalize → Spec → Spec → List (Result FinalizedArtifact) → Type 0 where
    stop : {f : Spec} → Steps [] f f []
    next :
        {c : Finalize} {cs : List Finalize} {f g h : Spec} {a : Result FinalizedArtifact}
        {bs : List (Result FinalizedArtifact)}
        → Step c f g a
        → Steps cs g h bs
        → Steps (c ∷ cs) f h (a ∷ bs)
