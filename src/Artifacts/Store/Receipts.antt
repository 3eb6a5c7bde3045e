-- ===== src/Artifacts/Store/Receipts.antt =====
-- What the receipts of a store stand for.
use skeleton_media.Base.{
  ◌≡◌, refl, sym, subst, inl, inr, true, some, List, [], ◌∷◌, string_eq, All, Result, ok, err,
  crash, Bool-cases, arith, eq_iff, eq_refl,
}
use skeleton_media.Artifacts.Store.{
  Library, Place, same_place, Target, Revision, revision_at, Finalize, FinalizedArtifact,
  receipt_of, promoted, finalize_all,
}
use skeleton_media.Artifacts.Store.WriteOnce.{
  Spec, IsRefusal, Names, Step, refuses, repeats, writes, Steps, stop, next,
}
use skeleton_media.Artifacts.Store.Refines.{finalize_all_refines}

same_place_refl : (k : Place) → same_place k k ≡ true
same_place_refl k = rw (eq_refl k.0, eq_refl k.1) refl

same_place-eq : (j k : Place) → same_place j k ≡ true → j ≡ k
same_place-eq (a, b) (c, d) e =
    let p = (eq_iff a c).0 (ground (arith, e)) in
    let q = (eq_iff b d).0 (ground (arith, e)) in cc (p, q)

module _ (lib : Library) where
  -- A step keeps what is there.
  Step-keeps :
      {c : Finalize} {f g : Spec} {a : Result FinalizedArtifact} (k : Place) (t : Target)
      → Step lib c f g a
      → f k ≡ some t
      → g k ≡ some t
  Step-keeps k t (refuses a r) e = e
  Step-keeps k t (repeats p u a b d) e = e
  Step-keeps {f = f} k t (writes p a b free d) e = elim (Bool-cases (same_place p.key k)) [
    | inl s ↦ absurd (cc (subst (λ j. f j ≡ some t) (sym (same_place-eq p.key k s)) e, free))
    | inr s ↦ rw (s) e
  ]

  pub Steps-keeps :
      {cs : List Finalize} {f g : Spec} {bs : List (Result FinalizedArtifact)} (k : Place)
      (t : Target)
      → Steps lib cs f g bs
      → f k ≡ some t
      → g k ≡ some t
  Steps-keeps k t stop e = e
  Steps-keeps k t (next s ss) e = Steps-keeps k t ss (Step-keeps k t s e)

  -- The map holds a directory under the root of a receipt, with its hash.
  abbrev pub Stands : Spec → Result FinalizedArtifact → Type 0
  Stands f (ok r) = (t : Target) × (f r.root ≡ some t) × Names t r.manifest_hash
  Stands f _ = Unit

  refused-Stands : (f : Spec) (a : Result FinalizedArtifact) → IsRefusal a → Stands f a
  refused-Stands f (ok r) h = absurd h
  refused-Stands f (err e) h = tt
  refused-Stands f crash h = tt

  Step-Stands :
      {c : Finalize} {f g : Spec} {a : Result FinalizedArtifact} → Step lib c f g a → Stands g a
  unfolding receipt_of
  Step-Stands {f = f} (refuses a h) = refused-Stands f a h
  Step-Stands (repeats p t prepared there (_, names)) = (t, there, names)
  Step-Stands {g = g} (writes p a prepared free (inl h)) = refused-Stands g a h
  Step-Stands {c = c} {g = g} (writes p a prepared free (inr (e, (_, names)))) =
      subst (Stands g) (sym e) (promoted lib c p, rw (same_place_refl p.key) refl, names)

  keeps-Stands :
      {cs : List Finalize} {f g : Spec} {bs : List (Result FinalizedArtifact)}
      (a : Result FinalizedArtifact)
      → Steps lib cs f g bs
      → Stands f a
      → Stands g a
  keeps-Stands (ok r) ss (t, there, names) = (t, Steps-keeps r.root t ss there, names)
  keeps-Stands (err e) ss h = tt
  keeps-Stands crash ss h = tt

  Steps-Stands :
      {cs : List Finalize} {f g : Spec} (bs : List (Result FinalizedArtifact))
      → Steps lib cs f g bs
      → All (Stands g) bs
  Steps-Stands [] ss = tt
  Steps-Stands (a ∷ bs) (next s ss) = (keeps-Stands a ss (Step-Stands s), Steps-Stands bs ss)

  -- After any list of calls, from any store: every directory that was there is there unchanged, and every
  -- receipt that a call returned names the hash in the manifest of the directory that now stands under
  -- its root. So two receipts for one revision have one hash.
  pub finalize_all-Stands :
      (rs : List Revision) (cs : List Finalize)
      → ((k : Place) (t : Target)
          → revision_at rs k ≡ some t
          → revision_at (finalize_all lib rs cs).0 k ≡ some t)
        × All (Stands (revision_at (finalize_all lib rs cs).0)) (finalize_all lib rs cs).1
  finalize_all-Stands rs cs =
      let ss = finalize_all_refines lib rs cs in
      (λ k t e. Steps-keeps k t ss e, Steps-Stands (finalize_all lib rs cs).1 ss)
