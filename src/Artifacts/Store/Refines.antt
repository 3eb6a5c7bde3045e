-- ===== src/Artifacts/Store/Refines.antt =====
-- Every run of the store is a run of the map that is written once at each key.
use skeleton_media.Base.{
  ◌≡◌, refl, sym, ◌∙◌, ap, subst, ◌⊎◌, inl, inr, Bool, true, false, not, ◌&&◌, Option, none, some,
  List, [], ◌∷◌, any, ◌==◌, string_eq, Result, ok, err, crash, ◌>>◌, if◌then◌else◌, Option-cases,
  nat_eq,
}
use skeleton_media.Values.Fields.Again.{bind_ok, raise_ok, ok_inj}
use skeleton_media.Artifacts.Store.{
  Library, Place, Target, Revision, revision_at, existing, Finalize, FinalizedArtifact, has_hash,
  read_manifest, verify_target, Prepared, prepare, receipt_of, replayed, promoted, promote,
  finalize_at, finalize_all, finalize,
}
use skeleton_media.Artifacts.Store.WriteOnce.{
  Spec, update, IsRefusal, Step, refuses, repeats, writes, Steps, stop, next,
}
use skeleton_media.Artifacts.Store.Readback.{prepare-checked, verify_target-Holds}

module _ (lib : Library) where
  replayed-Step :
      (c : Finalize) (p : Prepared) (t : Target) (f : Spec)
      → prepare lib c ≡ ok p
      → f p.key ≡ some t
      → (a : Result FinalizedArtifact) → replayed lib c p t ≡ a
      → Step lib c f f a
  unfolding replayed
  replayed-Step c p t f prepared there (err e) q = refuses (err e) tt
  replayed-Step c p t f prepared there crash q = refuses crash tt
  replayed-Step c p t f prepared there (ok r) q =
      let (payload, _, e1) = bind_ok (read_manifest t) _ r q in
      let (_, e2) = raise_ok (not (has_hash payload p.hash)) "ARTIFACT_REVISION_CONFLICT" _ r e1 in
      let (_, verified, e3) = bind_ok (verify_target lib t p.manifest) _ r e2 in
      let (accepted, hashed, _) = prepare-checked lib c p prepared in
      subst (λ x. Step lib c f f (ok x)) (ok_inj (receipt_of lib c p true) r e3)
        (repeats p t prepared there (verify_target-Holds lib t p accepted hashed verified))

  first-Step :
      (c : Finalize) (p : Prepared) (f : Spec)
      → prepare lib c ≡ ok p
      → f p.key ≡ none
      → (v : Result (Unit {0})) → verify_target lib (promoted lib c p) p.manifest ≡ v
      → Step lib c f (update f p.key (promoted lib c p)) (v >> ok (receipt_of lib c p false))
  first-Step c p f prepared free (err e) q = writes p (err e) prepared free (inl tt)
  first-Step c p f prepared free crash q = writes p crash prepared free (inl tt)
  first-Step c p f prepared free (ok tt) q =
      let (accepted, hashed, _) = prepare-checked lib c p prepared in
      writes p (ok (receipt_of lib c p false)) prepared free
        (inr (refl, verify_target-Holds lib (promoted lib c p) p accepted hashed q))

  existing-revision :
      (rs : List Revision) (k : Place) (t : Target)
      → existing rs k ≡ some t
      → (revision_at rs k ≡ some t) ⊎ (t.manifest_json ≡ none)
  unfolding existing
  existing-revision rs k t e = elim (Option-cases (revision_at rs k)) [
    | inl n ↦ inr (above (k.0 == "" && any (λ r. r.key.0 == k.1) rs) (rw (n, existing) at e))
    | inr (u, q) ↦ inl (q ∙ (rw (q, existing) at e))
  ]
    where
      above :
          (b : Bool)
          → (if b then some (record { items = []; manifest_json = none }) else none) ≡ some t
          → t.manifest_json ≡ none
      above true e =
          let q : record { items = []; manifest_json = none } ≡ t = cc in
          ap (λ x. x.manifest_json) (sym q)
      above false e = absurd (cc)

  existing-free : (rs : List Revision) (k : Place) → existing rs k ≡ none → revision_at rs k ≡ none
  unfolding existing
  existing-free rs k e = elim (Option-cases (revision_at rs k)) [
    | inl n ↦ n
    | inr (u, q) ↦ absurd (cc (rw (q, existing) at e))
  ]

  -- A directory without a manifest is never replayed.
  replayed-IsRefusal :
      (c : Finalize) (p : Prepared) (t : Target)
      → t.manifest_json ≡ none
      → IsRefusal (replayed lib c p t)
  unfolding replayed read_manifest
  replayed-IsRefusal c p t n = rw (n) tt

  promote-Step :
      (rs : List Revision) (c : Finalize) (p : Prepared) (b : Bool)
      → prepare lib c ≡ ok p
      → existing rs p.key ≡ none
      → Step lib c (revision_at rs) (revision_at (promote lib rs c p b).0) (promote lib rs c p b).1
  unfolding promote revision_at
  promote-Step rs c p true prepared e =
      first-Step c p (revision_at rs) prepared (existing-free rs p.key e)
        (verify_target lib (promoted lib c p) p.manifest) refl
  promote-Step rs c p false prepared e = refuses (err "ARTIFACT_PROMOTION_FAILED") tt

  finalize_at-Step :
      (rs : List Revision) (c : Finalize) (p : Prepared) (o : Option Target)
      → prepare lib c ≡ ok p
      → existing rs p.key ≡ o
      → Step lib c
          (revision_at rs)
          (revision_at (finalize_at lib rs c p o).0)
          (finalize_at lib rs c p o).1
  unfolding finalize_at
  finalize_at-Step rs c p (some t) prepared e = elim (existing-revision rs p.key t e) [
    | inl there ↦ replayed-Step c p t (revision_at rs) prepared there (replayed lib c p t) refl
    | inr n ↦ refuses (replayed lib c p t) (replayed-IsRefusal c p t n)
  ]
  finalize_at-Step rs c p none prepared e = promote-Step rs c p c.is_replaced prepared e

  pub finalize-Step :
      (rs : List Revision) (c : Finalize)
      → Step lib c (revision_at rs) (revision_at (finalize lib rs c).0) (finalize lib rs c).1
  unfolding finalize
  finalize-Step rs c = go (prepare lib c) refl
    where
      go :
          (o : Result Prepared)
          → prepare lib c ≡ o
          → Step lib c (revision_at rs) (revision_at (finalize lib rs c).0) (finalize lib rs c).1
      go (ok p) q = rw (q, finalize) (finalize_at-Step rs c p (existing rs p.key) q refl)
      go (err e) q = rw (q, finalize) (refuses (err e) tt)
      go crash q = rw (q, finalize) (refuses crash tt)

  -- From any store, the answers of a list of calls and the store after them are steps of a map that is
  -- written at most once at each key. A receipt of a replay is of a directory that was there, a first
  -- receipt of one that the call wrote; both directories hold the files of the call's manifest, by path,
  -- hash and size, and no others, and name its hash. A call that is refused changes nothing, but for the
  -- first write at its key that did not read back.
  pub finalize_all_refines :
      (rs : List Revision) (cs : List Finalize)
      → Steps lib cs
          (revision_at rs)
          (revision_at (finalize_all lib rs cs).0)
          (finalize_all lib rs cs).1
  unfolding finalize_all
  finalize_all_refines rs [] = stop
  finalize_all_refines rs (c ∷ cs) =
      next (finalize-Step rs c) (finalize_all_refines (finalize lib rs c).0 cs)
