-- ===== src/Artifacts/Store/Succeeds.antt =====
-- When the first `finalize` of a revision returns a receipt.
use skeleton_media.Base.{
  ◌≡◌, ◌≢◌, refl, sym, ◌∙◌, ap, ◌↔◌, inl, inr, true, false, not, none, List, ◌∷◌, map, any,
  string_eq, nat_eq, All, Result, ok, err, crash, ◌>>◌, Bool-cases, arith, eq_refl,
}
use skeleton_media.Value.{get}
use skeleton_media.Values.Fields.Again.{bind_ok, raise_ok}
use skeleton_media.Artifacts.Manifest.{verify_inventory, deterministic_hash}
use skeleton_media.Artifacts.Manifest.Exact.{verify_inventory-exact}
use skeleton_media.Artifacts.Store.{
  Library, readback, verify_target, read_manifest, manifest_payload, Revision, existing, Finalize,
  FinalizedArtifact, Prepared, prepare, receipt_of, promoted, promote, finalize_at, finalize,
}
use skeleton_media.Artifacts.Store.Readback.{prepare-checked}
use skeleton_media.Artifacts.Store.Leftovers.{
  is_leftover, IsPosix, triple, readback-inventory, promised-named, readback-Leftover,
}

module _ (lib : Library) where
  verify_target-leftover :
      (c : Finalize) (p : Prepared)
      → prepare lib c ≡ ok p
      → All IsPosix c.items
      → any is_leftover c.items ≡ true
      → verify_target lib (promoted lib c p) p.manifest ≢ ok tt
  unfolding verify_target promoted
  verify_target-leftover c p prepared posix h e =
      let (accepted, _, listed) = prepare-checked lib c p prepared in
      let (i, a, e1) = bind_ok (readback lib c.items) _ tt e in
      let (b, _) =
        raise_ok (not (verify_inventory p.manifest i).verified) "ARTIFACT_READBACK_FAILED" _ tt
          e1 in
      let exact = (verify_inventory-exact p.manifest p.manifest i accepted).0 (ground (arith, b)) in
      let (q, o, f, g) = readback-Leftover lib c.items i a h in
      let k =
        promised-named lib c.processing_revision c.producer c.items p.manifest.entries q o posix
          listed (sym (exact q) ∙ f) in
      cc (g, k)

  verify_target-whole :
      (c : Finalize) (p : Prepared)
      → prepare lib c ≡ ok p
      → All IsPosix c.items
      → any is_leftover c.items ≡ false
      → verify_target lib (promoted lib c p) p.manifest ≡ ok tt
  unfolding verify_target promoted read_manifest manifest_payload get deterministic_hash
  verify_target-whole c p prepared posix h =
      let (accepted, _, listed) = prepare-checked lib c p prepared in
      let a =
        readback-inventory lib c.processing_revision c.producer c.items p.manifest.entries posix h
          listed in
      let v =
        (verify_inventory-exact p.manifest p.manifest (map (triple lib) p.manifest.entries)
            accepted).1
          (λ q. refl) in
      rw (a, v, eq_refl (deterministic_hash lib.digest p.manifest)) refl

  finalize-prepared :
      (rs : List Revision) (c : Finalize) (p : Prepared)
      → prepare lib c ≡ ok p
      → finalize lib rs c ≡ finalize_at lib rs c p (existing rs p.key)
  unfolding finalize
  finalize-prepared rs c p prepared = rw (prepared, finalize) refl

  first_answer :
      (rs : List Revision) (c : Finalize) (p : Prepared)
      → prepare lib c ≡ ok p
      → existing rs p.key ≡ none
      → c.is_replaced ≡ true
      → finalize lib rs c ≡ (
        record { key = p.key; target = promoted lib c p } ∷ rs,
        verify_target lib (promoted lib c p) p.manifest >> ok (receipt_of lib c p false),
      )
  unfolding finalize_at promote
  first_answer rs c p prepared free moved =
      finalize-prepared rs c p prepared
      ∙ ap (finalize_at lib rs c p) free
      ∙ ap (promote lib rs c p) moved

  then_ok : (v : Result (Unit {0})) (r : FinalizedArtifact) → (v >> ok r) ≡ ok r → v ≡ ok tt
  then_ok (ok tt) r e = refl
  then_ok (err x) r e = absurd (cc)
  then_ok crash r e = absurd (cc)

  -- Where `prepare` succeeds (it refuses an identity that is not safe, a workspace that is not staged, is
  -- empty or holds a link, and a manifest that is not accepted), nothing stands at the key yet, the
  -- directory can be moved there, and the paths of the workspace are spelled as `as_posix` spells
  -- them: `finalize` returns its receipt exactly when the workspace holds no file whose name ends in
  -- ".part", but for those named "manifest.json".
  pub finalize-first :
      (rs : List Revision) (c : Finalize) (p : Prepared)
      → prepare lib c ≡ ok p
      → existing rs p.key ≡ none
      → c.is_replaced ≡ true
      → All IsPosix c.items
      → ((finalize lib rs c).1 ≡ ok (receipt_of lib c p false)) ↔ (any is_leftover c.items ≡ false)
  finalize-first rs c p prepared free moved posix =
      let answer = ap (λ z. z.1) (first_answer rs c p prepared free moved) in
      (
        λ e. elim (Bool-cases (any is_leftover c.items)) [
          | inl h ↦
              absurd (verify_target-leftover c p prepared posix h (then_ok _ _ (sym answer ∙ e)))
          | inr h ↦ h
        ],
        λ h.
            answer
            ∙ ap (λ v. v >> ok (receipt_of lib c p false))
                (verify_target-whole c p prepared posix h),
      )
