-- ===== src/Artifacts/Store/Readback.antt =====
-- What the readback of a directory shows, and what a prepared call has.
use skeleton_media.Base.{
  ◌≡◌, refl, sym, ◌∙◌, ap, subst, ◌⊎◌, inl, inr, String, true, not, ◌||◌, Option, none, some, List,
  any, ◌==◌, string_eq, ok, Option-cases, length, nat_eq, arith, eq_iff,
}
use skeleton_media.Value.{Value, Fields, text, get}
use skeleton_media.Values.Fields.Again.{bind_ok, raise_ok, ok_inj}
use skeleton_media.Values.Record.{ProcessingMode}
use skeleton_media.Artifacts.Manifest.{
  ArtifactEntry, ArtifactManifest, checked_manifest, verify_inventory, build_manifest,
  deterministic_hash, all_differ, ids, paths,
}
use skeleton_media.Artifacts.Manifest.Exact.{verify_inventory-exact}
use skeleton_media.Artifacts.Store.{
  Library, Target, Finalize, has_hash, is_text, readback, read_manifest, verify_target, Prepared,
  prepare, crash_if, is_blocked, inventory, target_root,
}
use skeleton_media.Artifacts.Store.WriteOnce.{Names, Holds}

module _ (lib : Library) where
  pub has_hash-Names :
      (t : Target) (payload : Fields) (h : String)
      → t.manifest_json ≡ some payload
      → has_hash payload h ≡ true
      → Names t h
  has_hash-Names t payload h e q = (
    payload,
    e,
    named (get payload "manifest_hash") (Option-cases (get payload "manifest_hash")) q,
  )
    where
      named :
          (o : Option Value)
          → (o ≡ none) ⊎ ((v : Value) × (o ≡ some v))
          → is_text o h ≡ true
          → o ≡ some (text h)
      named none k q = absurd (cc)
      named (some (text s)) k q = ap (λ z. some (text z)) ((eq_iff s h).0 q)
      named (some v) k q = absurd (cc)

  read_manifest-some :
      (t : Target) (payload : Fields)
      → read_manifest t ≡ ok payload
      → t.manifest_json ≡ some payload
  unfolding read_manifest
  read_manifest-some t payload e = elim (Option-cases t.manifest_json) [
    | inl n ↦ absurd (cc (rw (n) at e))
    | inr (v, q) ↦ q ∙ ap (λ z. some z) (ok_inj v payload (rw (q) at e))
  ]

  checked_manifest-again :
      (n m : ArtifactManifest) → checked_manifest n ≡ ok m → checked_manifest m ≡ ok m
  unfolding checked_manifest
  checked_manifest-again n m e =
      let (a, b) =
        raise_ok (not (all_differ (ids n.entries)) || not (all_differ (paths n.entries)))
          "DUPLICATE_ARTIFACT_IDENTITY" (ok n) m e in
      subst (λ x. checked_manifest x ≡ ok x) {x = n} (ok_inj n m b) (rw (a) refl)

  checked_manifest-kept :
      (n m : ArtifactManifest)
      → checked_manifest n ≡ ok m
      → (checked_manifest m ≡ ok m) × (m.entries ≡ n.entries)
  unfolding checked_manifest
  checked_manifest-kept n m e =
      let (_, b) =
        raise_ok (not (all_differ (ids n.entries)) || not (all_differ (paths n.entries)))
          "DUPLICATE_ARTIFACT_IDENTITY" (ok n) m e in
      (checked_manifest-again n m e, ap (λ z. z.entries) (sym (ok_inj n m b)))

  build_manifest-checked :
      (i r : String) (k : ProcessingMode) (es : List ArtifactEntry) (m : ArtifactManifest)
      → build_manifest i r k es ≡ ok m
      → (checked_manifest m ≡ ok m) × (m.entries ≡ es)
  unfolding build_manifest
  build_manifest-checked i r k es m e =
      checked_manifest-kept
        (record {
          schema = "skeleton.video_understanding.manifest.v1";
          video_record_id = i;
          processing_revision = r;
          mode = k;
          entries = es;
        })
        m e

  pub prepare-checked :
      (c : Finalize) (p : Prepared)
      → prepare lib c ≡ ok p
      → (checked_manifest p.manifest ≡ ok p.manifest)
        × (p.hash ≡ deterministic_hash lib.digest p.manifest)
        × (inventory lib c.processing_revision c.producer c.items ≡ ok p.manifest.entries)
  unfolding prepare
  prepare-checked c p e =
      let (_, e1) = raise_ok (not c.is_staged) "ARTIFACT_WORKSPACE_INVALID" _ p e in
      let (es, a, e2) = bind_ok (inventory lib c.processing_revision c.producer c.items) _ p e1 in
      let (_, e3) = raise_ok (length es == 0) "ARTIFACT_SET_EMPTY" _ p e2 in
      let (m, b, e4) =
        bind_ok (build_manifest c.video_record_id c.processing_revision c.mode es) _ p e3 in
      let (_, _, e5) = bind_ok (crash_if (any is_blocked c.items)) _ p e4 in
      let (k, _, e6) = bind_ok (target_root c.video_record_id c.processing_revision) _ p e5 in
      let (accepted, kept) = build_manifest-checked _ _ _ es m b in
      subst
        (λ x.
          (checked_manifest x.manifest ≡ ok x.manifest)
          × (x.hash ≡ deterministic_hash lib.digest x.manifest)
          × (inventory lib c.processing_revision c.producer c.items ≡ ok x.manifest.entries))
        (ok_inj _ p e6) (accepted, refl, a ∙ ap (λ z. ok z) (sym kept))

  pub verify_target-Holds :
      (t : Target) (p : Prepared)
      → checked_manifest p.manifest ≡ ok p.manifest
      → p.hash ≡ deterministic_hash lib.digest p.manifest
      → verify_target lib t p.manifest ≡ ok tt
      → Holds lib t p
  unfolding verify_target
  verify_target-Holds t p accepted q e =
      let (i, a, e1) = bind_ok (readback lib t.items) _ tt e in
      let (b, e2) =
        raise_ok (not (verify_inventory p.manifest i).verified) "ARTIFACT_READBACK_FAILED" _ tt
          e1 in
      let (payload, d, e3) = bind_ok (read_manifest t) _ tt e2 in
      let (f, _) =
        raise_ok (not (has_hash payload (deterministic_hash lib.digest p.manifest)))
          "MANIFEST_READBACK_FAILED" (ok tt) tt e3 in
      (
        (i, a, (verify_inventory-exact p.manifest p.manifest i accepted).0 (ground (arith, b))),
        has_hash-Names t payload p.hash (read_manifest-some t payload d)
            (rw (q) (ground (arith, f))),
      )
