-- ===== src/Artifacts/Store/Leftovers.antt =====
-- Inventory and readback of the same files differ in the files that a download left behind.
use skeleton_media.Base.{
  ℕ, ◌≡◌, refl, sym, ◌∙◌, ap, subst, inl, inr, String, Bool, true, false, not, ◌&&◌, ◌||◌, some,
  List, [], ◌∷◌, map, any, ◌==◌, string_eq, nat_eq, All, ok, if◌then◌else◌, Bool-cases, arith,
  eq_iff, eq_refl,
}
use skeleton_media.Values.Fields.{is_opaque_id, is_sha256}
use skeleton_media.Values.Fields.Again.{bind_ok, raise_ok, ok_inj}
use skeleton_media.Artifacts.Paths.{
  validate_relative_artifact_path, is_unclean, is_absolute, is_upward, join, parts,
}
use skeleton_media.Artifacts.Manifest.{
  ArtifactEntry, Inventory, checked_entry, is_bad_field, observed_at,
}
use skeleton_media.Artifacts.Manifest.Sets.{promised}
use skeleton_media.Artifacts.Store.{
  Library, Item, name_of, ends_with, is_link, is_skipped, is_unread, entry_of, with_entry,
  inventory, readback,
}

-- A file that the inventory skips by its name, and the readback does not.
abbrev pub is_leftover : Item → Bool
is_leftover x = not (is_unread x) && ends_with ".part" (name_of x.relative)

-- The path is written as `as_posix` writes it.
abbrev pub IsPosix : Item → Type 0
IsPosix x = join (parts x.relative) ≡ x.relative

module _ (lib : Library) where
  validate-posix :
      (s t : String) → join (parts s) ≡ s → validate_relative_artifact_path s ≡ ok t → t ≡ s
  unfolding validate_relative_artifact_path
  validate-posix s t posix e =
      let (_, e1) = raise_ok (is_unclean s) "INVALID_ARTIFACT_PATH" _ t e in
      let (_, e2) =
        raise_ok (is_absolute s || any is_upward (parts s)) "INVALID_ARTIFACT_PATH" _ t e1 in
      let (_, e3) = raise_ok (is_absolute (join (parts s))) "INVALID_ARTIFACT_PATH" _ t e2 in
      sym (ok_inj (join (parts s)) t e3) ∙ posix

  entry-kept :
      (d e : ArtifactEntry)
      → join (parts d.relative_path) ≡ d.relative_path
      → checked_entry lib.strip d ≡ ok e
      → e ≡ d
  unfolding checked_entry
  entry-kept d e posix q =
      let (_, e1) = raise_ok (not (is_opaque_id d.artifact_id)) "INVALID_ARTIFACT_ID" _ e q in
      let (t, v, e2) = bind_ok (validate_relative_artifact_path d.relative_path) _ e e1 in
      let (_, e3) = raise_ok (not (is_sha256 d.sha256)) "INVALID_ARTIFACT_HASH" _ e e2 in
      let (_, e4) =
        raise_ok (is_bad_field lib.strip 256 d.media_type) "INVALID_ARTIFACT_FIELD" _ e e3 in
      let (_, e5) =
        raise_ok (is_bad_field lib.strip 256 d.producer) "INVALID_ARTIFACT_FIELD" _ e e4 in
      let (_, e6) =
        raise_ok (is_bad_field lib.strip 128 d.processing_revision) "INVALID_ARTIFACT_FIELD" _ e
          e5 in
      let w = ok_inj (record d { relative_path = t }) e e6 in
      sym w ∙ ap (λ z. record d { relative_path = z }) (validate-posix d.relative_path t posix v)

  abbrev pub triple : ArtifactEntry → String × (String × ℕ)
  triple e = (e.relative_path, (e.sha256, e.byte_size))

  module _ (revision producer : String) where
    -- How an item enters the inventory `es` that starts with it.
    data Enters (x : Item) (xs : List Item) : List ArtifactEntry → Type 0 where
      skips :
          {es : List ArtifactEntry}
          → is_skipped x ≡ true
          → inventory lib revision producer xs ≡ ok es
          → Enters x xs es
      adds :
          {e : ArtifactEntry} {es : List ArtifactEntry}
          → is_skipped x ≡ false
          → checked_entry lib.strip (entry_of lib revision producer x) ≡ ok e
          → inventory lib revision producer xs ≡ ok es
          → Enters x xs (e ∷ es)

    inventory-Enters :
        (x : Item) (xs : List Item) (es : List ArtifactEntry)
        → inventory lib revision producer (x ∷ xs) ≡ ok es
        → (is_link x.kind ≡ false) × Enters x xs es
    unfolding inventory
    inventory-Enters x xs es q =
        let (a, q1) = raise_ok (is_link x.kind) "ARTIFACT_SYMLINK_REJECTED" _ es q in
        (a, go (is_skipped x) refl q1)
      where
        go :
            (b : Bool)
            → is_skipped x ≡ b
            → (if b
                then inventory lib revision producer xs
                else with_entry lib
                    (checked_entry lib.strip (entry_of lib revision producer x))
                    (inventory lib revision producer xs))
              ≡ ok es
            → Enters x xs es
        go true s r = skips s r
        go false s r =
            let (e, u, r1) =
              bind_ok (checked_entry lib.strip (entry_of lib revision producer x)) _ es r in
            let (fs, v, r2) = bind_ok (inventory lib revision producer xs) _ es r1 in
            subst (Enters x xs) (ok_inj (e ∷ fs) es r2) (adds s u v)

    -- The entry of an item says its path, hash and size.
    entry-triple :
        (x : Item) (e : ArtifactEntry)
        → IsPosix x
        → checked_entry lib.strip (entry_of lib revision producer x) ≡ ok e
        → triple e ≡ (x.relative, (x.sha256, x.size))
    entry-triple x e posix q = ap triple (entry-kept (entry_of lib revision producer x) e posix q)

    readback-Enters :
        {es : List ArtifactEntry} (x : Item) (xs : List Item)
        → IsPosix x
        → is_leftover x ≡ false
        → is_link x.kind ≡ false
        → ((fs : List ArtifactEntry)
            → inventory lib revision producer xs ≡ ok fs
            → readback lib xs ≡ ok (map triple fs))
        → Enters x xs es
        → readback lib (x ∷ xs) ≡ ok (map triple es)
    unfolding readback
    readback-Enters x xs posix n a rest (skips {es = es} s r) =
        let u : is_unread x ≡ true = ground (arith, n, s) in rw (a, u, rest es r) refl
    readback-Enters x xs posix n a rest (adds {e = e} {es = es} s u r) =
        let v : is_unread x ≡ false = ground (arith, s) in
        rw (a, v, rest es r) (ap (λ z. ok (z ∷ map triple es)) (sym (entry-triple x e posix u)))

    -- Without leftovers, the readback observes the inventory, entry by entry.
    pub readback-inventory :
        (xs : List Item) (es : List ArtifactEntry)
        → All IsPosix xs
        → any is_leftover xs ≡ false
        → inventory lib revision producer xs ≡ ok es
        → readback lib xs ≡ ok (map triple es)
    unfolding readback inventory
    readback-inventory [] es h n q = ap (λ z. ok (map triple z)) (ok_inj [] es q)
    readback-inventory (x ∷ xs) es (posix, h) n q =
        let (a, s) = inventory-Enters x xs es q in
        readback-Enters x xs posix (ground (arith, n)) a
          (λ fs r. readback-inventory xs fs h (ground (arith, n)) r) s

    named-Enters :
        (x : Item) (xs : List Item) (es : List ArtifactEntry) (p : String) (o : String × ℕ)
        → IsPosix x
        → Enters x xs es
        → promised es p ≡ some o
        → ((fs : List ArtifactEntry)
            → inventory lib revision producer xs ≡ ok fs
            → promised fs p ≡ some o
            → ends_with ".part" (name_of p) ≡ false)
        → ends_with ".part" (name_of p) ≡ false
    unfolding observed_at
    named-Enters x xs es p o posix (skips s r) e rest = rest es r e
    named-Enters x xs _ p o posix (adds {e = d} {es = es} s u r) e rest =
        elim (Bool-cases (d.relative_path == p)) [
          | inl k ↦
              subst (λ z. ends_with ".part" (name_of z) ≡ false)
                (sym (ap (λ t. t.0) (entry-triple x d posix u)) ∙ (eq_iff d.relative_path p).0 k)
                (ground (arith, s))
          | inr k ↦ rest es r (rw (k) at e)
        ]

    -- No entry of an inventory has the name of a leftover.
    pub promised-named :
        (xs : List Item) (es : List ArtifactEntry) (p : String) (o : String × ℕ)
        → All IsPosix xs
        → inventory lib revision producer xs ≡ ok es
        → promised es p ≡ some o
        → ends_with ".part" (name_of p) ≡ false
    unfolding inventory observed_at
    promised-named [] es p o h q e =
        absurd (cc (subst (λ z. promised z p ≡ some o) (sym (ok_inj [] es q)) e))
    promised-named (x ∷ xs) es p o (posix, h) q e =
        named-Enters x xs es p o posix (inventory-Enters x xs es q).1 e
          (λ fs r k. promised-named xs fs p o h r k)

  -- Something is observed at a path with the name of a leftover.
  abbrev pub Leftover : Inventory → Type 0
  Leftover i =
      (p : String) × (o : String × ℕ) × (observed_at i p ≡ some o)
      × (ends_with ".part" (name_of p) ≡ true)

  cons-Leftover : (x : String) (o : String × ℕ) (i : Inventory) → Leftover i → Leftover ((x, o) ∷ i)
  unfolding observed_at
  cons-Leftover x o i (p, u, e, h) = elim (Bool-cases (x == p)) [
    | inl k ↦ (p, o, rw (k) refl, h)
    | inr k ↦ (p, u, rw (k) e, h)
  ]

  head-Leftover :
      (x : String) (o : String × ℕ) (i : Inventory)
      → ends_with ".part" (name_of x) ≡ true
      → Leftover ((x, o) ∷ i)
  unfolding observed_at
  head-Leftover x o i h = (x, o, rw (eq_refl x) refl, h)

  -- A readback observes a leftover if there is one.
  pub readback-Leftover :
      (xs : List Item) (i : Inventory)
      → readback lib xs ≡ ok i
      → any is_leftover xs ≡ true
      → Leftover i
  unfolding readback
  readback-Leftover [] i q h = absurd (cc)
  readback-Leftover (x ∷ xs) i q h =
      let (_, q1) = raise_ok (is_link x.kind) "ARTIFACT_SYMLINK_REJECTED" _ i q in
      elim (Bool-cases (is_unread x)) [
        | inl u ↦ readback-Leftover xs i (rw (u) at q1) (ground (arith, u, h))
        | inr u ↦
            let (j, r, e) = bind_ok (readback lib xs) _ i (rw (u) at q1) in
            subst Leftover (ok_inj ((x.relative, (x.sha256, x.size)) ∷ j) i e)
              (elim (Bool-cases (ends_with ".part" (name_of x.relative))) [
                | inl k ↦ head-Leftover x.relative (x.sha256, x.size) j k
                | inr k ↦
                    cons-Leftover x.relative (x.sha256, x.size) j
                      (readback-Leftover xs j r (ground (arith, u, k, h)))
              ])
      ]
