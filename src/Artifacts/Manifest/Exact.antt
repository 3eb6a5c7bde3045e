-- ===== src/Artifacts/Manifest/Exact.antt =====
-- A manifest is verified exactly when the disk holds what it says.
use skeleton_media.Base.{
  ℕ, ◌≡◌, refl, sym, ◌∙◌, subst, ◌↔◌, inl, inr, String, true, false, not, ◌||◌, some, List, [], ◌∷◌,
  map, length, ◌==◌, string_eq, nat_eq, All, ok, Bool-cases, Option-cases, arith, eq_iff, eq_refl,
}
use skeleton_media.Values.Fields.Again.{raise_ok}
use skeleton_media.Artifacts.Manifest.{
  ArtifactEntry, ArtifactManifest, Inventory, has, set_of, minus, paths, ids, all_differ,
  checked_manifest, observed_at, is_mismatch, mismatched, verify_inventory,
}
use skeleton_media.Artifacts.Manifest.Sets.{
  promised, promised-none, differ-cons, observed-has, has-observed, subset,
}

-- The inventory observes what an entry says.
abbrev pub Agrees : Inventory → ArtifactEntry → Type 0
Agrees inv e = observed_at inv e.relative_path ≡ some (e.sha256, e.byte_size)

mismatch-Agrees :
    (inv : Inventory) (e : ArtifactEntry) (o : String × ℕ)
    → observed_at inv e.relative_path ≡ some o
    → is_mismatch (some o) e ≡ false
    → Agrees inv e
mismatch-Agrees inv e (h, n) q f =
    let a = (eq_iff h e.sha256).0 (ground (arith, f)) in
    let b : n ≡ e.byte_size = ground (arith, f) in cc (q, a, b)

mismatched-Agrees :
    (inv : Inventory) (es : List ArtifactEntry)
    → ((p : String) → has p (paths es) ≡ true → has p (map (λ x. x.0) inv) ≡ true)
    → mismatched inv es ≡ 0
    → All (Agrees inv) es
unfolding mismatched
mismatched-Agrees inv [] h e = tt
mismatched-Agrees inv (f ∷ es) h e =
    let (o, q) =
      has-observed inv f.relative_path (h f.relative_path (rw (eq_refl f.relative_path) refl)) in
    elim (Bool-cases (is_mismatch (some o) f)) [
      | inl m ↦ absurd (ground (arith, q, m))
      | inr m ↦ (
        mismatch-Agrees inv f o q m,
        mismatched-Agrees inv es
            (λ p k.
              h p (elim (Bool-cases (f.relative_path == p)) [
                | inl s ↦ rw (s) refl
                | inr s ↦ rw (s) k
              ]))
            (rw (q, m) at e),
      )
    ]

Agrees-mismatched :
    (inv : Inventory) (es : List ArtifactEntry) → All (Agrees inv) es → mismatched inv es ≡ 0
unfolding mismatched
Agrees-mismatched inv [] h = refl
Agrees-mismatched inv (e ∷ es) (a, h) =
    rw (a, eq_refl e.sha256, nat_refl e.byte_size) (Agrees-mismatched inv es h)
  where
    nat_refl : (n : ℕ) → (n == n) ≡ true
    nat_refl n = ground arith

Agrees-promised :
    (inv : Inventory) (es : List ArtifactEntry) (p : String) (o : String × ℕ)
    → All (Agrees inv) es
    → promised es p ≡ some o
    → observed_at inv p ≡ some o
unfolding observed_at
Agrees-promised inv [] p o h e = absurd (cc)
Agrees-promised inv (f ∷ es) p o (a, h) e = elim (Bool-cases (f.relative_path == p)) [
  | inl q ↦
      subst (λ z. observed_at inv z ≡ some o) ((eq_iff f.relative_path p).0 q) (a ∙ (rw (q) at e))
  | inr q ↦ Agrees-promised inv es p o h (rw (q) at e)
]

-- With distinct paths, each entry is what the manifest promises for its path.
skip-promised :
    (f : ArtifactEntry) (es fs : List ArtifactEntry)
    → has f.relative_path (paths es) ≡ false
    → All (λ e. promised fs e.relative_path ≡ some (e.sha256, e.byte_size)) es
    → All (λ e. promised (f ∷ fs) e.relative_path ≡ some (e.sha256, e.byte_size)) es
unfolding observed_at
skip-promised f [] fs n h = tt
skip-promised f (e ∷ es) fs n (a, h) = elim (Bool-cases (f.relative_path == e.relative_path)) [
  | inl q ↦
      absurd (
        ground (arith, n, q, (eq_iff f.relative_path e.relative_path).0 q, eq_refl e.relative_path))
  | inr q ↦ (rw (q) a, skip-promised f es fs (ground (arith, n)) h)
]

promised-own :
    (es : List ArtifactEntry)
    → all_differ (paths es) ≡ true
    → All (λ e. promised es e.relative_path ≡ some (e.sha256, e.byte_size)) es
unfolding observed_at
promised-own [] d = tt
promised-own (e ∷ es) d =
    let (n, r) = differ-cons e.relative_path (paths es) d in
    (rw (eq_refl e.relative_path) refl, skip-promised e es es n (promised-own es r))

-- The paths of entries that the inventory agrees with are observed.
promised-has :
    (es : List ArtifactEntry) (p : String) (o : String × ℕ)
    → promised es p ≡ some o
    → has p (paths es) ≡ true
unfolding observed_at
promised-has [] p o e = absurd (cc)
promised-has (f ∷ es) p o e = elim (Bool-cases (f.relative_path == p)) [
  | inl q ↦ rw (q) refl
  | inr q ↦ rw (q) (promised-has es p o (rw (q) at e))
]

has-promised :
    (es : List ArtifactEntry) (p : String)
    → has p (paths es) ≡ true
    → (o : String × ℕ) × (promised es p ≡ some o)
has-promised es p h = elim (Option-cases (promised es p)) [
  | inl n ↦ absurd (cc (h, promised-none es p n))
  | inr r ↦ r
]

-- The three tests of `verify_inventory`.
verified-parts :
    (m : ArtifactManifest) (inv : Inventory)
    → ((verify_inventory m inv).verified ≡ true) ↔ (
        (length (minus (set_of (paths m.entries)) (set_of (map (λ x. x.0) inv))) ≡ 0)
        × (length (minus (set_of (map (λ x. x.0) inv)) (set_of (paths m.entries))) ≡ 0)
        × (mismatched inv m.entries ≡ 0))
unfolding verify_inventory
verified-parts m inv = (
  λ e. (ground (arith, e), ground (arith, e), ground (arith, e)),
  λ (a, b, c). ground (arith, a, b, c),
)

checked-differ :
    (m n : ArtifactManifest) → checked_manifest m ≡ ok n → all_differ (paths m.entries) ≡ true
unfolding checked_manifest
checked-differ m n e =
    let (a, _) =
      raise_ok (not (all_differ (ids m.entries)) || not (all_differ (paths m.entries)))
        "DUPLICATE_ARTIFACT_IDENTITY" (ok m) n e in
    ground (arith, a)

-- A manifest that its constructor accepted is verified against an inventory exactly when the inventory
-- has, at every path, the hash and the size that the manifest's entry of that path says, and nothing
-- where the manifest has no entry.
pub verify_inventory-exact :
    (m n : ArtifactManifest) (inv : Inventory)
    → checked_manifest m ≡ ok n
    → ((verify_inventory m inv).verified ≡ true)
      ↔ ((p : String) → observed_at inv p ≡ promised m.entries p)
verify_inventory-exact m n inv accepted = (to, from)
  where
    own : All (λ e. promised m.entries e.relative_path ≡ some (e.sha256, e.byte_size)) m.entries
    own = promised-own m.entries (checked-differ m n accepted)

    seen : List String
    seen = map (λ x. x.0) inv

    to :
        (verify_inventory m inv).verified ≡ true
        → (p : String) → observed_at inv p ≡ promised m.entries p
    to e p =
        let (missing, unexpected, wrong) = (verified-parts m inv).0 e in
        let agrees =
          mismatched-Agrees inv m.entries ((subset (paths m.entries) seen).0 missing) wrong in
        elim (Option-cases (promised m.entries p)) [
          | inr (o, q) ↦ Agrees-promised inv m.entries p o agrees q ∙ sym q
          | inl q ↦ elim (Option-cases (observed_at inv p)) [
            | inl r ↦ r ∙ sym q
            | inr (o, r) ↦ absurd (
                cc (
                  promised-none m.entries p q,
                  (subset seen (paths m.entries)).0 unexpected p (observed-has inv p o r),
                ))
          ]
        ]

    from :
        ((p : String) → observed_at inv p ≡ promised m.entries p)
        → (verify_inventory m inv).verified ≡ true
    from h = (verified-parts m inv).1 (
      (subset (paths m.entries) seen).1
          (λ p k. let (o, q) = has-promised m.entries p k in observed-has inv p o (h p ∙ q)),
      (subset seen (paths m.entries)).1
          (λ p k. let (o, q) = has-observed inv p k in promised-has m.entries p o (sym (h p) ∙ q)),
      Agrees-mismatched inv m.entries (follows m.entries own),
    )
      where
        follows :
            (es : List ArtifactEntry)
            → All (λ e. promised m.entries e.relative_path ≡ some (e.sha256, e.byte_size)) es
            → All (Agrees inv) es
        follows [] k = tt
        follows (e ∷ es) (a, k) = (h e.relative_path ∙ a, follows es k)
