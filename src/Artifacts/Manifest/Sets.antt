-- ===== src/Artifacts/Manifest/Sets.antt =====
-- Sets of paths, and what an inventory observes.
use skeleton_media.Base.{
  ℕ, ◌≤◌, ◌≡◌, refl, sym, ◌∙◌, subst, ◌↔◌, inl, inr, String, true, false, Option, none, some, List,
  [], ◌∷◌, map, length, ◌==◌, string_eq, nat_eq, Bool-cases, arith, eq_iff, eq_refl,
}
use skeleton_media.Artifacts.Manifest.{
  ArtifactEntry, Inventory, has, set_of, minus, paths, all_differ, observed_at,
}

pub has-set_of : (x : String) (ys : List String) → has x (set_of ys) ≡ has x ys
unfolding set_of
has-set_of x [] = refl
has-set_of x (y ∷ ys) = elim (Bool-cases (has y ys)) [
  | inl h ↦ elim (Bool-cases (y == x)) [
    | inl q ↦ rw (h, q, has-set_of x ys) (subst (λ z. has z ys ≡ true) ((eq_iff y x).0 q) h)
    | inr q ↦ rw (h, q, has-set_of x ys) refl
  ]
  | inr h ↦ rw (h, has-set_of x ys) refl
]

-- `xs - ys` is empty where every member of `xs` is one of `ys`.
pub minus-none :
    (xs ys : List String) (x : String)
    → length (minus xs ys) ≡ 0
    → has x xs ≡ true
    → has x ys ≡ true
unfolding minus
minus-none [] ys x e h = absurd (cc)
minus-none (z ∷ xs) ys x e h = elim (Bool-cases (has z ys)) [
  | inl q ↦ elim (Bool-cases (z == x)) [
    | inl s ↦ subst (λ w. has w ys ≡ true) ((eq_iff z x).0 s) q
    | inr s ↦ minus-none xs ys x (rw (q, length) at e) (rw (s) at h)
  ]
  | inr q ↦ absurd (ground (arith, q))
]

pub none-minus :
    (xs ys : List String)
    → ((x : String) → has x xs ≡ true → has x ys ≡ true)
    → length (minus xs ys) ≡ 0
unfolding minus
none-minus [] ys h = refl
none-minus (z ∷ xs) ys h =
    rw (h z (rw (eq_refl z) refl), length)
      (none-minus xs ys
        (λ x q. h x (elim (Bool-cases (z == x)) [ inl s ↦ rw (s) refl | inr s ↦ rw (s) q ])))

set_of-length : (xs : List String) → length (set_of xs) ≤ length xs
unfolding set_of
set_of-length [] = omega arith
set_of-length (x ∷ xs) = elim (Bool-cases (has x xs)) [
  | inl h ↦ rw (h) (omega (arith, set_of-length xs))
  | inr h ↦ rw (h) (omega (arith, set_of-length xs))
]

pub differ-cons :
    (x : String) (xs : List String)
    → all_differ (x ∷ xs) ≡ true
    → (has x xs ≡ false) × (all_differ xs ≡ true)
unfolding all_differ set_of
differ-cons x xs e = elim (Bool-cases (has x xs)) [
  | inl h ↦ absurd (ground (arith, h, set_of-length xs))
  | inr h ↦ (h, ground (arith, h))
]

-- What the entries promise for a path.
abbrev pub promised : List ArtifactEntry → String → Option (String × ℕ)
promised es p = observed_at (map (λ e. (e.relative_path, (e.sha256, e.byte_size))) es) p

pub promised-none :
    (es : List ArtifactEntry) (p : String) → promised es p ≡ none → has p (paths es) ≡ false
unfolding observed_at
promised-none [] p e = refl
promised-none (f ∷ es) p e = elim (Bool-cases (f.relative_path == p)) [
  | inl q ↦ absurd (ground (arith, q))
  | inr q ↦ rw (q) (promised-none es p (rw (q) at e))
]

-- An inventory has a path exactly when it observes something there.
pub observed-has :
    (xs : Inventory) (p : String) (o : String × ℕ)
    → observed_at xs p ≡ some o
    → has p (map (λ x. x.0) xs) ≡ true
unfolding observed_at
observed-has (x ∷ xs) p o e = elim (Bool-cases (x.0 == p)) [
  | inl q ↦ rw (q) refl
  | inr q ↦ rw (q) (observed-has xs p o (rw (q) at e))
]
observed-has [] p o e = absurd (cc)

pub has-observed :
    (xs : Inventory) (p : String)
    → has p (map (λ x. x.0) xs) ≡ true
    → (o : String × ℕ) × (observed_at xs p ≡ some o)
unfolding observed_at
has-observed [] p h = absurd (cc)
has-observed (x ∷ xs) p h = elim (Bool-cases (x.0 == p)) [
  | inl q ↦ (x.1, rw (q) refl)
  | inr q ↦ rw (q) (has-observed xs p (rw (q) at h))
]

-- One set is a part of another exactly when their difference is empty.
pub subset :
    (xs ys : List String)
    → (length (minus (set_of xs) (set_of ys)) ≡ 0)
      ↔ ((x : String) → has x xs ≡ true → has x ys ≡ true)
subset xs ys = (
  λ e x h. sym (has-set_of x ys) ∙ minus-none (set_of xs) (set_of ys) x e (has-set_of x xs ∙ h),
  λ h.
      none-minus (set_of xs) (set_of ys) (λ x q. has-set_of x ys ∙ h x (sym (has-set_of x xs) ∙ q)),
)
