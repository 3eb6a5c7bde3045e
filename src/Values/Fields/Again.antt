-- ===== src/Values/Fields/Again.antt =====
-- A field that was accepted is accepted again, unchanged.
use skeleton_media.Base.{
  ℕ, ◌≡◌, refl, subst, String, Bool, true, false, not, Option, none, some, List, [], ◌∷◌, ◌==◌,
  string_eq, ltb, length, Result, ok, err, crash, ◌>>=◌, ◌>>◌, raise_if, arith,
}
use skeleton_media.Values.Fields.{
  confidence, nonempty, nonempty_or_none, opaque_id, nonempty_each, string_tuple, is_opaque_id,
  is_longer_than,
}

-- Where a chain of tests ends in a value, its first part does.
pub bind_ok :
    {A B : Type 0} (m : Result A) (f : A → Result B) (b : B)
    → (m >>= f) ≡ ok b
    → (a : A) × (m ≡ ok a) × (f a ≡ ok b)
bind_ok (ok a) f b e = (a, refl, e)
bind_ok (err c) f b e = absurd (cc)
bind_ok crash f b e = absurd (cc)

pub raise_ok :
    {A : Type 0} (t : Bool) (code : String) (m : Result A) (a : A)
    → (raise_if t code >> m) ≡ ok a
    → (t ≡ false) × (m ≡ ok a)
raise_ok true code m a e = absurd (cc)
raise_ok false code m a e = (refl, e)

pub ok_inj : {A : Type 0} (a b : A) → ok a ≡ ok b → a ≡ b
ok_inj a b e = cc

pub confidence-again : (c d : ℕ) → confidence c ≡ ok d → confidence d ≡ ok d
unfolding confidence
confidence-again c d e =
    let (t, f) = raise_ok (ltb 1000 c) "INVALID_CONFIDENCE" (ok c) d e in
    subst (λ x. confidence x ≡ ok x) (ok_inj c d f) (rw t refl)

module _ (strip : String → String) (strip_strip : (s : String) → strip (strip s) ≡ strip s) where
  pub nonempty-again :
      (n : ℕ) (s t : String) → nonempty strip n s ≡ ok t → nonempty strip n t ≡ ok t
  unfolding nonempty
  nonempty-again n s t e =
      let (a, e1) = raise_ok (strip s == "") "INVALID_FIELD" _ t e in
      let (b, e2) = raise_ok (is_longer_than n (strip s)) "FIELD_TOO_LARGE" _ t e1 in
      subst (λ x. nonempty strip n x ≡ ok x) (ok_inj (strip s) t e2) (rw (strip_strip s, a, b) refl)

  pub nonempty_or_none-again :
      (n : ℕ) (s t : Option String)
      → nonempty_or_none strip n s ≡ ok t
      → nonempty_or_none strip n t ≡ ok t
  unfolding nonempty_or_none
  nonempty_or_none-again n none t e =
      subst (λ x. nonempty_or_none strip n x ≡ ok x) (ok_inj none t e) refl
  nonempty_or_none-again n (some s) t e =
      let (u, a, b) = bind_ok (nonempty strip n s) _ t e in
      subst (λ x. nonempty_or_none strip n x ≡ ok x) (ok_inj (some u) t b)
        (rw (nonempty-again n s u a) refl)

  pub opaque_id-again : (s t : String) → opaque_id strip s ≡ ok t → opaque_id strip t ≡ ok t
  unfolding opaque_id
  opaque_id-again s t e =
      let (u, a, b) = bind_ok (nonempty strip 256 s) _ t e in
      let (c, d) = raise_ok (not (is_opaque_id u)) "INVALID_IDENTITY" (ok u) t b in
      subst (λ x. opaque_id strip x ≡ ok x) (ok_inj u t d) (rw (nonempty-again 256 s u a, c) refl)

  nonempty_each-again :
      (ss ts : List String)
      → nonempty_each strip ss ≡ ok ts
      → (nonempty_each strip ts ≡ ok ts) × (length ts ≡ length ss)
  unfolding nonempty_each
  nonempty_each-again [] ts e =
      subst (λ x. (nonempty_each strip x ≡ ok x) × (length x ≡ 0)) (ok_inj [] ts e) (refl, refl)
  nonempty_each-again (s ∷ ss) ts e =
      let (t, a, e1) = bind_ok (nonempty strip 4096 s) _ ts e in
      let (us, b, e2) = bind_ok (nonempty_each strip ss) _ ts e1 in
      let h = nonempty_each-again ss us b in
      subst (λ x. (nonempty_each strip x ≡ ok x) × (length x ≡ length (s ∷ ss)))
        (ok_inj (t ∷ us) ts e2) (rw (nonempty-again 4096 s t a, h.0) refl, omega (arith, h.1))

  pub string_tuple-again :
      (ss ts : List String) → string_tuple strip ss ≡ ok ts → string_tuple strip ts ≡ ok ts
  unfolding string_tuple
  string_tuple-again ss ts e =
      let (a, e1) = raise_ok (ltb 10000 (length ss)) "INVALID_SEQUENCE" _ ts e in
      let h = nonempty_each-again ss ts e1 in rw (h.1, a) h.0
