-- ===== src/Transcript/Captions/Tails.antt =====
-- The words of a segment that overlap are the last ones of the text so far.
use skeleton_media.Base.{
  append_nil, ℕ, zero, suc, ◌-◌, ◌≤◌, ◌≡◌, refl, sym, ◌∙◌, ap, subst, inl, inr, String, true, ◌&&◌,
  List, [], ◌∷◌, ◌++◌, map, string_eq, nat_eq, ltb, leb, min, length, take, drop, All, Bool-cases,
  arith, eq_iff,
}
use skeleton_media.Transcript.Segments.{TextLibrary, TranscriptSegment}
use skeleton_media.Transcript.Captions.{
  same_words, overlaps, overlap_from, Words, overlap_token, Rolling, is_adjacent, comparable_of,
  kept_tail, overlap_of, cut_tail, rolled,
}

-- The list ends with these words.
abbrev pub EndsWith : List String → List String → Type 0
EndsWith end xs = (before : List String) × (xs ≡ before ++ end)

same_words-eq : (xs ys : List String) → same_words xs ys ≡ true → xs ≡ ys
same_words-eq [] [] e = refl
same_words-eq [] (y ∷ ys) e = absurd (cc)
same_words-eq (x ∷ xs) [] e = absurd (cc)
same_words-eq (x ∷ xs) (y ∷ ys) e =
    let a = (eq_iff x y).0 (ground (arith, e)) in
    let b = same_words-eq xs ys (ground (arith, e)) in cc (a, b)

append_assoc : (xs ys zs : List String) → (xs ++ ys) ++ zs ≡ xs ++ (ys ++ zs)
append_assoc [] ys zs = refl
append_assoc (x ∷ xs) ys zs = ap (λ l. x ∷ l) (append_assoc xs ys zs)

take-drop : (n : ℕ) (xs : List String) → take n xs ++ drop n xs ≡ xs
take-drop zero xs = refl
take-drop (suc n) [] = refl
take-drop (suc n) (x ∷ xs) = ap (λ l. x ∷ l) (take-drop n xs)

drop-EndsWith : (n : ℕ) (xs : List String) → EndsWith (drop n xs) xs
drop-EndsWith n xs = (take n xs, sym (take-drop n xs))

EndsWith-trans : (xs ys zs : List String) → EndsWith xs ys → EndsWith ys zs → EndsWith xs zs
EndsWith-trans xs ys zs (a, p) (b, q) = (b ++ a, q ∙ ap (λ l. b ++ l) p ∙ sym (append_assoc b a xs))

EndsWith-append : (xs ys zs : List String) → EndsWith xs ys → EndsWith (xs ++ zs) (ys ++ zs)
EndsWith-append xs ys zs (a, p) = (a, ap (λ l. l ++ zs) p ∙ append_assoc a xs zs)

-- The words that overlap are the last ones of the tail.
overlap_from-EndsWith :
    (n : ℕ) (comparable tail : List String)
    → EndsWith (take (overlap_from n comparable tail) comparable) tail
unfolding overlap_from
overlap_from-EndsWith zero comparable tail = (tail, sym (append_nil tail))
overlap_from-EndsWith (suc n) comparable tail =
    elim (Bool-cases (leb 2 (suc n) && overlaps (suc n) comparable tail)) [
      | inl e ↦ rw (e) (
          subst (λ l. EndsWith l tail)
            (same_words-eq _ (take (suc n) comparable) (ground (arith, e)))
            (drop-EndsWith (length tail - suc n) tail))
      | inr e ↦ rw (e) (overlap_from-EndsWith n comparable tail)
    ]

length-map : (f : String → String) (xs : List String) → length (map f xs) ≡ length xs
length-map f [] = refl
length-map f (x ∷ xs) = omega (arith, length-map f xs)

drop-all : (n : ℕ) (xs : List String) → length xs ≤ n → drop n xs ≡ []
drop-all zero [] h = refl
drop-all zero (x ∷ xs) h = absurd (omega (arith, h))
drop-all (suc n) [] h = refl
drop-all (suc n) (x ∷ xs) h = drop-all n xs (omega (arith, h))

module _ (lib : TextLibrary) (w : Words) (gap lookback : ℕ) where
  -- The tokens of the words of a segment that are not removed.
  abbrev pub spoken : Rolling → TranscriptSegment → List String
  spoken r s = drop (overlap_of lib w gap lookback r s) (comparable_of lib w gap lookback s)

  -- The segments, each with the tokens that the output has after it, from a state and an output so far.
  abbrev pub heard :
      Rolling → List String → List TranscriptSegment → List (TranscriptSegment × List String)
  heard r output [] = []
  heard r output (s ∷ ss) =
      (s, output ++ spoken r s) ∷ heard (rolled lib w gap lookback r s) (output ++ spoken r s) ss

  overlap_of-EndsWith :
      (r : Rolling) (s : TranscriptSegment) (output : List String)
      → EndsWith r.tail output
      → EndsWith
          (take (overlap_of lib w gap lookback r s) (comparable_of lib w gap lookback s))
          output
  unfolding overlap_of
  overlap_of-EndsWith r s output h =
      elim (Bool-cases (
        is_adjacent lib w gap lookback r.previous s
        && leb 2 (length (w.split s.text))
        && leb 2 (length r.tail))) [
          | inl e ↦ rw (e) (
              EndsWith-trans
                (take
                  (overlap_from
                    (min (min (length (comparable_of lib w gap lookback s)) (length r.tail))
                      lookback)
                    (comparable_of lib w gap lookback s) r.tail)
                  (comparable_of lib w gap lookback s))
                r.tail output
                (overlap_from-EndsWith
                  (min (min (length (comparable_of lib w gap lookback s)) (length r.tail)) lookback)
                  (comparable_of lib w gap lookback s) r.tail)
                h)
          | inr e ↦ rw (e) (output, sym (append_nil output))
        ]

  spoken-EndsWith :
      (r : Rolling) (s : TranscriptSegment) (output : List String)
      → EndsWith r.tail output
      → EndsWith (comparable_of lib w gap lookback s) (output ++ spoken r s)
  spoken-EndsWith r s output h =
      let o = overlap_of lib w gap lookback r s in
      let c = comparable_of lib w gap lookback s in
      subst (λ l. EndsWith l (output ++ drop o c)) (take-drop o c)
        (EndsWith-append (take o c) output (drop o c) (overlap_of-EndsWith r s output h))

  kept_tail-EndsWith :
      (r : Rolling) (s : TranscriptSegment) (output : List String)
      → EndsWith r.tail output
      → EndsWith (kept_tail lib w gap lookback r s) output
  kept_tail-EndsWith r s output h =
      elim (Bool-cases (is_adjacent lib w gap lookback r.previous s)) [
        | inl e ↦ rw (e) h
        | inr e ↦ rw (e) (output, sym (append_nil output))
      ]

  cut_tail-EndsWith : (xs : List String) → EndsWith (cut_tail lib w gap lookback xs) xs
  cut_tail-EndsWith xs = elim (Bool-cases (ltb lookback (length xs))) [
    | inl e ↦ rw (e) (drop-EndsWith (length xs - lookback) xs)
    | inr e ↦ rw (e) ([], refl)
  ]

  rolled-EndsWith :
      (r : Rolling) (s : TranscriptSegment) (output : List String)
      → EndsWith r.tail output
      → EndsWith (rolled lib w gap lookback r s).tail (output ++ spoken r s)
  unfolding rolled
  rolled-EndsWith r s output h =
      let o = overlap_of lib w gap lookback r s in
      let c = comparable_of lib w gap lookback s in
      let k = kept_tail lib w gap lookback r s in
      elim (Bool-cases (ltb o (length (w.split s.text)))) [
        | inl e ↦ rw (e) (
            EndsWith-trans (cut_tail lib w gap lookback (k ++ drop o c)) (k ++ drop o c)
              (output ++ drop o c) (cut_tail-EndsWith (k ++ drop o c))
              (EndsWith-append k output (drop o c) (kept_tail-EndsWith r s output h)))
        | inr e ↦
            rw
              (
                e,
                drop-all o c (
                    ground
                      (arith, e, length-map (overlap_token lib w gap lookback) (w.split s.text))),
                append_nil output,
              )
              (kept_tail-EndsWith r s output h)
      ]

  pub heard-EndsWith :
      (r : Rolling) (output : List String) (ss : List TranscriptSegment)
      → EndsWith r.tail output
      → All (λ h. EndsWith (comparable_of lib w gap lookback h.0) h.1) (heard r output ss)
  heard-EndsWith r output [] h = tt
  heard-EndsWith r output (s ∷ ss) h = (
    spoken-EndsWith r s output h,
    heard-EndsWith (rolled lib w gap lookback r s) (output ++ spoken r s) ss
        (rolled-EndsWith r s output h),
  )
