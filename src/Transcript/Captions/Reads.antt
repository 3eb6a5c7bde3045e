-- ===== src/Transcript/Captions/Reads.antt =====
-- What compact_rolling_captions leaves of the words of a caption.
use skeleton_media.Base.{
  ℕ, ◌≡◌, refl, sym, ◌∙◌, ap, subst, zero, suc, ◌++◌, inl, inr, String, ◌||◌, none, List, [], ◌∷◌,
  map, ◌==◌, string_eq, nat_eq, ltb, length, drop, All, if◌then◌else◌, Result, ok, Bool-cases,
}
use Prim.Native.String.{◌++◌ as append}
use skeleton_media.Values.Fields.Again.{raise_ok, bind_ok, ok_inj}
use skeleton_media.Transcript.Segments.{
  TextLibrary, TranscriptSegment, segment, normalize_text, is_longer, is_bad_confidence,
}
use skeleton_media.Transcript.Parse.{join_words}
use skeleton_media.Transcript.Captions.{
  Words, overlap_token, Rolling, comparable_of, overlap_of, rolled, emit, compact_loop,
}
use skeleton_media.Transcript.Captions.Tails.{EndsWith, heard, heard-EndsWith}

map-append : (f : String → String) (xs ys : List String) → map f (xs ++ ys) ≡ map f xs ++ map f ys
map-append f [] ys = refl
map-append f (x ∷ xs) ys = ap (λ l. f x ∷ l) (map-append f xs ys)

map-drop : (f : String → String) (n : ℕ) (xs : List String) → map f (drop n xs) ≡ drop n (map f xs)
map-drop f zero xs = refl
map-drop f (suc n) [] = refl
map-drop f (suc n) (x ∷ xs) = map-drop f n xs

cons_eq : (x y : String) (xs ys : List String) → x ≡ y → xs ≡ ys → x ∷ xs ≡ y ∷ ys
cons_eq x y xs ys p q = cc (p, q)

module _ (lib : TextLibrary) (w : Words) (gap lookback : ℕ) where
  -- The words that are left of the segments, of each that has some left.
  abbrev pub written : Rolling → List TranscriptSegment → List (List String)
  written r [] = []
  written r (s ∷ ss) =
      let rest = written (rolled lib w gap lookback r s) ss in
      if ltb (overlap_of lib w gap lookback r s) (length (w.split s.text))
      then drop (overlap_of lib w gap lookback r s) (w.split s.text) ∷ rest
      else rest

  segment-text :
      (s t : TranscriptSegment) → segment lib s ≡ ok t → t.text ≡ normalize_text lib s.text
  unfolding segment
  segment-text s t e =
      let cleaned = normalize_text lib s.text in
      let (_, e1) =
        raise_ok (ltb s.end_seconds s.start_seconds) "TRANSCRIPT_TIMESTAMP_INVALID" _ t e in
      let (_, e2) = raise_ok (cleaned == "") "TRANSCRIPT_TEXT_EMPTY" _ t e1 in
      let (_, e3) = raise_ok (is_longer 20000 cleaned) "TRANSCRIPT_SEGMENT_TOO_LARGE" _ t e2 in
      let (_, e4) =
        raise_ok (s.language == "" || is_longer 32 s.language) "TRANSCRIPT_LANGUAGE_INVALID" _ t
          e3 in
      let (_, e5) =
        raise_ok (s.provider == "" || is_longer 128 s.provider) "TRANSCRIPT_PROVIDER_INVALID" _ t
          e4 in
      let (_, e6) =
        raise_ok (is_bad_confidence s.confidence) "TRANSCRIPT_CONFIDENCE_INVALID" _ t e5 in
      ap (λ x. x.text) (sym (ok_inj (record s { text = cleaned }) t e6))

  abbrev pub texts : List (List String) → List String
  texts ws = map (λ words. normalize_text lib (join_words words)) ws

  emit-texts :
      (r : Rolling) (s : TranscriptSegment) (rest : Result (List TranscriptSegment))
      (ts : List TranscriptSegment) (said : List (List String))
      → emit lib w gap lookback r s rest ≡ ok ts
      → ((us : List TranscriptSegment) → rest ≡ ok us → map (λ t. t.text) us ≡ texts said)
      → map (λ t. t.text) ts
        ≡ texts (
            if ltb (overlap_of lib w gap lookback r s) (length (w.split s.text))
            then drop (overlap_of lib w gap lookback r s) (w.split s.text) ∷ said
            else said)
  unfolding emit
  emit-texts r s rest ts said e h =
      elim (Bool-cases (ltb (overlap_of lib w gap lookback r s) (length (w.split s.text)))) [
        | inl b ↦
            let kept = record s {
              text = join_words (drop (overlap_of lib w gap lookback r s) (w.split s.text));
              provenance =
                  if overlap_of lib w gap lookback r s == 0
                  then s.provenance
                  else append s.provenance ":rolling_overlap_removed";
            } in
            let (t, made, e1) = bind_ok (segment lib kept) _ ts (rw (b) at e) in
            let (us, made_rest, e2) = bind_ok rest _ ts e1 in
            rw (b) (
              ap (λ l. map (λ x. x.text) l) (sym (ok_inj (t ∷ us) ts e2))
              ∙ cons_eq _ _ _ _ (segment-text kept t made) (h us made_rest))
        | inr b ↦ rw (b) (h ts (rw (b) at e))
      ]

  compact_loop-texts :
      (r : Rolling) (ss ts : List TranscriptSegment)
      → compact_loop lib w gap lookback r ss ≡ ok ts
      → map (λ t. t.text) ts ≡ texts (written r ss)
  unfolding compact_loop
  compact_loop-texts r [] ts e = ap (λ l. map (λ t. t.text) l) (sym (ok_inj [] ts e))
  compact_loop-texts r (s ∷ ss) ts e =
      let after = rolled lib w gap lookback r s in
      emit-texts r s (compact_loop lib w gap lookback after ss) ts (written after ss) e
        (λ us q. compact_loop-texts after ss us q)

  -- The segments, each with the words that the output has after it, from a state and an output so far.
  abbrev pub left :
      Rolling → List String → List TranscriptSegment → List (TranscriptSegment × List String)
  left r output [] = []
  left r output (s ∷ ss) =
      let said = output ++ drop (overlap_of lib w gap lookback r s) (w.split s.text) in
      (s, said) ∷ left (rolled lib w gap lookback r s) said ss

  abbrev pub tokens : List String → List String
  tokens words = map (overlap_token lib w gap lookback) words

  left-EndsWith :
      (r : Rolling) (output : List String) (ss : List TranscriptSegment)
      → All
          (λ h. EndsWith (comparable_of lib w gap lookback h.0) h.1)
          (heard lib w gap lookback r (tokens output) ss)
      → All (λ h. EndsWith (comparable_of lib w gap lookback h.0) (tokens h.1)) (left r output ss)
  left-EndsWith r output [] h = tt
  left-EndsWith r output (s ∷ ss) (a, h) =
      let f = overlap_token lib w gap lookback in
      let o = overlap_of lib w gap lookback r s in
      let same =
        map-append f output (drop o (w.split s.text))
        ∙ ap (λ l. tokens output ++ l) (map-drop f o (w.split s.text)) in
      (
        subst (λ l. EndsWith (comparable_of lib w gap lookback s) l) (sym same) a,
        left-EndsWith (rolled lib w gap lookback r s) (output ++ drop o (w.split s.text)) ss (
            subst
              (λ l.
                All (λ k. EndsWith (comparable_of lib w gap lookback k.0) k.1)
                  (heard lib w gap lookback (rolled lib w gap lookback r s) l ss))
              (sym same) h),
      )

  -- Where compact_rolling_captions returns captions, their texts are the cleaned words that are left of
  -- the segments; and after each segment, the tokens of all words left so far end with the tokens of
  -- all words of that segment, in order, whatever overlap was removed. The token of a word is the
  -- word without what is no word character at its ends, casefolded: a word is removed only where the
  -- same token stands in its place, which may be that of another word, as of "C++" for "C#".
  pub compact_loop-EndsWith :
      (ss ts : List TranscriptSegment)
      → compact_loop lib w gap lookback (record { tail = []; previous = none }) ss ≡ ok ts
      → (map (λ t. t.text) ts ≡ texts (written (record { tail = []; previous = none }) ss))
        × All
            (λ h. EndsWith (comparable_of lib w gap lookback h.0) (tokens h.1))
            (left (record { tail = []; previous = none }) [] ss)
  compact_loop-EndsWith ss ts e = (
    compact_loop-texts (record { tail = []; previous = none }) ss ts e,
    left-EndsWith (record { tail = []; previous = none }) [] ss
        (heard-EndsWith lib w gap lookback (record { tail = []; previous = none }) [] ss
          ([], refl)),
  )
