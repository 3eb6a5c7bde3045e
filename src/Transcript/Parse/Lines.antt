-- ===== src/Transcript/Parse/Lines.antt =====
-- The loop of `parse_vtt` ends, and reads the lines one after the other.
use skeleton_media.Base.{
  append_nil, ℕ, zero, suc, ◌+◌, ◌-◌, ◌<◌, ◌≡◌, refl, sym, ◌∙◌, ap, inl, inr, String, none, some,
  List, [], ◌∷◌, ◌++◌, ◌==◌, string_eq, length, drop, if◌then◌else◌, Result, ok, err, crash, ◌>>=◌,
  Bool-cases, Option-cases, arith,
}
use skeleton_media.Transcript.Segments.{TextLibrary, TranscriptSegment}
use skeleton_media.Transcript.Parse.{
  at_arrow, cue_times, push, cue_lines, line_at, on_some, join_words, lines_of, vtt_loop, parse_vtt,
}

-- Where a reader of lines stands: between cues, or in a cue with its times and its lines so far.
pub data Reader : Type 0 where
  between : Reader
  inside : ℕ × ℕ → List String → Reader

module _ (lib : TextLibrary) (language provider : String) where
  pub scan : Reader → List String → Result (List TranscriptSegment)
  scan between [] = ok []
  scan between (line ∷ lines) = elim (at_arrow (lib.strip line)) [
    | none ↦ scan between lines
    | some raw ↦ (cue_times lib raw >>= λ times. scan (inside times []) lines)
  ]
  scan (inside times said) [] = push lib language provider times (join_words said) (ok [])
  scan (inside times said) (line ∷ lines) =
      if lib.strip line == ""
      then push lib language provider times (join_words said) (scan between lines)
      else scan (inside times (said ++ (line ∷ []))) lines

  append-cons : (xs ys : List String) (y : String) → (xs ++ (y ∷ [])) ++ ys ≡ xs ++ (y ∷ ys)
  append-cons [] ys y = refl
  append-cons (x ∷ xs) ys y = ap (λ z. x ∷ z) (append-cons xs ys y)

  -- A cue is read to its end.
  scan-inside :
      (times : ℕ × ℕ) (said lines : List String)
      → scan (inside times said) lines
        ≡ push lib language provider times
            (join_words (said ++ cue_lines lib lines))
            (scan between (drop (suc (length (cue_lines lib lines))) lines))
  unfolding scan
  scan-inside times said [] = rw (append_nil said) refl
  scan-inside times said (line ∷ lines) = elim (Bool-cases (lib.strip line == "")) [
    | inl e ↦ rw (e, append_nil said) refl
    | inr e ↦ rw (e) (
        scan-inside times (said ++ (line ∷ [])) lines
        ∙ ap
            (λ z.
              push lib language provider times (join_words z)
                (scan between (drop (suc (length (cue_lines lib lines))) lines)))
            (append-cons said (cue_lines lib lines) line))
  ]

  line_at-none : (lines : List String) (i : ℕ) → line_at lines i ≡ none → drop i lines ≡ []
  line_at-none [] zero e = refl
  line_at-none [] (suc i) e = refl
  line_at-none (line ∷ lines) zero e = absurd (cc)
  line_at-none (line ∷ lines) (suc i) e = line_at-none lines i e

  line_at-some :
      (lines : List String) (i : ℕ) (line : String)
      → line_at lines i ≡ some line
      → (drop i lines ≡ line ∷ drop (suc i) lines) × (i < length lines)
  line_at-some [] i line e = absurd (cc)
  line_at-some (l ∷ lines) zero line e =
      (ap (λ o. elim o [ none ↦ [] | some x ↦ x ∷ lines ]) e, omega arith)
  line_at-some (l ∷ lines) (suc i) line e =
      let (a, b) = line_at-some lines i line e in (a, omega (arith, b))

  drop_nil : (n : ℕ) → drop {A = String} n [] ≡ []
  drop_nil zero = refl
  drop_nil (suc n) = refl

  drop-drop : (i j : ℕ) (lines : List String) → drop i (drop j lines) ≡ drop (j + i) lines
  drop-drop i zero lines = ap (λ n. drop n lines) {x = i} (omega arith)
  drop-drop i (suc j) [] = drop_nil i ∙ sym (drop_nil (suc j + i))
  drop-drop i (suc j) (line ∷ lines) =
      drop-drop i j lines ∙ ap (λ n. drop n (line ∷ lines)) {x = suc (j + i)} (omega arith)

  -- A round that finds a cue.
  vtt_loop-cue :
      (fuel : ℕ) (lines : List String) (i : ℕ) (times : ℕ × ℕ)
      → vtt_loop lib language provider fuel lines
          (suc (suc i + length (cue_lines lib (drop (suc i) lines))))
        ≡ some
            (scan between (drop (suc (suc i + length (cue_lines lib (drop (suc i) lines)))) lines))
      → on_some
          (push lib language provider times (join_words (cue_lines lib (drop (suc i) lines))))
          (vtt_loop lib language provider fuel lines
            (suc (suc i + length (cue_lines lib (drop (suc i) lines)))))
        ≡ some (scan (inside times []) (drop (suc i) lines))
  vtt_loop-cue fuel lines i times e =
      let said = cue_lines lib (drop (suc i) lines) in
      ap (on_some (push lib language provider times (join_words said))) e
      ∙ ap (λ z. some (push lib language provider times (join_words said) (scan between z)))
          (ap (λ n. drop n lines) {x = suc (suc i + length said)} (omega arith)
            ∙ sym (drop-drop (suc (length said)) (suc i) lines))
      ∙ ap (λ z. some z) (sym (scan-inside times [] (drop (suc i) lines)))

  -- A round that finds an arrow.
  vtt_loop-times :
      (fuel : ℕ) (lines : List String) (i : ℕ) (m : Result (ℕ × ℕ))
      → vtt_loop lib language provider fuel lines
          (suc (suc i + length (cue_lines lib (drop (suc i) lines))))
        ≡ some
            (scan between (drop (suc (suc i + length (cue_lines lib (drop (suc i) lines)))) lines))
      → elim m [
        | err e ↦ some (err e)
        | crash ↦ some crash
        | ok times ↦
            on_some
              (push lib language provider times (join_words (cue_lines lib (drop (suc i) lines))))
              (vtt_loop lib language provider fuel lines
                (suc (suc i + length (cue_lines lib (drop (suc i) lines)))))
      ]
        ≡ some (m >>= λ times. scan (inside times []) (drop (suc i) lines))
  vtt_loop-times fuel lines i (ok times) e = vtt_loop-cue fuel lines i times e
  vtt_loop-times fuel lines i (err c) e = refl
  vtt_loop-times fuel lines i crash e = refl

  -- More fuel than there are lines from the index on is enough.
  pub vtt_loop-scan :
      (fuel : ℕ) (lines : List String) (i : ℕ)
      → length lines - i < fuel
      → vtt_loop lib language provider fuel lines i ≡ some (scan between (drop i lines))
  unfolding vtt_loop scan
  vtt_loop-scan zero lines i h = absurd (omega (arith, h))
  vtt_loop-scan (suc fuel) lines i h = elim (Option-cases (line_at lines i)) [
    | inl n ↦ rw (vtt_loop, n, line_at-none lines i n) refl
    | inr (line, q) ↦
        let (d, b) = line_at-some lines i line q in
        elim (Option-cases (at_arrow (lib.strip line))) [
          | inl n ↦
              rw (vtt_loop, q, d, n, scan) (vtt_loop-scan fuel lines (suc i) (omega (arith, h, b)))
          | inr (raw, a) ↦
              rw (vtt_loop, q, d, a, scan)
                (vtt_loop-times fuel lines i (cue_times lib raw) (
                  vtt_loop-scan fuel lines
                    (suc (suc i + length (cue_lines lib (drop (suc i) lines))))
                    (omega (arith, h, b))))
        ]
  ]

  -- parse_vtt ends on every text, and returns what a reader returns that takes the lines one after the
  -- other: it looks for an arrow between cues, and in a cue collects the lines up to a blank one.
  pub parse_vtt-scan :
      (content : String)
      → parse_vtt lib language provider content ≡ some (scan between (lines_of content))
  unfolding parse_vtt
  parse_vtt-scan content =
      vtt_loop-scan (suc (length (lines_of content))) (lines_of content) 0 (omega arith)
