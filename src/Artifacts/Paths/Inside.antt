-- ===== src/Artifacts/Paths/Inside.antt =====
-- What an accepted path names, seen from the directory that it is relative to.
use skeleton_media.Base.{
  ◌≡◌, refl, sym, ◌∙◌, ap, subst, ◌⊎◌, inl, inr, String, true, false, ◌||◌, List, [], ◌∷◌, any, all,
  select, All, ◌==◌, string_eq, nat_eq, ok, Bool-cases, arith,
}
use Prim.Native.Char.{Char, code}
use Prim.Native.String.{◌++◌}
use text.Mathlib.TextLemmas.{nil-append, cons-append}
use skeleton_media.Value.{codes}
use skeleton_media.Values.Fields.Again.{raise_ok, ok_inj}
use skeleton_media.Artifacts.Paths.{
  prepend, pieces, is_part, parts, join, is_absolute, is_upward, is_unclean,
  validate_relative_artifact_path,
}

-- The text has no slash.
abbrev HasNoSlash : String → Type 0
HasNoSlash s = any (λ c. c == b'/') (codes s) ≡ false

prepend-HasNoSlash :
    (c : Char) (ps : List String)
    → (code c == b'/') ≡ false
    → All HasNoSlash ps
    → All HasNoSlash (prepend c ps)
prepend-HasNoSlash c [] e h = (rw (e) refl, tt)
prepend-HasNoSlash c (p ∷ ps) e (a, h) = (rw (e) a, h)

pieces-HasNoSlash : (s : String) → All HasNoSlash (pieces s)
pieces-HasNoSlash String.[] = (refl, tt)
pieces-HasNoSlash (String.◌∷◌ c s) = elim (Bool-cases (code c == b'/')) [
  | inl e ↦ rw (e) (refl, pieces-HasNoSlash s)
  | inr e ↦ rw (e) (prepend-HasNoSlash c (pieces s) e (pieces-HasNoSlash s))
]

-- The pieces of a piece, a slash and a text.
pieces-append : (p s : String) → HasNoSlash p → pieces (p ++ ("/" ++ s)) ≡ p ∷ pieces s
pieces-append String.[] s h =
    ap pieces (nil-append ("/" ++ s) ∙ cons-append "/" "" s ∙ ap (String.◌∷◌ "/") (nil-append s))
pieces-append (String.◌∷◌ c p) s h =
    let e : (code c == b'/') ≡ false = ground (arith, h) in
    ap pieces (cons-append c p ("/" ++ s)) ∙ rw (e, pieces-append p s (ground (arith, h))) refl

pieces-alone : (p : String) → HasNoSlash p → pieces p ≡ p ∷ []
pieces-alone String.[] h = refl
pieces-alone (String.◌∷◌ c p) h =
    let e : (code c == b'/') ≡ false = ground (arith, h) in
    rw (e, pieces-alone p (ground (arith, h))) refl

select-true :
    (p : String) (ps : List String)
    → is_part p ≡ true
    → select is_part (p ∷ ps) ≡ p ∷ select is_part ps
select-true p ps e = rw (e, select) refl

select-false :
    (p : String) (ps : List String)
    → is_part p ≡ false
    → select is_part (p ∷ ps) ≡ select is_part ps
select-false p ps e = rw (e, select) refl

select-all : (ps : List String) → all is_part ps ≡ true → select is_part ps ≡ ps
select-all [] h = refl
select-all (p ∷ ps) h =
    let e : is_part p ≡ true = ground (arith, h) in
    select-true p ps e ∙ ap (λ z. p ∷ z) (select-all ps (ground (arith, h)))

abbrev IsClean : List String → Type 0
IsClean ps = All HasNoSlash ps × (all is_part ps ≡ true)

-- What is selected of the pieces has no slash, and is no empty part and no single dot.
select-parts : (ps : List String) → All HasNoSlash ps → IsClean (select is_part ps)
select-parts [] h = (tt, refl)
select-parts (p ∷ ps) (a, h) =
    let (b, c) = select-parts ps h in
    elim (Bool-cases (is_part p)) [
      | inl e ↦ subst IsClean (sym (select-true p ps e)) ((a, b), cc (e, c))
      | inr e ↦ subst IsClean (sym (select-false p ps e)) (b, c)
    ]

-- The pieces of parts that are joined.
pieces-join :
    (p : String) (ps : List String) → All HasNoSlash (p ∷ ps) → pieces (join (p ∷ ps)) ≡ p ∷ ps
unfolding join
pieces-join p [] (a, h) = pieces-alone p a
pieces-join p (q ∷ qs) (a, h) =
    pieces-append p (join (q ∷ qs)) a ∙ ap (λ z. p ∷ z) (pieces-join q qs h)

parts-join : (ps : List String) → All HasNoSlash ps → all is_part ps ≡ true → parts (join ps) ≡ ps
unfolding parts join
parts-join [] h e = refl
parts-join (p ∷ ps) h e = ap (select is_part) (pieces-join p ps h) ∙ select-all (p ∷ ps) e

parts-again : (s : String) → parts (join (parts s)) ≡ parts s
unfolding parts
parts-again s =
    let (a, b) = select-parts (pieces s) (pieces-HasNoSlash s) in
    parts-join (select is_part (pieces s)) a b

-- The pieces of joined parts are the parts, but for no parts at all.
pieces-posix :
    (ps : List String)
    → IsClean ps
    → any is_upward ps ≡ false
    → (join ps ≡ ".") ⊎ (any is_upward (pieces (join ps)) ≡ false)
unfolding join
pieces-posix [] c u = inl refl
pieces-posix (p ∷ ps) c u = inr (rw (pieces-join p ps c.0) u)

-- A path that validate_relative_artifact_path accepts is returned as one that does not start at the root
-- and has the same parts as the given one. The returned text is a single dot, which names the
-- directory itself, or nothing between its slashes is empty, a dot or a pair of dots, so that it
-- names a place below the directory.
pub validate_relative_artifact_path-inside :
    (s t : String)
    → validate_relative_artifact_path s ≡ ok t
    → (is_absolute t ≡ false)
      × (parts t ≡ parts s)
      × ((t ≡ ".") ⊎ (any is_upward (pieces t) ≡ false))
unfolding validate_relative_artifact_path parts
validate_relative_artifact_path-inside s t e =
    let (_, e1) = raise_ok (is_unclean s) "INVALID_ARTIFACT_PATH" _ t e in
    let (b, e2) =
      raise_ok (is_absolute s || any is_upward (parts s)) "INVALID_ARTIFACT_PATH" _ t e1 in
    let (c, e3) = raise_ok (is_absolute (join (parts s))) "INVALID_ARTIFACT_PATH" _ t e2 in
    let t_eq = ok_inj (join (parts s)) t e3 in
    (
      ap is_absolute (sym t_eq) ∙ c,
      ap parts (sym t_eq) ∙ parts-again s,
      subst (λ z. (z ≡ ".") ⊎ (any is_upward (pieces z) ≡ false)) t_eq
          (pieces-posix (parts s) (select-parts (pieces s) (pieces-HasNoSlash s))
            (ground (arith, b))),
    )
