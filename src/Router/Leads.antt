-- ===== src/Router/Leads.antt =====
-- Which candidate the router chooses.
use skeleton_media.Base.{
  ℕ, ◌+◌, ◌-◌, ◌≤◌, ◌≡◌, refl, sym, ◌∙◌, ap, subst, ◌⊎◌, inl, inr, String, Bool, true, false,
  Option, none, some, List, [], ◌∷◌, select, All, ◌==◌, string_eq, nat_eq, ltb, length,
  if◌then◌else◌, ok, Bool-cases, arith,
}
use skeleton_media.Values.Record.{Domain, general_knowledge}
use skeleton_media.Values.Fields.Again.{bind_ok, ok_inj}
use skeleton_media.Router.{
  keywords, domain_of, DomainCandidate, DomainRoute, candidates_of, goes_before, insert_candidate,
  sort_candidates, ranked, SearchedText, combined, route_domain,
}

abbrev pub Among : DomainCandidate → List DomainCandidate → Type 0
Among a [] = ⊥
Among a (c ∷ cs) = (a ≡ c) ⊎ Among a cs

abbrev pub IsTop : DomainCandidate → List DomainCandidate → Type 0
IsTop a cs = All (λ e. e.confidence ≤ a.confidence) cs

-- The number of candidates that are less than ten hundredths below one, which counts among them.
abbrev pub rivals : DomainCandidate → List DomainCandidate → ℕ
rivals a cs = length (select (λ e. ltb a.confidence (e.confidence + 10)) cs)

abbrev IsSorted : List DomainCandidate → Type 0
IsSorted [] = Unit
IsSorted (c ∷ cs) = IsTop c cs × IsSorted cs

before-le : (a b : DomainCandidate) → goes_before a b ≡ true → b.confidence ≤ a.confidence
before-le a b e = ground (arith, e)

after-le : (a b : DomainCandidate) → goes_before a b ≡ false → a.confidence ≤ b.confidence
after-le a b e = ground (arith, e)

insert-All :
    (P : DomainCandidate → Type 0) (a : DomainCandidate) (cs : List DomainCandidate)
    → P a
    → All P cs
    → All P (insert_candidate a cs)
unfolding insert_candidate
insert-All P a [] p h = (p, tt)
insert-All P a (b ∷ bs) p (q, h) = elim (Bool-cases (goes_before a b)) [
  | inl e ↦ rw (e) (p, (q, h))
  | inr e ↦ rw (e) (q, insert-All P a bs p h)
]

All-insert :
    (P : DomainCandidate → Type 0) (a : DomainCandidate) (cs : List DomainCandidate)
    → All P (insert_candidate a cs)
    → P a × All P cs
unfolding insert_candidate
All-insert P a [] (p, h) = (p, tt)
All-insert P a (b ∷ bs) h = elim (Bool-cases (goes_before a b)) [
  | inl e ↦ rw (e, insert_candidate) at h
  | inr e ↦
      let (q, k) : P b × All P (insert_candidate a bs) = rw (e, insert_candidate) at h in
      let (p, l) = All-insert P a bs k in (p, (q, l))
]

IsTop-trans :
    (a b : DomainCandidate) (cs : List DomainCandidate)
    → b.confidence ≤ a.confidence
    → IsTop b cs
    → IsTop a cs
IsTop-trans a b [] l h = tt
IsTop-trans a b (c ∷ cs) l (k, h) = (omega (arith, k, l), IsTop-trans a b cs l h)

insert-IsSorted :
    (a : DomainCandidate) (cs : List DomainCandidate)
    → IsSorted cs
    → IsSorted (insert_candidate a cs)
unfolding insert_candidate
insert-IsSorted a [] h = (tt, tt)
insert-IsSorted a (b ∷ bs) (t, h) = elim (Bool-cases (goes_before a b)) [
  | inl e ↦ rw (e) ((before-le a b e, IsTop-trans a b bs (before-le a b e) t), (t, h))
  | inr e ↦ rw (e) (
    insert-All (λ x. x.confidence ≤ b.confidence) a bs (after-le a b e) t,
    insert-IsSorted a bs h,
  )
]

sort-IsSorted : (cs : List DomainCandidate) → IsSorted (sort_candidates cs)
unfolding sort_candidates
sort-IsSorted [] = tt
sort-IsSorted (c ∷ cs) = insert-IsSorted c (sort_candidates cs) (sort-IsSorted cs)

All-sort :
    (P : DomainCandidate → Type 0) (cs : List DomainCandidate)
    → All P (sort_candidates cs)
    → All P cs
unfolding sort_candidates
All-sort P [] h = tt
All-sort P (c ∷ cs) h = let (p, k) = All-insert P c (sort_candidates cs) h in (p, All-sort P cs k)

shift : {A B C D : Type 0} → (D → A ⊎ C) → B ⊎ D → A ⊎ (B ⊎ C)
shift f (inl b) = inr (inl b)
shift f (inr d) = elim (f d) [ inl a ↦ inl a | inr c ↦ inr (inr c) ]

Among-insert :
    (x a : DomainCandidate) (cs : List DomainCandidate)
    → Among x (insert_candidate a cs)
    → (x ≡ a) ⊎ Among x cs
unfolding insert_candidate
Among-insert x a [] h = h
Among-insert x a (b ∷ bs) h = elim (Bool-cases (goes_before a b)) [
  | inl e ↦ rw (e, insert_candidate) at h
  | inr e ↦ shift (Among-insert x a bs) (rw (e, insert_candidate) at h)
]

Among-sort :
    (x : DomainCandidate) (cs : List DomainCandidate) → Among x (sort_candidates cs) → Among x cs
unfolding sort_candidates
Among-sort x [] h = h
Among-sort x (c ∷ cs) h = elim (Among-insert x c (sort_candidates cs) h) [
  | inl q ↦ inl q
  | inr k ↦ inr (Among-sort x cs k)
]

-- Sorting keeps the number of candidates that pass a test.
select-insert :
    (t : DomainCandidate → Bool) (a : DomainCandidate) (cs : List DomainCandidate)
    → length (select t (insert_candidate a cs)) ≡ length (select t (a ∷ cs))
unfolding insert_candidate
select-insert t a [] = refl
select-insert t a (b ∷ bs) = elim (Bool-cases (goes_before a b)) [
  | inl e ↦ rw (e) refl
  | inr e ↦ rw (e) (ground (arith, select-insert t a bs))
]

select-sort :
    (t : DomainCandidate → Bool) (cs : List DomainCandidate)
    → length (select t (sort_candidates cs)) ≡ length (select t cs)
unfolding sort_candidates
select-sort t [] = refl
select-sort t (c ∷ cs) = select-insert t c (sort_candidates cs) ∙ ground (arith, select-sort t cs)

-- What the router answers for the candidates: the general domain if there are none; and else the domain
-- of one with the highest confidence, if no other one comes closer than ten hundredths.
abbrev pub IsRouted : List DomainCandidate → Domain → Type 0
IsRouted [] d = d ≡ general_knowledge
IsRouted (c ∷ cs) d =
    (a : DomainCandidate) × Among a (c ∷ cs)
    × IsTop a (c ∷ cs)
    × (d ≡ (if rivals a (c ∷ cs) == 1 then a.domain else general_knowledge))

far-rivals :
    (a b : DomainCandidate) (cs : List DomainCandidate)
    → b.confidence + 10 ≤ a.confidence
    → IsTop b cs
    → rivals a cs ≡ 0
far-rivals a b [] l h = refl
far-rivals a b (c ∷ cs) l (k, h) = ground (arith, l, k, far-rivals a b cs l h)

ranked-routed :
    (a : DomainCandidate) (cs : List DomainCandidate)
    → IsSorted (a ∷ cs)
    → (ranked (a ∷ cs)).0.domain ≡ (if rivals a (a ∷ cs) == 1 then a.domain else general_knowledge)
unfolding ranked
ranked-routed a [] h = ground arith
ranked-routed a (b ∷ bs) ((l, t), (u, v)) =
    elim (Bool-cases (ltb ((a.confidence - b.confidence) + (b.confidence - a.confidence)) 10)) [
      | inl e ↦ ground (arith, e, l)
      | inr e ↦ ground (arith, e, l, far-rivals a b bs (ground (arith, e, l)) u)
    ]

ranked_nothing : (ranked []).0.domain ≡ general_knowledge
unfolding ranked
ranked_nothing = refl

sorted-IsRouted :
    (cs s : List DomainCandidate) → s ≡ sort_candidates cs → IsRouted cs (ranked s).0.domain
unfolding sort_candidates
sorted-IsRouted [] s e = subst (λ z. (ranked z).0.domain ≡ general_knowledge) (sym e) ranked_nothing
sorted-IsRouted (c ∷ cs) [] e =
    absurd (cc (ap (λ z. length (select (λ x. true) z)) e, select-sort (λ x. true) (c ∷ cs)))
sorted-IsRouted (c ∷ cs) (a ∷ bs) e =
    let sorted = subst IsSorted (sym e) (sort-IsSorted (c ∷ cs)) in
    let counted =
      ap (λ z. rivals a z) e ∙ select-sort (λ x. ltb a.confidence (x.confidence + 10)) (c ∷ cs) in
    (
      a,
      Among-sort a (c ∷ cs) (subst (Among a) e (inl refl)),
      All-sort (λ x. x.confidence ≤ a.confidence) (c ∷ cs)
          (subst (IsTop a) e (omega arith, sorted.0)),
      ranked-routed a bs sorted ∙ ap (λ n. if n == 1 then a.domain else general_knowledge) counted,
    )

abbrev pub IsSelected : Option String → DomainRoute → Type 0
IsSelected none r = r.selected ≡ r.original_selected
IsSelected (some p) r = domain_of p ≡ ok r.selected

-- The route chooses by the keywords that stand in the text, and an explicit profile overrides the choice
-- if it names a domain: without candidates the choice is the general domain; else it is the domain of
-- a candidate with the highest confidence if no other one comes closer than ten hundredths, and the
-- general domain otherwise.
pub route_domain-IsRouted :
    (casefold : String → String) (content : SearchedText) (profile : Option String)
    (r : DomainRoute)
    → route_domain casefold content profile ≡ ok r
    → IsRouted (candidates_of keywords (combined casefold content)) r.original_selected
      × IsSelected profile r
unfolding route_domain
route_domain-IsRouted casefold content none r e =
    let cs = candidates_of keywords (combined casefold content) in
    let routed = sorted-IsRouted cs (sort_candidates cs) refl in
    (
      subst (λ x. IsRouted cs x.original_selected) (ok_inj _ r e) routed,
      subst (λ x. x.selected ≡ x.original_selected) (ok_inj _ r e) refl,
    )
route_domain-IsRouted casefold content (some p) r e =
    let cs = candidates_of keywords (combined casefold content) in
    let routed = sorted-IsRouted cs (sort_candidates cs) refl in
    let (d, named, e1) = bind_ok (domain_of p) _ r e in
    (
      subst (λ x. IsRouted cs x.original_selected) (ok_inj _ r e1) routed,
      subst (λ x. domain_of p ≡ ok x.selected) (ok_inj _ r e1) named,
    )
