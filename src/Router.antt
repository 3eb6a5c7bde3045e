-- ===== src/Router.antt =====
-- The choice of a domain by keywords (video_understanding/domain_router.py). Confidences are whole
-- hundredths.
pub mod Leads
mod Tests
use skeleton_media.Base.{
  ℕ, ◌+◌, ◌-◌, ◌*◌, String, Bool, true, false, not, ◌&&◌, ◌||◌, Option, none, some, List, [], ◌∷◌,
  select, ◌==◌, string_eq, nat_eq, ltb, leb, min, length, if◌then◌else◌, Result, ok, err, ◌>>=◌,
}
use Prim.Native.String.{◌++◌}
use skeleton_media.Value.{codes}
use skeleton_media.Values.Fields.{begins}
use skeleton_media.Values.Record.{
  Domain, dios, home_automation, travel, construction, legal_documents, aviation,
  skeleton_architecture, general_knowledge, domain_value,
}
use skeleton_media.Artifacts.Manifest.{is_before}

abbrev pub keywords : List (Domain × List String)
keywords =
    (
      dios,
      "cad" ∷ "bim" ∷ "drawing" ∷ "blueprint" ∷ "technical drawing" ∷ "autocad" ∷ "revit"
          ∷ "dimension" ∷ "креслення" ∷ "чертеж" ∷ [],
    )
    ∷ (
      home_automation,
      "home assistant" ∷ "mqtt" ∷ "zigbee" ∷ "z-wave" ∷ "esp32" ∷ "esphome" ∷ "node-red"
          ∷ "automation" ∷ "автоматизац" ∷ [],
    )
    ∷ (
      travel,
      "hotel" ∷ "flight" ∷ "destination" ∷ "itinerary" ∷ "route" ∷ "booking" ∷ "подорож" ∷ "готел"
          ∷ "маршрут" ∷ [],
    )
    ∷ (
      construction,
      "construction" ∷ "building site" ∷ "installation" ∷ "concrete" ∷ "roof"
          ∷ "electrical installation" ∷ "будівниц" ∷ "монтаж" ∷ [],
    )
    ∷ (
      legal_documents,
      "law" ∷ "legal" ∷ "contract" ∷ "court" ∷ "claim" ∷ "document" ∷ "regulation" ∷ "gesetz"
          ∷ "bescheid" ∷ "догов" ∷ "суд" ∷ [],
    )
    ∷ (
      aviation,
      "aircraft" ∷ "flight training" ∷ "pilot" ∷ "runway" ∷ "aviation" ∷ "ultralight" ∷ "літак"
          ∷ "авіац" ∷ [],
    )
    ∷ (
      skeleton_architecture,
      "skeleton" ∷ "github" ∷ "docker" ∷ "agent" ∷ "memory gateway" ∷ "runner" ∷ "local llm"
          ∷ "server" ∷ "ollama" ∷ "api" ∷ [],
    )
    ∷ []

abbrev all_domains : List Domain
all_domains =
    dios ∷ home_automation ∷ travel ∷ construction ∷ legal_documents ∷ aviation
    ∷ skeleton_architecture ∷ general_knowledge ∷ []

-- `Domain(value)`, among some domains.
abbrev named_among : List Domain → String → Result Domain
named_among [] s = err "UNKNOWN_PROFILE"
named_among (d ∷ ds) s = let rest = named_among ds s in if domain_value d == s then ok d else rest

unfoldable pub domain_of : String → Result Domain
domain_of s = named_among all_domains s

pub record DomainCandidate : Type 0 where
  pub domain : Domain
  pub confidence : ℕ
  pub evidence_terms : List String

pub record DomainRoute : Type 0 where
  pub selected : Domain
  pub candidates : List DomainCandidate
  pub override_applied : Bool
  pub original_selected : Domain

-- `term in combined`
abbrev pub has_term : String → String → Bool
has_term term String.[] = term == ""
has_term term (String.◌∷◌ c s) = begins (codes term) (codes (String.◌∷◌ c s)) || has_term term s

abbrev with_candidate : Domain → List String → List DomainCandidate → List DomainCandidate
with_candidate d [] cs = cs
with_candidate d (t ∷ ts) cs =
    record { domain = d; confidence = min 99 (45 + 12 * length (t ∷ ts)); evidence_terms = t ∷ ts }
    ∷ cs

-- The loop over the keywords.
unfoldable pub candidates_of : List (Domain × List String) → String → List DomainCandidate
candidates_of [] combined = []
candidates_of ((d, terms) ∷ ks) combined =
    with_candidate d (select (λ t. has_term t combined) terms) (candidates_of ks combined)

-- The key of the first is not after that of the second.
abbrev pub goes_before : DomainCandidate → DomainCandidate → Bool
goes_before a b =
    ltb b.confidence a.confidence
    || ((a.confidence == b.confidence)
        && is_before (codes (domain_value a.domain)) (codes (domain_value b.domain)))

unfoldable pub insert_candidate : DomainCandidate → List DomainCandidate → List DomainCandidate
insert_candidate a [] = a ∷ []
insert_candidate a (b ∷ bs) = if goes_before a b then a ∷ b ∷ bs else b ∷ insert_candidate a bs

-- `candidates.sort`
unfoldable pub sort_candidates : List DomainCandidate → List DomainCandidate
unfolding insert_candidate
sort_candidates [] = []
sort_candidates (c ∷ cs) = insert_candidate c (sort_candidates cs)

abbrev pub general : ℕ → List String → DomainCandidate
general confidence terms = record {
  domain = general_knowledge;
  confidence = confidence;
  evidence_terms = terms;
}

-- The first candidate, and the ones after it, with the general ones where nothing matched or the two
-- best are close.
unfoldable pub ranked : List DomainCandidate → DomainCandidate × List DomainCandidate
ranked [] = (general 35 [], [])
ranked (a ∷ []) = (a, [])
ranked (a ∷ b ∷ cs) =
    if ltb ((a.confidence - b.confidence) + (b.confidence - a.confidence)) 10
    then (general 50 ("mixed" ∷ []), a ∷ b ∷ cs)
    else (a, b ∷ cs)

pub data SearchedText : Type 0 where
  whole : String → SearchedText
  several : List String → SearchedText

abbrev join_lines : List String → String
join_lines [] = ""
join_lines (p ∷ []) = p
join_lines (p ∷ q ∷ ps) = p ++ ("\n" ++ join_lines (q ∷ ps))

-- The text that is searched; `casefold` is Python's.
unfoldable pub combined : (String → String) → SearchedText → String
combined casefold (whole s) = casefold s
combined casefold (several ps) = casefold (join_lines ps)

abbrev pub with_profile : Domain → List DomainCandidate → Option String → Result DomainRoute
with_profile original cs none = ok (record {
  selected = original;
  candidates = cs;
  override_applied = false;
  original_selected = original;
})
with_profile original cs (some profile) = domain_of profile >>= λ selected. ok (record {
  selected = selected;
  candidates = cs;
  override_applied = not (domain_value selected == domain_value original);
  original_selected = original;
})

unfoldable pub route_domain : (String → String) → SearchedText → Option String → Result DomainRoute
unfolding candidates_of sort_candidates ranked combined domain_of
route_domain casefold content explicit_profile =
    let r = ranked (sort_candidates (candidates_of keywords (combined casefold content))) in
    with_profile r.0.domain (r.0 ∷ r.1) explicit_profile
