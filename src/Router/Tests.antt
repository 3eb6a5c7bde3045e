-- ===== src/Router/Tests.antt =====
-- Routes at concrete inputs.
use skeleton_media.Base.{◌≡◌, refl, String, none, false, [], ◌∷◌, ok}
use skeleton_media.Values.Record.{dios}
use skeleton_media.Router.{
  keywords, DomainRoute, candidates_of, insert_candidate, sort_candidates, ranked, whole, combined,
  route_domain,
}
use skeleton_media.Router.Leads.{IsRouted, IsSelected, route_domain-IsRouted}

abbrev unfolded : String → String
unfolded s = s

abbrev drawing_route : DomainRoute
drawing_route = record {
  selected = dios;
  candidates = record { domain = dios; confidence = 69; evidence_terms = "cad" ∷ "bim" ∷ [] } ∷ [];
  override_applied = false;
  original_selected = dios;
}

drawing_routed : route_domain unfolded (whole "cad bim") none ≡ ok drawing_route
unfolding route_domain candidates_of sort_candidates insert_candidate ranked combined
drawing_routed = refl

route_domain-IsRouted_example :
    IsRouted
      (candidates_of keywords (combined unfolded (whole "cad bim")))
      drawing_route.original_selected
    × IsSelected none drawing_route
route_domain-IsRouted_example =
    route_domain-IsRouted unfolded (whole "cad bim") none drawing_route drawing_routed
