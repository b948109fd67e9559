-- ===== src/DependencyGraph/Failures/Laws.antt =====
-- What propagate_failures and impact_radius of src/dependency_graph.rs answer.
use helix_router_adaptive_as.Common.{
  ℕ, suc, ◌+◌, ◌-◌, ◌≤◌, String, Bool, true, false, List, [], ◌∷◌, some, length, if◌then◌else◌,
  string_key, ◌≡◌, refl, subst, ◌≢◌, ◌↔◌, inl, arith,
}
use mathlib.Core.Option
use helix_router_adaptive_as.Common.Maps.{Map, get, keys}
use helix_router_adaptive_as.Common.Sets.{
  contains, contains_cons, contains-nil, distinct, missing-le,
}
use helix_router_adaptive_as.Floats.{Floats}
use helix_router_adaptive_as.DependencyGraph.{
  DependencyEdge, DependencyGraph, or_empty, reverse_all, hard, any, edge_count, sort_unstable,
}
use helix_router_adaptive_as.DependencyGraph.Search.{Search, search}
use helix_router_adaptive_as.DependencyGraph.Search.Laws.{PutLaws, Impacted, hit, via}
use helix_router_adaptive_as.DependencyGraph.Search.Reach.{search_ends, search_reaches, starts}
use helix_router_adaptive_as.DependencyGraph.Links.{
  linked, sources, listed-reverse_all, contains-sources, length-sources,
}
use helix_router_adaptive_as.DependencyGraph.Failures.{
  failed_ids, fail_all, mark_found, spread, propagate_failures, count_visited, impact_radius,
}
use helix_router_adaptive_as.DependencyGraph.Failures.Marks.{
  push_stack-PutLaws, push_queue-PutLaws, contains-sort_unstable, distinct-sort_unstable,
  distinct-failed_ids, spread_failure, get-fail_all,
}

module _ {fl : Floats} (wanted : DependencyEdge fl → Bool)
    (adjacency : Map String (List (DependencyEdge fl))) where
  abbrev reverse : Map String (List String)
  reverse = reverse_all wanted adjacency []

  listed-linked :
      (a b : String)
      → (contains a (or_empty (get b reverse)) ≡ true) ↔ (linked wanted adjacency a b ≡ true)
  unfolding get contains
  listed-linked a b = ground (arith, listed-reverse_all wanted a b adjacency [])

  -- The fuel given is enough, and the search visits what leads to the start by wanted edges.
  search_lem :
      {put : String → List String → List String} (laws : PutLaws put) (start : List String)
      (fuel : ℕ)
      → distinct start ≡ true
      → edge_count adjacency + length start ≤ fuel
      → (t : Search) × (search put reverse fuel (starts start) ≡ some t)
        × (distinct t.visited ≡ true)
        × (distinct t.found ≡ true)
        × ((w : String)
            → ((contains w t.visited ≡ true) → Impacted start (linked wanted adjacency) w)
              × (Impacted start (linked wanted adjacency) w → contains w t.visited ≡ true)
              × ((contains w t.found ≡ true)
                  ↔ ((contains w t.visited ≡ true) × (contains w start ≡ false))))
  search_lem laws start fuel once enough =
      let universe = sources adjacency in
      let (t, ends) =
        search_ends laws reverse universe
          (λ a b m. contains-sources wanted a b adjacency ((listed-linked a b).0 m)) fuel
          (starts start) (omega (arith, missing-le start universe, length-sources adjacency)) in
      let (reached, twice) =
        search_reaches laws reverse (linked wanted adjacency) listed-linked start fuel t once
          ends in
      (t, ends, twice.visits, twice.finds, reached)

length_pos : (xs : List String) → xs ≢ [] → length xs ≡ suc (length xs - 1)
length_pos [] h = absurd (h refl)
length_pos (x ∷ xs) h = omega arith

Impacted-nil : (link : String → String → Bool) (w : String) → ¬ Impacted [] link w
Impacted-nil link w (hit m) = contains-nil w m
Impacted-nil link w (via {a} {b} edge p) = Impacted-nil link b p

mark_found_lem :
    {fl : Floats} (g : DependencyGraph fl) (t : Search)
    → mark_found g (some t)
      ≡ some (record g { nodes = fail_all t.found g.nodes }, sort_unstable t.found)
unfolding mark_found
mark_found_lem g t = refl

distinct-nil : distinct {K = String} [] ≡ true
unfolding distinct
distinct-nil = refl

distinct-singleton : (x : String) → distinct (x ∷ []) ≡ true
unfolding distinct contains
distinct-singleton x = refl

module _ {fl : Floats} (g : DependencyGraph fl) where
  -- What the services `ids` are to `start`, and what is marked in `g'`.
  pub record Spreads (start ids : List String) (g' : DependencyGraph fl) : Type 0 where
    pub once : distinct ids ≡ true
    pub impacted :
        (w : String)
        → contains w ids ≡ true
        → Impacted start (linked hard g.adjacency) w × (contains w start ≡ false)
    pub complete :
        (w : String)
        → Impacted start (linked hard g.adjacency) w
        → contains w start ≡ false
        → contains w ids ≡ true
    pub marks :
        (w : String)
        → get w g'.nodes
          ≡ (if contains w ids then Option.map spread_failure (get w g.nodes) else get w g.nodes)
    pub edges : g'.adjacency ≡ g.adjacency

  spread-Spreads :
      (start : List String)
      → distinct start ≡ true
      → (g' : DependencyGraph fl) × (ids : List String) × (spread g start ≡ some (g', ids))
        × Spreads start ids g'
  unfolding spread fail_all
  spread-Spreads [] once = (
    g,
    [],
    refl,
    record {
      once = distinct-nil;
      impacted = λ w m. absurd (contains-nil w m);
      complete = λ w i new. absurd (Impacted-nil (linked hard g.adjacency) w i);
      marks = λ w. get-fail_all w [] g.nodes;
      edges = refl;
    },
  )
  spread-Spreads (id ∷ ids) once =
      let (t, ends, visits, finds, facts) =
        search_lem hard g.adjacency push_stack-PutLaws (id ∷ ids)
          (edge_count g.adjacency + length (id ∷ ids)) once (omega arith) in
      let same = λ (w : String). contains-sort_unstable w t.found in
      let g' : DependencyGraph fl = record g { nodes = fail_all t.found g.nodes } in
      (
        g',
        sort_unstable t.found,
        rw ends (mark_found_lem g t),
        record {
          once = distinct-sort_unstable t.found finds;
          impacted = λ w m. let now = (facts w).2.0 ((same w).0 m) in ((facts w).0 now.0, now.1);
          complete = λ w i new. (same w).1 ((facts w).2.1 ((facts w).1 i, new));
          marks = λ w. rw (get-fail_all w t.found g.nodes) (ground (arith, same w));
          edges = refl;
        },
      )

module _ {fl : Floats} where
  -- propagate_failures, on a graph whose services have different names, returns each service once that
  -- leads by hard dependencies to one that had failed, and was not itself among those. It marks these
  -- as failed where they are registered, and changes nothing else.
  pub propagate_failures_lem :
      (g : DependencyGraph fl)
      → distinct (keys g.nodes) ≡ true
      → (g' : DependencyGraph fl) × (ids : List String) × (propagate_failures g ≡ some (g', ids))
        × Spreads g (failed_ids g.nodes) ids g'
  unfolding propagate_failures
  propagate_failures_lem g once =
      spread-Spreads g (failed_ids g.nodes) (distinct-failed_ids g.nodes once)

  -- impact_radius ends and counts, but for the service itself, the services that lead to it by edges of
  -- any type: one less than the length of a list that holds each of them and the service once.
  pub impact_radius_lem :
      (g : DependencyGraph fl) (service_id : String)
      → (n : ℕ) × (impact_radius service_id g ≡ some n)
        × (reached : List String) × (length reached ≡ suc n)
        × (distinct reached ≡ true)
        × ((w : String)
            → ((contains w reached ≡ true) → Impacted (service_id ∷ []) (linked any g.adjacency) w)
              × (Impacted (service_id ∷ []) (linked any g.adjacency) w → contains w reached ≡ true))
  unfolding impact_radius count_visited
  impact_radius_lem g service_id =
      let (t, ends, visits, finds, facts) =
        search_lem any g.adjacency push_queue-PutLaws (service_id ∷ []) (edge_count g.adjacency + 1)
          (distinct-singleton service_id) (omega arith) in
      let some_visited = λ (e : t.visited ≡ []). contains-nil service_id (
        subst (λ l. contains service_id l ≡ true) e
          ((facts service_id).1 (hit ((contains_cons service_id service_id []).1 (inl refl))))) in
      (
        length t.visited - 1,
        rw ends refl,
        t.visited,
        length_pos t.visited some_visited,
        visits,
        λ w. ((facts w).0, (facts w).1),
      )
