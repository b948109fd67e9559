-- ===== src/DependencyGraph/Search.antt =====
-- src/dependency_graph.rs: the loops of propagate_failures and impact_radius, which differ in the end
-- of the list at which `put` adds what waits.
pub mod Laws
pub mod Reach
use helix_router_adaptive_as.Common.{
  ℕ, zero, suc, String, Bool, true, false, List, [], ◌∷◌, ◌++◌, Option, none, some, if◌then◌else◌,
  string_key,
}
use helix_router_adaptive_as.Common.Maps.{Map, get}
use helix_router_adaptive_as.Common.Sets.{contains}

pub record Search : Type 0 where
  pub visited : List String
  pub pending : List String
  pub found : List String

-- The stack pops what was pushed last, the queue what was pushed first.
abbrev pub push_stack : String → List String → List String
push_stack x xs = x ∷ xs

abbrev pub push_queue : String → List String → List String
push_queue x xs = xs ++ (x ∷ [])

module _ (put : String → List String → List String) where
  unfoldable pub offer : Search → String → Search
  offer s dep = if contains dep s.visited then s else record {
    visited = dep ∷ s.visited;
    pending = put dep s.pending;
    found = s.found ++ (dep ∷ []);
  }

  unfoldable pub scan : Search → List String → Search
  scan s [] = s
  scan s (dep ∷ deps) = scan (offer s dep) deps

  unfoldable pub scan_found : Search → Option (List String) → Search
  scan_found s none = s
  scan_found s (some dependents) = scan s dependents

  module _ (reverse : Map String (List String)) where
    -- One round, after `current` left the stack or the queue.
    unfoldable pub expand : Search → String → List String → Search
    expand s current rest = scan_found (record s { pending = rest }) (get current reverse)

    -- Nothing where the fuel runs out.
    unfoldable pub search : ℕ → Search → Option Search
    search zero s = elim s.pending [ [] ↦ some s | _ ∷ _ ↦ none ]
    search (suc fuel) s = elim s.pending [
      | [] ↦ some s
      | current ∷ rest ↦ search fuel (expand s current rest)
    ]
