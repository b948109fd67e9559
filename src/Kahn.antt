-- ===== src/Kahn.antt =====
-- The loop of Kahn's algorithm, which src/dag.rs and src/dependency_graph.rs both write out. `out u`
-- are the keys whose degree falls when `u` is taken, and `absent` is what the code takes for the degree
-- of a key that has none: nothing where it leaves the key alone.
pub mod Count
pub mod Release
pub mod Laws
use helix_router_adaptive_as.Common.{
  ℕ, zero, suc, ◌-◌, Bool, List, [], ◌∷◌, ◌++◌, Option, none, some, Key, eqb, if◌then◌else◌,
}
use helix_router_adaptive_as.Common.Maps.{Map, get, insert}

pub record Kahn {ℓ} (K : Type ℓ) : Type ℓ where
  pub queue : List K
  pub degree : Map K ℕ
  pub order : List K

abbrev pub or_else {ℓ} : {A : Type ℓ} → Option A → Option A → Option A
or_else none y = y
or_else (some x) y = some x

-- The keys of degree 0, in the order of the map.
unfoldable pub free {ℓ} : {K : Type ℓ} → Map K ℕ → List K
free [] = []
free ((k, d) ∷ m) = let rest = free m in if eqb d 0 then k ∷ rest else rest

module _ {ℓ} {K : Type ℓ} ⦃e : Key K⦄ where
  unfoldable pub lowered : K → Kahn K → Option ℕ → Kahn K
  lowered v s none = s
  lowered v s (some d) = record s {
    degree = insert v (d - 1) s.degree;
    queue = if eqb (d - 1) 0 then s.queue ++ (v ∷ []) else s.queue;
  }

  module _ (absent : Option ℕ) where
    unfoldable pub lower : K → Kahn K → Kahn K
    lower v s = lowered v s (or_else (get v s.degree) absent)

    unfoldable pub release : Kahn K → List K → Kahn K
    release s [] = s
    release s (v ∷ vs) = release (lower v s) vs

    module _ (out : K → List K) where
      -- One round, for the key at the front of the queue.
      unfoldable pub visit : Kahn K → K → List K → Kahn K
      visit s u rest = release (record s { queue = rest; order = s.order ++ (u ∷ []) }) (out u)

      -- Nothing where the fuel runs out.
      unfoldable pub kahn : ℕ → Kahn K → Option (Kahn K)
      kahn zero s = elim s.queue [ [] ↦ some s | _ ∷ _ ↦ none ]
      kahn (suc fuel) s = elim s.queue [ [] ↦ some s | u ∷ rest ↦ kahn fuel (visit s u rest) ]

  abbrev pub start_of : List K → Map K ℕ → Kahn K
  start_of queue degree = record { queue = queue; degree = degree; order = [] }
