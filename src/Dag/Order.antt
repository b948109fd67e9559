-- ===== src/Dag/Order.antt =====
-- src/dag.rs: the topological order.
use helix_router_adaptive_as.Common.{
  ℕ, zero, suc, ◌<◌, true, false, List, [], ◌∷◌, some, eqb, length, nat_key, ◌≡◌, ap, sym, subst,
  ◌∙◌, ◌↔◌, arith, Bool-cases, inl, inr,
}
use helix_router_adaptive_as.Common.Maps.{Map, get, keys, length-keys, get_present}
use helix_router_adaptive_as.Common.Sets.{contains, distinct, distinct-among, missing-eq-zero}
use helix_router_adaptive_as.Floats.{Floats}
use helix_router_adaptive_as.Kahn.{Kahn, free, kahn, start_of}
use helix_router_adaptive_as.Kahn.Count.{occ}
use helix_router_adaptive_as.Kahn.Release.{InOrder}
use helix_router_adaptive_as.Kahn.Laws.{kahn_orders, distinct-free}
use helix_router_adaptive_as.Dag.{
  DagNode, JobDag, in_degrees, dependents, kahn_of, complete_order, topological_order,
}
use helix_router_adaptive_as.Dag.Degrees.{
  IsDag, in_degrees-IsCounted, keys-in_degrees, occ-dependents,
}

-- An order gives the same keys, each once.
pub record OrderLaws (degree_order : List ℕ → List ℕ) : Type 0 where
  pub members :
      (ks : List ℕ) (v : ℕ) → (contains v (degree_order ks) ≡ true) ↔ (contains v ks ≡ true)
  pub once : (ks : List ℕ) → distinct ks ≡ true → distinct (degree_order ks) ≡ true

module _ {fl : Floats} (nodes : Map ℕ (DagNode fl)) where
  -- Each node of the list comes after those that it depends on, those of `before` included.
  abbrev pub AfterDependencies : List ℕ → List ℕ → Type 0
  AfterDependencies before [] = Unit
  AfterDependencies before (v ∷ vs) =
      ((node : DagNode fl) (dep : ℕ)
        → get v nodes ≡ some node
        → contains dep node.depends_on ≡ true
        → contains dep before ≡ true)
      × AfterDependencies (v ∷ before) vs

  -- The nodes without repetition, each after those that it depends on.
  pub record IsOrder (order : List ℕ) : Type 0 where
    pub once : distinct order ≡ true
    pub all_nodes : (v : ℕ) → (contains v order ≡ true) ↔ (contains v (keys nodes) ≡ true)
    pub sorted : AfterDependencies [] order

  -- A number for each node, greater than those of the nodes that it depends on: there is no cycle.
  abbrev pub IsRank : (ℕ → ℕ) → Type 0
  IsRank rank =
      (v dep : ℕ) (node : DagNode fl)
      → get v nodes ≡ some node
      → contains dep node.depends_on ≡ true
      → rank dep < rank v

  module _ (dag : IsDag nodes) where
    InOrder-AfterDependencies :
        (before vs : List ℕ)
        → InOrder (dependents nodes) (keys nodes) before vs
        → AfterDependencies before vs
    InOrder-AfterDependencies before [] sorted = tt
    InOrder-AfterDependencies before (v ∷ vs) sorted = (
      λ node dep here m.
          sorted.0 dep (dag.inside v node dep here m)
            (ground (arith, occ-dependents nodes dep v node dag.once here)),
      InOrder-AfterDependencies (v ∷ before) vs sorted.1,
    )

    dag_kahn :
        (degree_order : List ℕ → List ℕ)
        → OrderLaws degree_order
        → (t : Kahn ℕ) × (kahn_of degree_order nodes ≡ some t)
          × (distinct t.order ≡ true)
          × AfterDependencies [] t.order
          × ((v : ℕ) → contains v t.order ≡ true → contains v (keys nodes) ≡ true)
          × ((v : ℕ)
              → contains v (keys nodes) ≡ true
              → contains v t.order ≡ false
              → (u : ℕ) × (contains u (keys nodes) ≡ true)
                × (contains u t.order ≡ false)
                × (0 < occ v (dependents nodes u)))
    dag_kahn degree_order any_order =
        let (t, ends, once, sorted, among, left) =
          kahn_orders (some 0) (dependents nodes) (keys nodes) (in_degrees nodes)
            (in_degrees-IsCounted nodes dag) (degree_order (free (in_degrees nodes)))
            (any_order.members (free (in_degrees nodes)))
            (any_order.once (free (in_degrees nodes))
              (distinct-free (in_degrees nodes) (rw (keys-in_degrees nodes) dag.once))) in
        let rounds : length (keys (in_degrees nodes)) ≡ length nodes =
          ap length (keys-in_degrees nodes) ∙ length-keys nodes in
        (
          t,
          subst
              (λ n.
                kahn (some 0) (dependents nodes) n
                  (start_of (degree_order (free (in_degrees nodes))) (in_degrees nodes))
                ≡ some t)
              rounds ends,
          once,
          InOrder-AfterDependencies [] t.order sorted,
          λ v m. subst (λ l. contains v l ≡ true) (keys-in_degrees nodes) (among v m),
          λ v m new. left v (subst (λ l. contains v l ≡ true) (sym (keys-in_degrees nodes)) m) new,
        )

    full-IsOrder :
        (order : List ℕ)
        → distinct order ≡ true
        → AfterDependencies [] order
        → ((v : ℕ) → contains v order ≡ true → contains v (keys nodes) ≡ true)
        → length order ≡ length nodes
        → IsOrder order
    full-IsOrder order once sorted among size = record {
      once = once;
      sorted = sorted;
      all_nodes = λ v. (
        among v,
        λ m.
            missing-eq-zero order (keys nodes) v
              (omega (arith, distinct-among order (keys nodes) once among, length-keys nodes)) m,
      );
    }

    -- No node is left out, since of those that are one would have the least rank.
    none_left :
        (t : Kahn ℕ) (rank : ℕ → ℕ)
        → IsRank rank
        → ((v : ℕ)
            → contains v (keys nodes) ≡ true
            → contains v t.order ≡ false
            → (u : ℕ) × (contains u (keys nodes) ≡ true)
              × (contains u t.order ≡ false)
              × (0 < occ v (dependents nodes u)))
        → (n v : ℕ) → rank v < n
        → contains v (keys nodes) ≡ true
        → contains v t.order ≡ true
    none_left t rank falls left zero v small m = absurd (omega arith)
    none_left t rank falls left (suc n) v small m = elim (Bool-cases (contains v t.order)) [
      | inl taken ↦ taken
      | inr new ↦
          let (u, inside, u_new, edge) = left v m new in
          let (node, here) = get_present v nodes m in
          let needs : contains u node.depends_on ≡ true =
            ground (arith, occ-dependents nodes u v node dag.once here) in
          let before =
            none_left t rank falls left n u (omega (arith, falls v u node here needs)) inside in
          cc
    ]

-- A topological order that is returned has every node once, each after those that it depends on.
pub topological_order_lem :
    {fl : Floats} (degree_order : List ℕ → List ℕ) (g : JobDag fl) (order : List ℕ)
    → OrderLaws degree_order
    → IsDag g.nodes
    → topological_order degree_order g ≡ some order
    → IsOrder g.nodes order
unfolding topological_order complete_order
topological_order_lem degree_order g order any_order dag h =
    let (t, ends, once, sorted, among, left) = dag_kahn g.nodes dag degree_order any_order in
    elim (Bool-cases (eqb (length t.order) (length g.nodes))) [
      | inl full ↦
          let same : t.order ≡ order = ground arith in
          subst (IsOrder g.nodes) same
            (full-IsOrder g.nodes dag t.order once sorted among (ground arith))
      | inr short ↦ ground arith
    ]

-- A graph without a cycle, given by numbers that rise along its edges, has a topological order.
pub topological_order-some :
    {fl : Floats} (degree_order : List ℕ → List ℕ) (g : JobDag fl) (rank : ℕ → ℕ)
    → OrderLaws degree_order
    → IsDag g.nodes
    → IsRank g.nodes rank
    → (order : List ℕ) × (topological_order degree_order g ≡ some order) × IsOrder g.nodes order
unfolding topological_order complete_order
topological_order-some degree_order g rank any_order dag falls =
    let (t, ends, once, sorted, among, left) = dag_kahn g.nodes dag degree_order any_order in
    let full = λ (v : ℕ) (m : contains v (keys g.nodes) ≡ true).
      none_left g.nodes dag t rank falls left (suc (rank v)) v (omega arith) m in
    let size : length t.order ≡ length g.nodes = omega (
      arith,
      distinct-among t.order (keys g.nodes) once among,
      distinct-among (keys g.nodes) t.order dag.once full,
      length-keys g.nodes,
    ) in
    (t.order, ground arith, full-IsOrder g.nodes dag t.order once sorted among size)
