-- ===== src/Dag/Degrees.antt =====
-- src/dag.rs: the degrees of the topological order count the dependencies of a node.
use helix_router_adaptive_as.Common.{
  ℕ, ◌+◌, true, false, List, [], ◌∷◌, some, ◌==◌, if◌then◌else◌, length, count_if, nat_key, ◌≡◌,
  refl, ap, sym, ◌∙◌, arith, inl, inr,
}
use helix_router_adaptive_as.Common.Maps.{Map, get, keys, get-keys, get_absent, get-some_cons}
use helix_router_adaptive_as.Common.Sets.{contains, contains_cons, distinct}
use helix_router_adaptive_as.Floats.{Floats}
use helix_router_adaptive_as.Kahn.Count.{occ, incoming}
use helix_router_adaptive_as.Kahn.Release.{IsCounted}
use helix_router_adaptive_as.Dag.{DagNode, in_degrees, dependents}

-- How many of `universe` are in `xs`.
abbrev members : List ℕ → List ℕ → ℕ
members universe xs = count_if (λ u. contains u xs) universe

members-nil : (universe : List ℕ) → members universe [] ≡ 0
unfolding contains
members-nil [] = refl
members-nil (u ∷ universe) = omega (arith, members-nil universe)

members_cons :
    (universe : List ℕ) (x : ℕ) (xs : List ℕ)
    → contains x xs ≡ false
    → members universe (x ∷ xs) ≡ occ x universe + members universe xs
unfolding contains
members_cons [] x xs new = refl
members_cons (u ∷ universe) x xs new = ground (arith, members_cons universe x xs)

occ_absent : (x : ℕ) (xs : List ℕ) → contains x xs ≡ false → occ x xs ≡ 0
unfolding contains
occ_absent x [] h = refl
occ_absent x (y ∷ ys) h = ground (arith, occ_absent x ys)

occ_once : (x : ℕ) (xs : List ℕ) → distinct xs ≡ true → contains x xs ≡ true → occ x xs ≡ 1
unfolding contains distinct
occ_once x [] once h = absurd cc
occ_once x (y ∷ ys) once h = ground (arith, occ_once x ys, occ_absent x ys)

-- Different members of a list without repetitions are as many as there are.
length-members :
    (universe xs : List ℕ)
    → distinct universe ≡ true
    → distinct xs ≡ true
    → ((w : ℕ) → contains w xs ≡ true → contains w universe ≡ true)
    → members universe xs ≡ length xs
unfolding distinct
length-members universe [] once different among = members-nil universe
length-members universe (x ∷ xs) once different among =
    let rest =
      length-members universe xs once (ground arith)
        (λ w m. among w ((contains_cons w x xs).1 (inr m))) in
    let here = among x ((contains_cons x x xs).1 (inl refl)) in
    ground (arith, rest, here, members_cons universe x xs, occ_once x universe)

module _ {fl : Floats} where
  -- Nodes have different numbers, and each depends on different nodes of the graph.
  pub record IsDag (nodes : Map ℕ (DagNode fl)) : Type 0 where
    pub once : distinct (keys nodes) ≡ true
    pub different :
        (id : ℕ) (node : DagNode fl) → get id nodes ≡ some node → distinct node.depends_on ≡ true
    pub inside :
        (id : ℕ) (node : DagNode fl) (dep : ℕ)
        → get id nodes ≡ some node
        → contains dep node.depends_on ≡ true
        → contains dep (keys nodes) ≡ true

  dependents_inside :
      (nodes : Map ℕ (DagNode fl)) (u v : ℕ)
      → contains v (dependents nodes u) ≡ true
      → contains v (keys nodes) ≡ true
  unfolding dependents
  dependents_inside [] u v h = h
  dependents_inside ((id, node) ∷ nodes) u v h = ground (
    arith,
    dependents_inside nodes u v,
    contains_cons v id (keys nodes),
    contains_cons v id (dependents nodes u),
  )

  -- A node stands among the dependents of `u` once, where it depends on `u`.
  pub occ-dependents :
      (nodes : Map ℕ (DagNode fl)) (u v : ℕ) (node : DagNode fl)
      → distinct (keys nodes) ≡ true
      → get v nodes ≡ some node
      → occ v (dependents nodes u) ≡ (if contains u node.depends_on then 1 else 0)
  unfolding dependents get distinct
  occ-dependents [] u v node once h = absurd cc
  occ-dependents ((id, n) ∷ nodes) u v node once h = elim (get-some_cons v id node n nodes h) [
    | inl (here, this) ↦ ground (
      arith,
      ap (λ m. contains u m.depends_on) this,
      occ_absent v (dependents nodes u),
      dependents_inside nodes u v,
      ap (λ k. contains k (keys nodes)) here,
    )
    | inr (other, there) ↦ ground (arith, occ-dependents nodes u v node)
  ]

  incoming-dependents :
      (nodes : Map ℕ (DagNode fl)) (universe : List ℕ) (v : ℕ) (node : DagNode fl)
      → distinct (keys nodes) ≡ true
      → get v nodes ≡ some node
      → incoming (dependents nodes) universe [] v ≡ members universe node.depends_on
  unfolding incoming contains
  incoming-dependents nodes [] v node once h = refl
  incoming-dependents nodes (u ∷ universe) v node once h =
      ground (arith, incoming-dependents nodes universe v node, occ-dependents nodes u v node)

  later_key :
      (id v : ℕ) (nodes : Map ℕ (DagNode fl)) (node : DagNode fl)
      → contains id (keys nodes) ≡ false
      → get v nodes ≡ some node
      → id == v ≡ false
  later_key id v nodes node new there =
      ground (arith, get-keys v node nodes there, nat_key.same_iff id v)

  dependents-nil :
      (nodes : Map ℕ (DagNode fl)) (u : ℕ)
      → distinct (keys nodes) ≡ true
      → ((v : ℕ) (node : DagNode fl) → get v nodes ≡ some node → contains u node.depends_on ≡ false)
      → dependents nodes u ≡ []
  unfolding dependents get distinct
  dependents-nil [] u once none_there = refl
  dependents-nil ((id, node) ∷ nodes) u once none_there =
      let here = none_there id node (rw ((nat_key.same_iff id id).1 refl) refl) in
      let rest =
        dependents-nil nodes u (ground arith)
          (λ v n there. none_there v n (rw (later_key id v nodes n (ground arith) there) there)) in
      ground (arith, here, rest)

  pub keys-in_degrees : (nodes : Map ℕ (DagNode fl)) → keys (in_degrees nodes) ≡ keys nodes
  unfolding in_degrees
  keys-in_degrees [] = refl
  keys-in_degrees ((id, node) ∷ nodes) = ap (λ l. id ∷ l) (keys-in_degrees nodes)

  get-in_degrees :
      (nodes : Map ℕ (DagNode fl)) (v d : ℕ)
      → get v (in_degrees nodes) ≡ some d
      → (node : DagNode fl) × (get v nodes ≡ some node) × (d ≡ length node.depends_on)
  unfolding in_degrees get
  get-in_degrees [] v d h = absurd cc
  get-in_degrees ((id, node) ∷ nodes) v d h =
      elim (get-some_cons v id d (length node.depends_on) (in_degrees nodes) h) [
        | inl (here, this) ↦ (node, rw ((nat_key.same_iff id v).1 here) refl, sym this)
        | inr (other, there) ↦
            let (n, found, size) = get-in_degrees nodes v d there in (n, rw other found, size)
      ]

  pub in_degrees-IsCounted :
      (nodes : Map ℕ (DagNode fl))
      → IsDag nodes
      → IsCounted (some 0) (dependents nodes) (keys nodes) (in_degrees nodes)
  in_degrees-IsCounted nodes dag = record {
    keys_once = rw (keys-in_degrees nodes) dag.once;
    universe_once = dag.once;
    outside = λ u h.
        dependents-nil nodes u dag.once
          (λ v node there. ground (arith, dag.inside v node u there, h));
    counted = λ v d h.
        let (node, there, size) = get-in_degrees nodes v d h in
        size
        ∙ sym (
            incoming-dependents nodes (keys nodes) v node dag.once there
            ∙ length-members (keys nodes) node.depends_on dag.once (dag.different v node there)
                (λ w m. dag.inside v node w there m));
    targets = λ u v h gone. absurd (
        get_absent v (in_degrees nodes) gone
          (rw (keys-in_degrees nodes) (dependents_inside nodes u v h)));
  }
