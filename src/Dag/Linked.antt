-- ===== src/Dag/Linked.antt =====
-- src/dag.rs: the graph with a new edge.
use helix_router_adaptive_as.Common.{
  ℕ, true, false, [], ◌∷◌, some, ◌==◌, nat_key, ◌≡◌, refl, ap, sym, subst, ◌⊎◌, inl, inr, arith,
  Bool-cases, Option-cases,
}
use helix_router_adaptive_as.Common.Maps.{Map, get, modify, keys, get-modify}
use helix_router_adaptive_as.Common.Sets.{
  contains, contains-append, contains_cons, contains-nil, distinct, distinct-concat,
}
use helix_router_adaptive_as.Floats.{Floats}
use helix_router_adaptive_as.Dag.{DagNode, with_dependency}
use helix_router_adaptive_as.Dag.Degrees.{IsDag}

module _ {fl : Floats} (from to : ℕ) (nodes : Map ℕ (DagNode fl)) where
  keys-modify :
      (f : DagNode fl → DagNode fl) (m : Map ℕ (DagNode fl)) → keys (modify to f m) ≡ keys m
  unfolding modify
  keys-modify f [] = refl
  keys-modify f ((i, node) ∷ m) = elim (Bool-cases (i == to)) [
    | inl here ↦ rw here refl
    | inr other ↦ rw other (ap (λ ks. i ∷ ks) (keys-modify f m))
  ]

  -- A node of the new graph was there before, and the one that the edge leads to has one more
  -- dependency.
  get-linked :
      (id : ℕ) (node : DagNode fl)
      → get id (modify to (with_dependency from) nodes) ≡ some node
      → (old : DagNode fl) × (get id nodes ≡ some old)
        × ((id ≡ to) × (node ≡ with_dependency from old) ⊎ (node ≡ old))
  get-linked id node h = elim (Option-cases (get id nodes)) [
    | inl gone ↦ absurd (ground (arith, get-modify to id (with_dependency from) nodes))
    | inr (old, here) ↦ elim (Bool-cases (to == id)) [
      | inl same ↦ (
        old,
        here,
        inl (
          sym ((nat_key.same_iff to id).0 same),
          ground (arith, get-modify to id (with_dependency from) nodes),
        ),
      )
      | inr other ↦ (old, here, inr (ground (arith, get-modify to id (with_dependency from) nodes)))
    ]
  ]

  -- A new edge between nodes of the graph keeps the shape of the graph.
  pub linked-IsDag :
      IsDag nodes
      → contains from (keys nodes) ≡ true
      → ((node : DagNode fl) → get to nodes ≡ some node → contains from node.depends_on ≡ false)
      → IsDag (modify to (with_dependency from) nodes)
  linked-IsDag dag known new =
      let same = keys-modify (with_dependency from) nodes in
      record {
        once = rw same dag.once;
        different = λ id node h.
            let (old, here, how) = get-linked id node h in
            elim how [
              | inl (at, grown) ↦
                  subst (λ (n : DagNode fl). distinct n.depends_on ≡ true) (sym grown)
                    (distinct-concat from old.depends_on
                      (new old (subst (λ i. get i nodes ≡ some old) at here))
                      (dag.different id old here))
              | inr kept ↦
                  subst (λ (n : DagNode fl). distinct n.depends_on ≡ true) (sym kept)
                    (dag.different id old here)
            ];
        inside = λ id node dep h m.
            let (old, here, how) = get-linked id node h in
            subst (λ ks. contains dep ks ≡ true) (sym same)
              (elim how [
                | inl (at, grown) ↦
                    elim ((contains-append dep old.depends_on (from ∷ [])).0
                      (subst (λ (n : DagNode fl). contains dep n.depends_on ≡ true) grown m)) [
                        | inl before ↦ dag.inside id old dep here before
                        | inr added ↦ elim ((contains_cons dep from []).0 added) [
                          | inl is ↦ subst (λ i. contains i (keys nodes) ≡ true) (sym is) known
                          | inr never ↦ absurd (contains-nil dep never)
                        ]
                      ]
                | inr kept ↦
                    dag.inside id old dep here
                      (subst (λ (n : DagNode fl). contains dep n.depends_on ≡ true) kept m)
              ]);
      }
