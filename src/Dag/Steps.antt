-- ===== src/Dag/Steps.antt =====
-- src/dag.rs: the parts of one round of DagExecutor::execute.
use helix_router_adaptive_as.Common.{
  ℕ, Bool, true, false, not, List, [], ◌∷◌, none, some, inl, inr, ◌==◌, retain, nat_key, ◌≡◌, ◌≢◌,
  refl, ap, sym, ◌∙◌, ◌↔◌, arith, Option-cases, Bool-cases,
}
use mathlib.Core.Option.{some-injective}
use helix_router_adaptive_as.Common.Maps.{Map, get, get_cons, delete, get-delete, keys}
use helix_router_adaptive_as.Common.Sets.{contains, contains_cons, contains-nil, distinct}
use helix_router_adaptive_as.Floats.{Floats}
use helix_router_adaptive_as.Types.{Job, Output}
use helix_router_adaptive_as.Dag.{DagNode}
use helix_router_adaptive_as.Dag.Execute.{
  TaskOutcome, finished, refused, panicked, all_deps_done, sorted_into, split_ready, dispatch,
}

pub different_key :
    (id v : ℕ) (ids : List ℕ) → contains id ids ≡ false → contains v ids ≡ true → id == v ≡ false
different_key id v ids new m = ground (arith, nat_key.same_iff id v)

module _ {fl : Floats} where
  abbrev pub outputs_from : TaskOutcome fl → List (Output fl)
  outputs_from (finished outputs) = outputs
  outputs_from refused = []
  outputs_from panicked = []

  abbrev pub is_refused : TaskOutcome fl → Bool
  is_refused (finished outputs) = false
  is_refused refused = true
  is_refused panicked = false

  -- Whether the dependencies of a node are met.
  abbrev pub ready : Map ℕ (List (Output fl)) → Map ℕ (DagNode fl) → ℕ → Bool
  ready completed nodes id = elim (get id nodes) [
    | none ↦ false
    | some node ↦ all_deps_done completed node.depends_on
  ]

  pub all_deps_done_iff :
      (completed : Map ℕ (List (Output fl))) (deps : List ℕ)
      → (all_deps_done completed deps ≡ true)
        ↔ ((dep : ℕ) → contains dep deps ≡ true → contains dep (keys completed) ≡ true)
  unfolding all_deps_done contains
  all_deps_done_iff completed [] = (λ h dep m. cc, λ h. refl)
  all_deps_done_iff completed (d ∷ deps) =
      let (there, back) = all_deps_done_iff completed deps in
      (
        λ h dep m. elim ((contains_cons dep d deps).0 m) [
          | inl same ↦ ground (arith, ap (λ x. contains x (keys completed)) same)
          | inr later ↦ there (ground arith) dep later
        ],
        λ h.
            let here = h d ((contains_cons d d deps).1 (inl refl)) in
            let rest = back (λ dep m. h dep ((contains_cons dep d deps).1 (inr m))) in ground arith,
      )

  -- The nodes are all found, so they are told apart by whether they are ready.
  pub split_ready_lem :
      (completed : Map ℕ (List (Output fl))) (nodes : Map ℕ (DagNode fl)) (ids : List ℕ)
      → ((id : ℕ) → contains id ids ≡ true → get id nodes ≢ none)
      → split_ready completed nodes ids
        ≡ inr (record {
          wave = retain (ready completed nodes) ids;
          next_remaining = retain (λ id. not (ready completed nodes id)) ids;
        })
  unfolding split_ready sorted_into
  split_ready_lem completed nodes [] found = refl
  split_ready_lem completed nodes (id ∷ ids) found = elim (Option-cases (get id nodes)) [
    | inl gone ↦ absurd (found id ((contains_cons id id ids).1 (inl refl)) gone)
    | inr (node, here) ↦
        let rest =
          split_ready_lem completed nodes ids
            (λ i m. found i ((contains_cons i id ids).1 (inr m))) in
        ground (arith, Bool-cases (all_deps_done completed node.depends_on))
  ]

  -- The jobs of different nodes that are all found, which leave the map.
  pub dispatch_lem :
      (nodes : Map ℕ (DagNode fl)) (wave : List ℕ)
      → distinct wave ≡ true
      → ((id : ℕ) → contains id wave ≡ true → get id nodes ≢ none)
      → (left : Map ℕ (DagNode fl)) × (jobs : List (ℕ × Job fl)) × (dispatch nodes wave
          ≡ inr (left, jobs))
        × (keys jobs ≡ wave)
        × ((v : ℕ) → contains v wave ≡ false → get v left ≡ get v nodes)
        × ((v : ℕ) (node : DagNode fl)
            → contains v wave ≡ true
            → get v nodes ≡ some node
            → get v jobs ≡ some node.job)
  unfolding dispatch distinct
  dispatch_lem nodes [] once found =
      (nodes, [], refl, refl, λ v m. refl, λ v node m. absurd (contains-nil v m))
  dispatch_lem nodes (id ∷ ids) once found = elim (Option-cases (get id nodes)) [
    | inl gone ↦ absurd (found id ((contains_cons id id ids).1 (inl refl)) gone)
    | inr (node, here) ↦
        let others =
          λ (v : ℕ) (m : contains v ids ≡ true). different_key id v ids (ground arith) m in
        let (left, jobs, runs, names, stays, sent) =
          dispatch_lem (delete id nodes) ids (ground arith) (λ v m gone.
            found v ((contains_cons v id ids).1 (inr m))
              (ground (arith, others v m, get-delete id v nodes))) in
        (
          left,
          (id, node.job) ∷ jobs,
          rw (here, dispatch) (rw runs refl),
          ap (λ l. id ∷ l) names,
          λ v m. ground (
            arith,
            stays v,
            get-delete id v nodes,
            contains_cons v id ids,
            nat_key.same_iff id v,
          ),
          λ v n m there. elim (Bool-cases (id == v)) [
            | inl same ↦
                let this : id ≡ v = (nat_key.same_iff id v).0 same in
                let found_node : node ≡ n =
                  some-injective node n (sym here ∙ ap (λ k. get k nodes) this ∙ there) in
                get_cons v id node.job jobs ∙ rw same (ap (λ x. some x.job) found_node)
            | inr other ↦
                get_cons v id node.job jobs
                ∙ rw other (
                    sent v n (ground (arith, contains_cons v id ids, nat_key.same_iff id v))
                      (get-delete id v nodes ∙ rw other there))
          ],
        )
  ]
