-- ===== src/Dag/Waves.antt =====
-- src/dag.rs: the waves of DagExecutor::execute on a graph with a topological order.
use helix_router_adaptive_as.Common.{
  ℕ, ◌+◌, Bool, true, false, not, List, [], ◌∷◌, ◌++◌, none, some, ◌⊎◌, inl, inr, retain, count_if,
  count_if-append, nat_key, ◌≡◌, ◌≢◌, refl, ap, sym, ◌∙◌, ◌↔◌, arith, Bool-cases,
}
use helix_router_adaptive_as.Common.Maps.{
  Map, get, get_present, get-head, get-tail, contains-keys_same, keys,
}
use helix_router_adaptive_as.Common.Sets.{
  contains, contains-append, contains_cons, contains-retain, distinct, distinct-retain,
  distinct-appended,
}
use helix_router_adaptive_as.Floats.{Floats}
use helix_router_adaptive_as.Types.{Job}
use helix_router_adaptive_as.Dag.{DagNode}
use helix_router_adaptive_as.Dag.Order.{AfterDependencies}
use helix_router_adaptive_as.Dag.After.{After-append, After-retain, After-met}
use helix_router_adaptive_as.Dag.Steps.{
  outputs_from, is_refused, ready, all_deps_done_iff, dispatch_lem, different_key,
}
use helix_router_adaptive_as.Dag.Join.{ArrivalLaws, refusals, join_next_lem}
use helix_router_adaptive_as.Dag.Execute.{TaskOutcome, panicked, Progress, run_wave}

module _ {fl : Floats} (nodes : Map ℕ (DagNode fl)) (outcome : ℕ → Job fl → TaskOutcome fl) where
  -- Whether the router drops the job of a node.
  abbrev pub refused_at : ℕ → Bool
  refused_at id = elim (get id nodes) [
    | none ↦ false
    | some node ↦ is_refused (outcome id node.job)
  ]

  refusals-keys :
      (jobs : List (ℕ × Job fl))
      → distinct (keys jobs) ≡ true
      → ((v : ℕ)
          → contains v (keys jobs) ≡ true
          → (node : DagNode fl) × (get v nodes ≡ some node) × (get v jobs ≡ some node.job))
      → count_if (λ (id, job). is_refused (outcome id job)) jobs ≡ count_if refused_at (keys jobs)
  unfolding distinct
  refusals-keys [] once found = refl
  refusals-keys ((id, job) ∷ jobs) once found =
      let (node, here, this) = found id ((contains_cons id id (keys jobs)).1 (inl refl)) in
      let same : job ≡ node.job = get-head id job node.job jobs this in
      let rest = refusals-keys jobs (ground arith) (λ v m.
        let (n, there, that) = found v ((contains_cons v id (keys jobs)).1 (inr m)) in
        (
          n,
          there,
          get-tail id v job n.job jobs (different_key id v (keys jobs) (ground arith) m) that,
        )) in
      ground (arith, rest, ap (λ j. is_refused (outcome id j)) same)

  -- Between two waves: what has completed, and what remains in order.
  pub record Ran (st : Progress fl) (remaining : List ℕ) : Type 0 where
    pub once : distinct (keys st.completed) ≡ true
    pub sorted : AfterDependencies nodes [] (keys st.completed)
    pub later : AfterDependencies nodes (keys st.completed) remaining
    pub different : distinct remaining ≡ true
    pub apart : (v : ℕ) → contains v remaining ≡ true → contains v (keys st.completed) ≡ false
    pub kept : (v : ℕ) → contains v remaining ≡ true → get v st.nodes_map ≡ get v nodes
    pub all_nodes :
        (v : ℕ)
        → (contains v (keys nodes) ≡ true)
          ↔ ((contains v (keys st.completed) ≡ true) ⊎ (contains v remaining ≡ true))
    pub outputs :
        (v : ℕ) (node : DagNode fl)
        → get v nodes ≡ some node
        → contains v (keys st.completed) ≡ true
        → get v st.completed ≡ some (outputs_from (outcome v node.job))
    pub dropped : st.nodes_dropped ≡ count_if refused_at (keys st.completed)

  module _ (runs : (id : ℕ) (job : Job fl) → outcome id job ≢ panicked) (st : Progress fl)
      (remaining : List ℕ) (h : Ran st remaining) where
    abbrev pub is_ready : ℕ → Bool
    is_ready = ready st.completed st.nodes_map

    abbrev pub wave : List ℕ
    wave = retain is_ready remaining

    abbrev pub rest : List ℕ
    rest = retain (λ id. not (is_ready id)) remaining

    pub found :
        (id : ℕ)
        → contains id remaining ≡ true
        → (node : DagNode fl) × (get id st.nodes_map ≡ some node) × (get id nodes ≡ some node)
    found id m =
        let (node, here) = get_present id nodes ((h.all_nodes id).1 (inr m)) in
        (node, h.kept id m ∙ here, here)

    -- A node that is ready has its dependencies among the completed.
    ready-met :
        (v : ℕ) (node : DagNode fl) (dep : ℕ)
        → contains v wave ≡ true
        → get v nodes ≡ some node
        → contains dep node.depends_on ≡ true
        → contains dep (keys st.completed) ≡ true
    ready-met v node dep m here needs =
        let (inside, passes) = (contains-retain is_ready v remaining).0 m in
        let met =
          (all_deps_done_iff st.completed node.depends_on).0
            (ground (arith, h.kept v inside, here)) in
        met dep needs

    arrived_names :
        (v : ℕ) (arrived jobs : List (ℕ × Job fl)) (names : List ℕ)
        → get v arrived ≡ get v jobs
        → keys jobs ≡ names
        → contains v (keys arrived) ≡ contains v names
    arrived_names v arrived jobs names same e = ground (
      arith,
      contains-keys_same v arrived jobs same,
      contains-keys_same v jobs arrived (sym same),
      ap (λ l. contains v l) e,
    )

    -- What the parts of a round say of the progress after it.
    Ran-wave :
        (st' : Progress fl) (left : Map ℕ (DagNode fl)) (jobs : List (ℕ × Job fl))
        → distinct (keys jobs) ≡ true
        → ((v : ℕ) → contains v (keys jobs) ≡ contains v wave)
        → ((v : ℕ) → contains v wave ≡ false → get v left ≡ get v st.nodes_map)
        → ((v : ℕ) (node : DagNode fl)
            → contains v wave ≡ true
            → get v st.nodes_map ≡ some node
            → get v jobs ≡ some node.job)
        → keys st'.completed ≡ keys st.completed ++ keys jobs
        → st'.nodes_map ≡ left
        → st'.nodes_dropped ≡ st.nodes_dropped + refusals outcome runs jobs
        → ((v : ℕ) → contains v (keys jobs) ≡ false → get v st'.completed ≡ get v st.completed)
        → ((v : ℕ) (job : Job fl)
            → get v jobs ≡ some job
            → get v st'.completed ≡ some (outputs_from (outcome v job)))
        → Ran st' rest
    Ran-wave st' left jobs single names stays sent done same_map count old gives =
        let in_wave = λ (v : ℕ). contains-retain is_ready v remaining in
        let in_rest = λ (v : ℕ). contains-retain (λ id. not (is_ready id)) v remaining in
        let in_done = λ (v : ℕ). contains-append v (keys st.completed) (keys jobs) in
        let now = λ (v : ℕ). ap (λ l. contains v l) done in
        record {
          once = rw done (
              distinct-appended (keys st.completed) (keys jobs) h.once single
                (λ w m. h.apart w ((in_wave w).0 (sym (names w) ∙ m)).0));
          sorted = rw done (
              After-append nodes [] (keys st.completed) (keys jobs) h.sorted (
                After-met nodes (keys st.completed) (keys jobs)
                  (λ v node dep m. ready-met v node dep (sym (names v) ∙ m))));
          later =
              After-retain nodes (λ id. not (is_ready id)) (keys st.completed) (keys st'.completed)
                remaining (λ w m. ground (arith, in_done w, now w))
                (λ w m out. ground (arith, in_done w, now w, in_wave w, names w)) h.later;
          different = distinct-retain (λ id. not (is_ready id)) remaining h.different;
          apart = λ v m. ground (arith, in_done v, now v, in_wave v, names v, in_rest v, h.apart v);
          kept = λ v m.
              let here = h.kept v ((in_rest v).0 m).0 in
              let out = stays v (ground (arith, in_wave v, in_rest v)) in
              ap (λ l. get v l) same_map ∙ out ∙ here;
          all_nodes =
              λ v. ground (arith, in_done v, now v, in_wave v, names v, in_rest v, h.all_nodes v);
          outputs = λ v node here m. elim (Bool-cases (contains v wave)) [
            | inl new ↦ gives v node.job (sent v node new (h.kept v ((in_wave v).0 new).0 ∙ here))
            | inr before ↦
                old v (names v ∙ before)
                ∙ h.outputs v node here (ground (arith, in_done v, now v, names v))
          ];
          dropped =
              let these = refusals-keys jobs single (λ v m.
                let new : contains v wave ≡ true = sym (names v) ∙ m in
                let (node, there, here) = found v ((in_wave v).0 new).0 in
                (node, here, sent v node new there)) in
              ground (
                arith,
                count,
                these,
                h.dropped,
                ap (λ l. count_if refused_at l) done,
                count_if-append refused_at (keys st.completed) (keys jobs),
              );
        }

    pub run_wave_lem :
        {arrival : List (ℕ × Job fl) → List (ℕ × Job fl)} (arrives : ArrivalLaws arrival)
        → (st' : Progress fl) × (run_wave outcome arrival st wave ≡ inr st') × Ran st' rest
    unfolding run_wave
    run_wave_lem {arrival} arrives =
        let in_wave = λ (v : ℕ). contains-retain is_ready v remaining in
        let once = distinct-retain is_ready remaining h.different in
        let (left, jobs, sends, names, stays, sent) =
          dispatch_lem st.nodes_map wave once
            (λ v m gone. let (node, there, here) = found v ((in_wave v).0 m).0 in cc) in
        let all_once : distinct (keys jobs) ≡ true = rw names once in
        let arrived = arrival jobs in
        let same = λ (v : ℕ). arrives.each jobs v all_once in
        let members = λ (v : ℕ). arrived_names v arrived jobs wave (same v) names in
        let (st', joins, done, same_map, count, old, gives) =
          join_next_lem outcome runs arrived (record st { nodes_map = left })
            (arrives.once jobs all_once)
            (λ v m. h.apart v ((in_wave v).0 (sym (members v) ∙ m)).0) in
        (
          st',
          rw (sends, run_wave) joins,
          Ran-wave st' left arrived (arrives.once jobs all_once) members stays
              (λ v node m there. same v ∙ sent v node m there) done same_map count old gives,
        )
