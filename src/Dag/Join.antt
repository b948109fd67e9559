-- ===== src/Dag/Join.antt =====
-- src/dag.rs: how DagExecutor::execute collects the outcomes of a wave.
use helix_router_adaptive_as.Common.{
  ℕ, suc, ◌+◌, true, false, List, [], ◌∷◌, ◌++◌, some, inl, inr, if◌then◌else◌, count_if, nat_key,
  ◌≡◌, ◌≢◌, refl, ap, ap₂, sym, subst, ◌∙◌, arith, append_assoc, append-nil,
}
use helix_router_adaptive_as.Common.Maps.{
  get, get-nil, get-some_cons, keys-insert, insert, get-insert, keys,
}
use helix_router_adaptive_as.Common.Sets.{
  contains, contains-append, contains_cons, contains-nil, distinct,
}
use helix_router_adaptive_as.Floats.{Floats}
use helix_router_adaptive_as.Types.{Job}
use helix_router_adaptive_as.Dag.Steps.{outputs_from, is_refused, different_key}
use helix_router_adaptive_as.Dag.Execute.{
  TaskOutcome, finished, refused, panicked, Progress, join_next,
}

-- Each task of a wave arrives once.
pub record ArrivalLaws {fl : Floats} (arrival : List (ℕ × Job fl) → List (ℕ × Job fl))
    : Type 0 where
  pub once :
      (jobs : List (ℕ × Job fl))
      → distinct (keys jobs) ≡ true
      → distinct (keys (arrival jobs)) ≡ true
  pub each :
      (jobs : List (ℕ × Job fl)) (v : ℕ)
      → distinct (keys jobs) ≡ true
      → get v (arrival jobs) ≡ get v jobs

module _ {fl : Floats} where
  -- The progress with the outcome of one task.
  abbrev pub settled : ℕ → TaskOutcome fl → Progress fl → Progress fl
  settled id o st = record st {
    completed = insert id (outputs_from o) st.completed;
    nodes_dropped = if is_refused o then suc st.nodes_dropped else st.nodes_dropped;
  }

  module _ (outcome : ℕ → Job fl → TaskOutcome fl)
      (runs : (id : ℕ) (job : Job fl) → outcome id job ≢ panicked) where
    abbrev pub refusals : List (ℕ × Job fl) → ℕ
    refusals jobs = count_if (λ (id, job). is_refused (outcome id job)) jobs

    settled-cases :
        (id : ℕ) (job : Job fl) (jobs : List (ℕ × Job fl)) (st : Progress fl) (o : TaskOutcome fl)
        → outcome id job ≡ o
        → o ≢ panicked
        → join_next outcome st ((id, job) ∷ jobs) ≡ join_next outcome (settled id o st) jobs
    unfolding join_next
    settled-cases id job jobs st (finished outputs) e ok = rw (e, join_next) refl
    settled-cases id job jobs st refused e ok = rw (e, join_next) refl
    settled-cases id job jobs st panicked e ok = absurd (ok refl)

    -- The outcomes of jobs of different nodes, none of which had completed before.
    pub join_next_lem :
        (jobs : List (ℕ × Job fl)) (st : Progress fl)
        → distinct (keys jobs) ≡ true
        → ((v : ℕ) → contains v (keys jobs) ≡ true → contains v (keys st.completed) ≡ false)
        → (st' : Progress fl) × (join_next outcome st jobs ≡ inr st')
          × (keys st'.completed ≡ keys st.completed ++ keys jobs)
          × (st'.nodes_map ≡ st.nodes_map)
          × (st'.nodes_dropped ≡ st.nodes_dropped + refusals jobs)
          × ((v : ℕ) → contains v (keys jobs) ≡ false → get v st'.completed ≡ get v st.completed)
          × ((v : ℕ) (job : Job fl)
              → get v jobs ≡ some job
              → get v st'.completed ≡ some (outputs_from (outcome v job)))
    unfolding distinct join_next
    join_next_lem [] st once new = (
      st,
      refl,
      sym (append-nil (keys st.completed)),
      refl,
      omega arith,
      λ v m. refl,
      λ v job h. absurd (get-nil v job h),
    )
    join_next_lem ((id, job) ∷ jobs) st once new =
        let o = outcome id job in
        let st1 = settled id o st in
        let first_new = new id ((contains_cons id id (keys jobs)).1 (inl refl)) in
        let now = keys-insert id (outputs_from o) st.completed first_new in
        let apart = λ (v : ℕ) (m : contains v (keys jobs) ≡ true).
          different_key id v (keys jobs) (ground arith) m in
        let (st', ends, names, same_map, dropped, stays, gives) =
          join_next_lem jobs st1 (ground arith) (λ v m.
            let old = new v ((contains_cons v id (keys jobs)).1 (inr m)) in
            ground (
              arith,
              ap (λ l. contains v l) now,
              contains-append v (keys st.completed) (id ∷ []),
              contains_cons v id [],
              contains-nil v,
              apart v m,
              nat_key.same_iff id v,
            )) in
        (
          st',
          settled-cases id job jobs st o refl (runs id job) ∙ ends,
          names
              ∙ ap (λ l. l ++ keys jobs) now
              ∙ append_assoc (keys st.completed) (id ∷ []) (keys jobs),
          same_map,
          ground (arith, dropped),
          λ v m. ground (
            arith,
            stays v,
            get-insert id v (outputs_from o) st.completed,
            contains_cons v id (keys jobs),
            nat_key.same_iff id v,
          ),
          λ v j h. elim (get-some_cons v id j job jobs h) [
            | inl (here, this) ↦
                let not_later : contains v (keys jobs) ≡ false =
                  subst (λ k. contains k (keys jobs) ≡ false) here (ground arith) in
                stays v not_later
                ∙ get-insert id v (outputs_from o) st.completed
                ∙ rw ((nat_key.same_iff id v).1 here)
                    (ap₂ (λ k x. some (outputs_from (outcome k x))) here this)
            | inr (other, there) ↦ gives v j there
          ],
        )
