-- ===== src/Dag/Loop.antt =====
-- src/dag.rs: the loop over the waves of DagExecutor::execute ends with every node run.
use helix_router_adaptive_as.Common.{
  ℕ, zero, suc, ◌≤◌, Bool, true, not, List, [], ◌∷◌, Option, some, ◌⊎◌, inl, inr, length,
  length-retain-le, retain, nat_key, ◌≡◌, ◌≢◌, refl, ap, ◌∙◌, arith,
}
use helix_router_adaptive_as.Common.Maps.{Map}
use helix_router_adaptive_as.Common.Sets.{contains_cons}
use helix_router_adaptive_as.Floats.{Floats}
use helix_router_adaptive_as.Types.{Job}
use helix_router_adaptive_as.Dag.{DagNode, DagError}
use helix_router_adaptive_as.Dag.Steps.{ready, all_deps_done_iff, split_ready_lem}
use helix_router_adaptive_as.Dag.Join.{ArrivalLaws}
use helix_router_adaptive_as.Dag.Waves.{Ran, wave, rest, found, run_wave_lem}
use helix_router_adaptive_as.Dag.Execute.{
  TaskOutcome, panicked, Progress, split_ready, run_wave, next_wave, waves,
}

retain-first :
    (p : ℕ → Bool) (x : ℕ) (xs : List ℕ) → p x ≡ true → retain p (x ∷ xs) ≡ x ∷ retain p xs
retain-first p x xs h = ground arith

length-retain_first :
    (p : ℕ → Bool) (x : ℕ) (xs : List ℕ)
    → p x ≡ true
    → length (retain (λ y. not (p y)) (x ∷ xs)) ≤ length xs
length-retain_first p x xs h = ground (arith, length-retain-le (λ y. not (p y)) xs)

module _ {fl : Floats} (nodes : Map ℕ (DagNode fl)) (outcome : ℕ → Job fl → TaskOutcome fl)
    (runs : (id : ℕ) (job : Job fl) → outcome id job ≢ panicked)
    {arrival : List (ℕ × Job fl) → List (ℕ × Job fl)} (arrives : ArrivalLaws arrival) where
  -- The first that remains is ready.
  first-ready :
      (st : Progress fl) (x : ℕ) (xs : List ℕ)
      → Ran nodes outcome st (x ∷ xs)
      → ready st.completed st.nodes_map x ≡ true
  first-ready st x xs h =
      let (node, there, here) =
        found nodes outcome runs st (x ∷ xs) h x ((contains_cons x x xs).1 (inl refl)) in
      let met =
        (all_deps_done_iff st.completed node.depends_on).1
          (λ dep needs. h.later.0 node dep here needs) in
      ground (arith, there)

  next_wave-goes :
      (go_on : Progress fl → List ℕ → Option (DagError ⊎ Progress fl)) (st st' : Progress fl)
      (w n ys : List ℕ) (y : ℕ)
      → w ≡ y ∷ ys
      → run_wave outcome arrival st w ≡ inr st'
      → next_wave outcome arrival go_on st (inr (record { wave = w; next_remaining = n }))
        ≡ go_on st' n
  unfolding next_wave
  next_wave-goes go_on st st' [] n ys y e h = cc
  next_wave-goes go_on st st' (z ∷ zs) n ys y e h = rw (h, next_wave) refl

  -- A round runs at least the first that remains, and never stops for want of progress.
  next_wave-Ran :
      (go_on : Progress fl → List ℕ → Option (DagError ⊎ Progress fl)) (st : Progress fl) (x : ℕ)
      (xs : List ℕ)
      → Ran nodes outcome st (x ∷ xs)
      → (st' : Progress fl) × (left : List ℕ) × (next_wave outcome arrival go_on st
            (split_ready st.completed st.nodes_map (x ∷ xs))
          ≡ go_on st' left)
        × Ran nodes outcome st' left
        × (length left ≤ length xs)
  next_wave-Ran go_on st x xs h =
      let first = first-ready st x xs h in
      let splits = split_ready_lem st.completed st.nodes_map (x ∷ xs) (λ id m gone.
        let (node, there, here) = found nodes outcome runs st (x ∷ xs) h id m in cc) in
      let (st', runs_it, ran) = run_wave_lem nodes outcome runs st (x ∷ xs) h arrives in
      (
        st',
        rest nodes outcome runs st (x ∷ xs) h,
        ap (next_wave outcome arrival go_on st) splits
            ∙ next_wave-goes go_on st st' (wave nodes outcome runs st (x ∷ xs) h)
                (rest nodes outcome runs st (x ∷ xs) h)
                (retain (ready st.completed st.nodes_map) xs) x
                (retain-first (ready st.completed st.nodes_map) x xs first) runs_it,
        ran,
        length-retain_first (ready st.completed st.nodes_map) x xs first,
      )

  pub waves_lem :
      (fuel : ℕ) (st : Progress fl) (remaining : List ℕ)
      → Ran nodes outcome st remaining
      → length remaining ≤ fuel
      → (st' : Progress fl) × (waves outcome arrival fuel st remaining ≡ some (inr st'))
        × Ran nodes outcome st' []
  unfolding waves
  waves_lem fuel st [] h enough = (st, refl, h)
  waves_lem zero st (x ∷ xs) h enough = absurd (omega arith)
  waves_lem (suc fuel) st (x ∷ xs) h enough =
      let (st1, left, goes, ran, fewer) = next_wave-Ran (waves outcome arrival fuel) st x xs h in
      let (st', ends, done) = waves_lem fuel st1 left ran (omega arith) in (st', goes ∙ ends, done)
