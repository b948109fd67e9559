-- ===== src/Dag/Fuel.antt =====
-- src/dag.rs: the fuel of the search for cycles is enough.
use helix_router_adaptive_as.Common.{
  ℕ, zero, suc, ◌≤◌, Bool, true, false, not, List, [], ◌∷◌, Option, some, ◌==◌, length, retain,
  nat_key, ◌≡◌, refl, inl, inr, arith, Bool-cases,
}
use helix_router_adaptive_as.Common.Maps.{Map, keys, length-keys}
use helix_router_adaptive_as.Common.Sets.{
  contains, contains_cons, missing, missing-cons, missing-le,
}
use helix_router_adaptive_as.Floats.{Floats}
use helix_router_adaptive_as.Dag.{
  DagNode, Cycles, entered, dependents_cyclic, dfs_has_cycle, any_cyclic, answer_of, has_cycle,
}

module _ {fl : Floats} (nodes : Map ℕ (DagNode fl)) where
  -- The nodes that are not visited.
  abbrev left : Cycles → ℕ
  left st = missing st.visited (keys nodes)

  -- A search that starts with at most `n` nodes not visited ends, and visits no fewer.
  abbrev Ends : ℕ → (ℕ → Cycles → Option Cycles) → Type 0
  Ends n dfs =
      (node : ℕ) (st : Cycles)
      → contains node (keys nodes) ≡ true
      → contains node st.visited ≡ false
      → left st ≤ n
      → (st' : Cycles) × (dfs node st ≡ some st') × (left st' ≤ left st)

  dependents_cyclic-Ends :
      (n : ℕ) (dfs : ℕ → Cycles → Option Cycles)
      → Ends n dfs
      → (node : ℕ) (rest : Map ℕ (DagNode fl)) (st : Cycles)
      → ((v : ℕ) → contains v (keys rest) ≡ true → contains v (keys nodes) ≡ true)
      → left st ≤ n
      → (st' : Cycles) × (dependents_cyclic dfs node rest st ≡ some st') × (left st' ≤ left st)
  unfolding dependents_cyclic
  dependents_cyclic-Ends n dfs ends node [] st sub small = (
    record st { in_stack = retain (λ n. not (n == node)) st.in_stack; cyclic = false },
    refl,
    omega arith,
  )
  dependents_cyclic-Ends n dfs ends node ((other, m) ∷ rest) st sub small =
      let tail = λ (v : ℕ) (i : contains v (keys rest) ≡ true).
        sub v ((contains_cons v other (keys rest)).1 (inr i)) in
      let (st2, goes_on, less) = dependents_cyclic-Ends n dfs ends node rest st tail small in
      elim (Bool-cases (contains node m.depends_on)) [
        | inr out ↦ (st2, rw out goes_on, less)
        | inl edge ↦ elim (Bool-cases (contains other st.visited)) [
          | inl seen ↦ elim (Bool-cases (contains other st.in_stack)) [
            | inl cycle ↦ (record st { cyclic = true }, rw (edge, seen, cycle) refl, omega arith)
            | inr done ↦ (st2, rw (edge, seen, done) goes_on, less)
          ]
          | inr new ↦
              let (st1, goes, fewer) =
                ends other st (sub other ((contains_cons other other (keys rest)).1 (inl refl))) new
                  small in
              let (st3, then_on, fewest) =
                dependents_cyclic-Ends n dfs ends node rest st1 tail (omega arith) in
              elim (Bool-cases st1.cyclic) [
                | inl cycle ↦ (st1, simp (edge, new, goes, cycle), fewer)
                | inr fine ↦ (st3, simp (edge, new, goes, fine, then_on), omega arith)
              ]
        ]
      ]

  left-entered :
      (node : ℕ) (st : Cycles)
      → contains node (keys nodes) ≡ true
      → contains node st.visited ≡ false
      → suc (left (entered node st)) ≤ left st
  left-entered node st inside new = rw new (missing-cons st.visited node (keys nodes) inside new)

  dfs_has_cycle-Ends : (n : ℕ) → Ends n (dfs_has_cycle n nodes)
  unfolding dfs_has_cycle
  dfs_has_cycle-Ends zero node st inside new small =
      absurd (omega (arith, left-entered node st inside new))
  dfs_has_cycle-Ends (suc n) node st inside new small =
      let less = left-entered node st inside new in
      let (st', ends, fewer) =
        dependents_cyclic-Ends n (dfs_has_cycle n nodes) (dfs_has_cycle-Ends n) node nodes
          (entered node st) (λ v m. m) (omega arith) in
      (st', ends, omega arith)

  any_cyclic-Ends :
      (n : ℕ) (dfs : ℕ → Cycles → Option Cycles)
      → Ends n dfs
      → (starts : List ℕ) (st : Cycles)
      → ((v : ℕ) → contains v starts ≡ true → contains v (keys nodes) ≡ true)
      → left st ≤ n
      → (st' : Cycles) × (any_cyclic dfs starts st ≡ some st')
  unfolding any_cyclic
  any_cyclic-Ends n dfs ends [] st sub small = (record st { cyclic = false }, refl)
  any_cyclic-Ends n dfs ends (x ∷ xs) st sub small =
      let tail = λ (v : ℕ) (i : contains v xs ≡ true). sub v ((contains_cons v x xs).1 (inr i)) in
      elim (Bool-cases (contains x st.visited)) [
        | inl seen ↦
            let (st2, goes_on) = any_cyclic-Ends n dfs ends xs st tail small in
            (st2, rw seen goes_on)
        | inr new ↦
            let (st1, goes, fewer) =
              ends x st (sub x ((contains_cons x x xs).1 (inl refl))) new small in
            let (st2, goes_on) = any_cyclic-Ends n dfs ends xs st1 tail (omega arith) in
            elim (Bool-cases st1.cyclic) [
              | inl cycle ↦ (st1, simp (new, goes, cycle))
              | inr fine ↦ (st2, simp (new, goes, fine, goes_on))
            ]
      ]

  -- The search for cycles ends within its fuel.
  pub has_cycle-some : (found : Bool) × (has_cycle nodes ≡ some found)
  unfolding has_cycle answer_of
  has_cycle-some =
      let start : Cycles = record { visited = []; in_stack = []; cyclic = false } in
      let (st, ends) =
        any_cyclic-Ends (length nodes) (dfs_has_cycle (length nodes) nodes)
          (dfs_has_cycle-Ends (length nodes)) (keys nodes) start (λ v m. m)
          (omega (arith, missing-le [] (keys nodes), length-keys nodes)) in
      (st.cyclic, rw ends refl)
