-- ===== src/Dag/Acyclic.antt =====
-- src/dag.rs: where the search for cycles finds none, the nodes can be numbered along the edges.
use helix_router_adaptive_as.Common.{
  ℕ, zero, suc, ◌<◌, true, false, List, [], ◌∷◌, Option, none, some, ◌==◌, if◌then◌else◌, length,
  nat_key, ◌≡◌, refl, ap, sym, subst, ◌∙◌, inl, inr, arith, Option-cases, Bool-cases,
}
use mathlib.Core.Option.{some-injective}
use helix_router_adaptive_as.Common.Maps.{Map, keys}
use helix_router_adaptive_as.Common.Sets.{contains, contains_cons, contains-nil, distinct}
use helix_router_adaptive_as.Floats.{Floats}
use helix_router_adaptive_as.Kahn.Count.{occ-contains}
use helix_router_adaptive_as.Dag.{
  DagNode, Cycles, entered, dependents, dfs_has_cycle, any_cyclic, answer_of, has_cycle,
}
use helix_router_adaptive_as.Dag.Degrees.{IsDag, occ-dependents}
use helix_router_adaptive_as.Dag.Order.{IsRank}
use helix_router_adaptive_as.Dag.Finished.{
  Closed, Good, Searches, Good-entered, dependents_cyclic-After, contains-with_member, true-false,
  none-some,
}

abbrev index : ℕ → List ℕ → ℕ
index v [] = 0
index v (x ∷ xs) = if x == v then 0 else suc (index v xs)

answer_of-some :
    (o : Option Cycles)
    → answer_of o ≡ some false
    → (st : Cycles) × (o ≡ some st) × (st.cyclic ≡ false)
unfolding answer_of
answer_of-some none h = absurd cc
answer_of-some (some st) h = (st, refl, some-injective _ _ h)

module _ {fl : Floats} (nodes : Map ℕ (DagNode fl)) where
  dfs_has_cycle-After : (fuel : ℕ) → Searches nodes (dfs_has_cycle fuel nodes)
  unfolding dfs_has_cycle
  dfs_has_cycle-After zero node st st' fin h new e ok = absurd cc
  dfs_has_cycle-After (suc fuel) node st st' fin h new e ok =
      let inner = Good-entered nodes node st fin new h in
      let (fin', after) =
        dependents_cyclic-After nodes (dfs_has_cycle fuel nodes) (dfs_has_cycle-After fuel) node
          nodes (entered node st) st' fin inner
          ((contains-with_member nodes node node st.in_stack).1 (inl refl)) (λ w m. inr m) e ok in
      (
        fin',
        record {
          good = after.good;
          more = after.more;
          here = after.here;
          stack = λ v.
              ground
                (arith, after.stack v, contains-with_member nodes v node st.in_stack, h.members v);
        },
      )

  started :
      (v x : ℕ) (xs fin : List ℕ)
      → contains x fin ≡ true
      → (contains v xs ≡ true → contains v fin ≡ true)
      → contains v (x ∷ xs) ≡ true
      → contains v fin ≡ true
  started v x xs fin here later m = ground (arith, contains_cons v x xs, ap (λ k. contains k fin))

  -- All nodes are finished in the end, and none is left on the stack.
  any_cyclic-Good :
      (dfs : ℕ → Cycles → Option Cycles)
      → Searches nodes dfs
      → (starts : List ℕ) (st st' : Cycles) (fin : List ℕ) → Good nodes st fin
      → ((v : ℕ) → contains v st.in_stack ≡ false)
      → any_cyclic dfs starts st ≡ some st'
      → st'.cyclic ≡ false
      → (fin' : List ℕ) × Closed nodes fin'
        × (distinct fin' ≡ true)
        × ((v : ℕ) → contains v fin ≡ true → contains v fin' ≡ true)
        × ((v : ℕ) → contains v starts ≡ true → contains v fin' ≡ true)
  unfolding any_cyclic
  any_cyclic-Good dfs searches [] st st' fin h off e ok =
      (fin, h.closed, h.once, λ v m. m, λ v m. absurd (contains-nil v m))
  any_cyclic-Good dfs searches (x ∷ xs) st st' fin h off e ok =
      elim (Bool-cases (contains x st.visited)) [
        | inl seen ↦
            let finished : contains x fin ≡ true = ground (arith, h.members x, off x) in
            let (fin', closed, once, more, all) =
              any_cyclic-Good dfs searches xs st st' fin h off (rw seen at e) ok in
            (fin', closed, once, more, λ v m. started v x xs fin' (more x finished) (all v) m)
        | inr new ↦ elim (Option-cases (dfs x st)) [
          | inl lost ↦ absurd (none-some (rw (new, lost) at e))
          | inr (st1, goes) ↦ elim (Bool-cases st1.cyclic) [
            | inl cycle ↦
                let stops = some-injective _ _ (rw (new, goes, cycle) at e) in
                absurd (true-false (ap (λ (s : Cycles). s.cyclic) stops ∙ ok))
            | inr fine ↦
                let (fin1, first) = searches x st st1 fin h new goes fine in
                let (fin', closed, once, more, all) =
                  any_cyclic-Good dfs searches xs st1 st' fin1 first.good
                    (λ v. ground (arith, first.stack v, off v))
                    (subst (λ s. any_cyclic dfs xs s ≡ some st')
                      (ap (λ b. record st1 { cyclic = b }) (sym fine)) (rw (new, goes, fine) at e))
                    ok in
                (
                  fin',
                  closed,
                  once,
                  λ v m. more v (first.more v m),
                  λ v m. started v x xs fin' (more x first.here) (all v) m,
                )
          ]
        ]
      ]

  -- A node that depends on another was finished before it.
  Closed-member :
      (fin : List ℕ) (dep v : ℕ)
      → Closed nodes fin
      → contains dep fin ≡ true
      → contains v (dependents nodes dep) ≡ true
      → contains v fin ≡ true
  Closed-member [] dep v closed m edge = absurd (contains-nil dep m)
  Closed-member (x ∷ xs) dep v closed m edge = elim ((contains_cons dep x xs).0 m) [
    | inl same ↦
        (contains_cons v x xs).1
          (inr (closed.0 v (subst (λ k. contains v (dependents nodes k) ≡ true) same edge)))
    | inr there ↦ (contains_cons v x xs).1 (inr (Closed-member xs dep v closed.1 there edge))
  ]

  index-rises :
      (fin : List ℕ) (dep v : ℕ)
      → Closed nodes fin
      → distinct fin ≡ true
      → contains dep fin ≡ true
      → contains v (dependents nodes dep) ≡ true
      → index dep fin < index v fin
  unfolding distinct
  index-rises [] dep v closed once m edge = absurd (contains-nil dep m)
  index-rises (x ∷ xs) dep v closed once m edge = elim (Bool-cases (x == dep)) [
    | inl same ↦
        let here : x ≡ dep = (nat_key.same_iff x dep).0 same in
        let before =
          closed.0 v (subst (λ k. contains v (dependents nodes k) ≡ true) (sym here) edge) in
        ground (arith, before, nat_key.same_iff x v, ap (λ k. contains k xs))
    | inr other ↦
        let there : contains dep xs ≡ true =
          ground (arith, contains_cons dep x xs, nat_key.same_iff x dep) in
        let v_there = Closed-member xs dep v closed.1 there edge in
        ground (
          arith,
          index-rises xs dep v closed.1 (ground arith) there edge,
          nat_key.same_iff x v,
          ap (λ k. contains k xs),
        )
  ]

  -- If the search for cycles finds none, there is no cycle.
  pub has_cycle-IsRank :
      IsDag nodes → has_cycle nodes ≡ some false → (rank : ℕ → ℕ) × IsRank nodes rank
  unfolding has_cycle contains distinct
  has_cycle-IsRank dag h =
      let (st, ends, ok) = answer_of-some _ h in
      let (fin, closed, once, more, all) =
        any_cyclic-Good (dfs_has_cycle (length nodes) nodes) (dfs_has_cycle-After (length nodes))
          (keys nodes) (record { visited = []; in_stack = []; cyclic = false }) st []
          (record { closed = tt; once = refl; members = λ v. ground arith; apart = λ v m. refl })
          (λ v. refl) ends ok in
      (
        λ v. index v fin,
        λ v dep node here needs.
            index-rises fin dep v closed once (all dep (dag.inside v node dep here needs)) (
              occ-contains v (dependents nodes dep)
                (ground (arith, occ-dependents nodes dep v node dag.once here))),
      )
