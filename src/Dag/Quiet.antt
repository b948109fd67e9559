-- ===== src/Dag/Quiet.antt =====
-- src/dag.rs: where the nodes can be numbered along the edges, the search for cycles finds none.
use helix_router_adaptive_as.Common.{
  ℕ, zero, suc, ◌<◌, ◌≤◌, true, false, not, List, [], ◌∷◌, Option, none, some, ◌==◌, All, retain,
  length, nat_key, ◌≡◌, ◌≢◌, refl, ap, sym, subst, inl, inr, arith, Option-cases, Bool-cases,
}
use mathlib.Core.Option.{some-injective}
use helix_router_adaptive_as.Common.Maps.{Map, get, keys, get-here, get-later}
use helix_router_adaptive_as.Common.Sets.{contains, contains-retain, distinct}
use helix_router_adaptive_as.Floats.{Floats}
use helix_router_adaptive_as.Dag.{
  DagNode, Cycles, entered, dfs_has_cycle, dependents_cyclic, any_cyclic, answer_of, has_cycle,
}
use helix_router_adaptive_as.Dag.Order.{IsRank}
use helix_router_adaptive_as.Dag.Finished.{contains-with_member, none-some}

-- What holds of the entry of every key holds of each entry.
All-get :
    {V : Type 0} (P : ℕ → V → Type 0) (m : Map ℕ V)
    → distinct (keys m) ≡ true
    → ((k : ℕ) (v : V) → get k m ≡ some v → P k v)
    → All (λ (e : ℕ × V). P e.0 e.1) m
unfolding distinct
All-get P [] once h = tt
All-get P ((k, v) ∷ m) once h = (
  h k v (get-here k v m),
  All-get P m (ground arith) (λ j w there. h j w (get-later k j v w m (ground arith) there)),
)

off_stack :
    (node v : ℕ) (stack : List ℕ)
    → contains v (retain (λ n. not (n == node)) stack) ≡ true
    → (contains v stack ≡ true) × (v ≢ node)
off_stack node v stack m =
    let (there, other) = (contains-retain (λ n. not (n == node)) v stack).0 m in
    (there, ground (arith, nat_key.same_iff v node))

same_cycles : (st : Cycles) → st.cyclic ≡ false → record st { cyclic = false } ≡ st
same_cycles st fine = ap (λ b. record st { cyclic = b }) (sym fine)

module _ (rank : ℕ → ℕ) where
  -- A search that ends without a cycle and leaves no new node on the stack, where every node on the
  -- stack ranks before the one searched.
  abbrev Quiet : (ℕ → Cycles → Option Cycles) → Type 0
  Quiet dfs =
      (node : ℕ) (st st' : Cycles)
      → ((v : ℕ) → contains v st.in_stack ≡ true → rank v < rank node)
      → dfs node st ≡ some st'
      → (st'.cyclic ≡ false)
        × ((v : ℕ) → contains v st'.in_stack ≡ true → contains v st.in_stack ≡ true)

module _ {fl : Floats} (rank : ℕ → ℕ) where
  -- An edge from `node` leads to a node of a higher rank.
  abbrev Rises : ℕ → ℕ → DagNode fl → Type 0
  Rises node other_id other_node =
      contains node other_node.depends_on ≡ true → rank node < rank other_id

  dependents_cyclic-Quiet :
      (dfs : ℕ → Cycles → Option Cycles) (node : ℕ) (rest : Map ℕ (DagNode fl)) (st st' : Cycles)
      → Quiet rank dfs
      → All (λ (e : ℕ × DagNode fl). Rises node e.0 e.1) rest
      → ((v : ℕ) → contains v st.in_stack ≡ true → rank v ≤ rank node)
      → dependents_cyclic dfs node rest st ≡ some st'
      → (st'.cyclic ≡ false)
        × ((v : ℕ) → contains v st'.in_stack ≡ true → (contains v st.in_stack ≡ true) × (v ≢ node))
  unfolding dependents_cyclic
  dependents_cyclic-Quiet dfs node [] st st' quiet rises low e =
      let same = some-injective _ _ e in
      (
        sym (ap (λ (s : Cycles). s.cyclic) same),
        λ v m.
            off_stack node v st.in_stack
              (subst (λ (s : Cycles). contains v s.in_stack ≡ true) (sym same) m),
      )
  dependents_cyclic-Quiet dfs node ((i, other) ∷ rest) st st' quiet rises low e =
      elim (Bool-cases (contains node other.depends_on)) [
        | inr apart ↦ dependents_cyclic-Quiet dfs node rest st st' quiet rises.1 low (rw apart at e)
        | inl edge ↦
            let up = rises.0 edge in
            elim (Bool-cases (contains i st.visited)) [
              | inl seen ↦ elim (Bool-cases (contains i st.in_stack)) [
                | inl on ↦ let below = low i on in absurd (omega arith)
                | inr off ↦
                    dependents_cyclic-Quiet dfs node rest st st' quiet rises.1 low
                      (rw (edge, seen, off) at e)
              ]
              | inr new ↦ elim (Option-cases (dfs i st)) [
                | inl lost ↦ absurd (none-some (rw (edge, new, lost) at e))
                | inr (st1, goes) ↦
                    let (fine, fewer) = quiet i st st1 (λ v m. omega (arith, low v m)) goes in
                    let (ok, left) =
                      dependents_cyclic-Quiet dfs node rest st1 st' quiet rises.1
                        (λ v m. low v (fewer v m))
                        (subst (λ s. dependents_cyclic dfs node rest s ≡ some st')
                          (same_cycles st1 fine) (rw (edge, new, goes, fine) at e)) in
                    (ok, λ v m. (fewer v (left v m).0, (left v m).1))
              ]
            ]
      ]

  module _ (nodes : Map ℕ (DagNode fl)) (once : distinct (keys nodes) ≡ true)
      (ranked : IsRank nodes rank) where
    dfs_has_cycle-Quiet : (fuel : ℕ) → Quiet rank (dfs_has_cycle fuel nodes)
    unfolding dfs_has_cycle
    dfs_has_cycle-Quiet zero node st st' low e = absurd cc
    dfs_has_cycle-Quiet (suc fuel) node st st' low e =
        let (ok, left) =
          dependents_cyclic-Quiet (dfs_has_cycle fuel nodes) node nodes (entered node st) st'
            (dfs_has_cycle-Quiet fuel)
            (All-get (Rises node) nodes once (λ i other here needs. ranked i node other here needs))
            (λ v m. elim ((contains-with_member nodes v node st.in_stack).0 m) [
              | inl same ↦ omega (arith, ap rank same)
              | inr there ↦ omega (arith, low v there)
            ])
            e in
        (
          ok,
          λ v m. elim ((contains-with_member nodes v node st.in_stack).0 (left v m).0) [
            | inl same ↦ absurd ((left v m).1 same)
            | inr there ↦ there
          ],
        )

    any_cyclic-Quiet :
        (dfs : ℕ → Cycles → Option Cycles) (starts : List ℕ) (st st' : Cycles)
        → Quiet rank dfs
        → ((v : ℕ) → contains v st.in_stack ≡ false)
        → any_cyclic dfs starts st ≡ some st'
        → st'.cyclic ≡ false
    unfolding any_cyclic
    any_cyclic-Quiet dfs [] st st' quiet off e =
        sym (ap (λ (s : Cycles). s.cyclic) (some-injective _ _ e))
    any_cyclic-Quiet dfs (x ∷ xs) st st' quiet off e = elim (Bool-cases (contains x st.visited)) [
      | inl seen ↦ any_cyclic-Quiet dfs xs st st' quiet off (rw seen at e)
      | inr new ↦ elim (Option-cases (dfs x st)) [
        | inl lost ↦ absurd (none-some (rw (new, lost) at e))
        | inr (st1, goes) ↦
            let (fine, fewer) = quiet x st st1 (λ v m. absurd (ground (arith, off v))) goes in
            any_cyclic-Quiet dfs xs st1 st' quiet (λ v. ground (arith, fewer v, off v))
              (subst (λ s. any_cyclic dfs xs s ≡ some st') (same_cycles st1 fine)
                (rw (new, goes, fine) at e))
      ]
    ]

    answer-quiet :
        (o : Option Cycles)
        → ((st : Cycles) → o ≡ some st → st.cyclic ≡ false)
        → answer_of o ≢ some true
    unfolding answer_of
    answer-quiet none h e = cc
    answer-quiet (some st) h e = ground (arith, h st refl, some-injective _ _ e)

    -- Nodes that can be numbered along the edges are not reported to have a cycle.
    pub IsRank-has_cycle : has_cycle nodes ≢ some true
    unfolding has_cycle contains
    IsRank-has_cycle = answer-quiet _ (λ st e.
        any_cyclic-Quiet (dfs_has_cycle (length nodes) nodes) (keys nodes)
          (record { visited = []; in_stack = []; cyclic = false }) st
          (dfs_has_cycle-Quiet (length nodes)) (λ v. refl) e)
