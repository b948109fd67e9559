-- ===== src/Dag/Finished.antt =====
-- src/dag.rs: what the search for cycles has finished where it has met none.
use helix_router_adaptive_as.Common.{
  ℕ, true, false, not, List, [], ◌∷◌, Option, none, some, ◌==◌, retain, nat_key, ◌≡◌, ◌≢◌, refl, ap,
  sym, subst, ◌∙◌, ◌↔◌, ◌⊎◌, inl, inr, arith, Option-cases, Bool-cases,
}
use mathlib.Core.Option.{some-injective}
use helix_router_adaptive_as.Common.Maps.{Map}
use helix_router_adaptive_as.Common.Sets.{
  contains, contains_cons, contains-nil, contains-retain, distinct, with_member,
}
use helix_router_adaptive_as.Floats.{Floats}
use helix_router_adaptive_as.Dag.{DagNode, Cycles, entered, dependents, dependents_cyclic}

pub true-false : true ≢ false
true-false h = cc

pub none-some : {st : Cycles} → none ≢ some st
none-some h = cc

module _ {fl : Floats} (nodes : Map ℕ (DagNode fl)) where
  -- The nodes that are finished, the last first: those that depend on one were finished before it.
  abbrev pub Closed : List ℕ → Type 0
  Closed [] = Unit
  Closed (v ∷ vs) =
      ((w : ℕ) → contains w (dependents nodes v) ≡ true → contains w vs ≡ true) × Closed vs

  -- What is visited is finished or on the stack, and not both.
  pub record Good (st : Cycles) (fin : List ℕ) : Type 0 where
    pub closed : Closed fin
    pub once : distinct fin ≡ true
    pub members :
        (v : ℕ)
        → (contains v st.visited ≡ true)
          ↔ ((contains v fin ≡ true) ⊎ (contains v st.in_stack ≡ true))
    pub apart : (v : ℕ) → contains v fin ≡ true → contains v st.in_stack ≡ false

  -- After a search from `node`: it is finished, and the stack is as it was.
  pub record After (node : ℕ) (st : Cycles) (fin : List ℕ) (st' : Cycles) (fin' : List ℕ)
      : Type 0 where
    pub good : Good st' fin'
    pub more : (v : ℕ) → contains v fin ≡ true → contains v fin' ≡ true
    pub here : contains node fin' ≡ true
    pub stack :
        (v : ℕ) → (contains v st'.in_stack ≡ true) ↔ ((contains v st.in_stack ≡ true) × (v ≢ node))

  pub contains-with_member :
      (v x : ℕ) (xs : List ℕ)
      → (contains v (with_member x xs) ≡ true) ↔ ((v ≡ x) ⊎ (contains v xs ≡ true))
  contains-with_member v x xs = elim (Bool-cases (contains x xs)) [
    | inl old ↦ rw old (ground (arith, ap (λ k. contains k xs)))
    | inr new ↦ rw new (contains_cons v x xs)
  ]

  pub Good-entered :
      (node : ℕ) (st : Cycles) (fin : List ℕ)
      → contains node st.visited ≡ false
      → Good st fin
      → Good (entered node st) fin
  Good-entered node st fin new h = record {
    closed = h.closed;
    once = h.once;
    members = λ v. ground (
      arith,
      h.members v,
      contains-with_member v node st.visited,
      contains-with_member v node st.in_stack,
    );
    apart =
        λ v m. ground (arith, h.apart v m, h.members v, contains-with_member v node st.in_stack);
  }

  -- The end of the loop over the dependents of a node, all of which are finished.
  After-left :
      (node : ℕ) (st : Cycles) (fin : List ℕ)
      → Good st fin
      → contains node st.in_stack ≡ true
      → ((w : ℕ) → contains w (dependents nodes node) ≡ true → contains w fin ≡ true)
      → After node st fin
          (record st { in_stack = retain (λ n. not (n == node)) st.in_stack; cyclic = false })
          (node ∷ fin)
  unfolding distinct
  After-left node st fin h on covered =
      let off = λ (v : ℕ). contains-retain (λ n. not (n == node)) v st.in_stack in
      record {
        good = record {
          closed = (covered, h.closed);
          once = ground (arith, h.apart node, h.once);
          members = λ v.
              ground (arith, h.members v, off v, contains_cons v node fin, nat_key.same_iff v node);
          apart = λ v m.
              ground (arith, h.apart v, off v, contains_cons v node fin, nat_key.same_iff v node);
        };
        more = λ v m. (contains_cons v node fin).1 (inr m);
        here = (contains_cons node node fin).1 (inl refl);
        stack = λ v. ground (arith, off v, nat_key.same_iff v node);
      }

  -- What a search from a node that is not visited leaves, if it ends and meets no cycle.
  abbrev pub Searches : (ℕ → Cycles → Option Cycles) → Type 0
  Searches dfs =
      (node : ℕ) (st st' : Cycles) (fin : List ℕ)
      → Good st fin
      → contains node st.visited ≡ false
      → dfs node st ≡ some st'
      → st'.cyclic ≡ false
      → (fin' : List ℕ) × After node st fin st' fin'

  After-trans :
      (node other : ℕ) (st st1 st' : Cycles) (fin fin1 fin' : List ℕ)
      → contains other st.in_stack ≡ false
      → After other st fin st1 fin1
      → After node st1 fin1 st' fin'
      → After node st fin st' fin'
  After-trans node other st st1 st' fin fin1 fin' off first second = record {
    good = second.good;
    more = λ v m. second.more v (first.more v m);
    here = second.here;
    stack = λ v. ground (arith, first.stack v, second.stack v);
  }

  grown :
      (w : ℕ) (fin fin1 others : List ℕ)
      → (contains w fin ≡ true) ⊎ (contains w others ≡ true)
      → (contains w fin ≡ true → contains w fin1 ≡ true)
      → (contains w fin1 ≡ true) ⊎ (contains w others ≡ true)
  grown w fin fin1 others (inl here) more = inl (more here)
  grown w fin fin1 others (inr later) more = inr later

  -- The node at the front is one of the dependents, and finished.
  met :
      (node w other : ℕ) (fin : List ℕ) (n : DagNode fl) (rest : Map ℕ (DagNode fl))
      → contains node n.depends_on ≡ true
      → contains other fin ≡ true
      → (contains w fin ≡ true) ⊎ (contains w (dependents ((other, n) ∷ rest) node) ≡ true)
      → (contains w fin ≡ true) ⊎ (contains w (dependents rest node) ≡ true)
  unfolding dependents contains
  met node w other fin n rest edge finished h =
      ground (arith, contains_cons w other (dependents rest node), ap (λ k. contains k fin))

  unmet :
      (node w other : ℕ) (fin : List ℕ) (n : DagNode fl) (rest : Map ℕ (DagNode fl))
      → contains node n.depends_on ≡ false
      → (contains w fin ≡ true) ⊎ (contains w (dependents ((other, n) ∷ rest) node) ≡ true)
      → (contains w fin ≡ true) ⊎ (contains w (dependents rest node) ≡ true)
  unfolding dependents
  unmet node w other fin n rest out h = ground arith

  on_and_off :
      (node other : ℕ) (stack : List ℕ)
      → contains node stack ≡ true
      → contains other stack ≡ false
      → node ≢ other
  on_and_off node other stack on off same =
      absurd (true-false (sym on ∙ ap (λ k. contains k stack) same ∙ off))

  pub dependents_cyclic-After :
      (dfs : ℕ → Cycles → Option Cycles)
      → Searches dfs
      → (node : ℕ) (rest : Map ℕ (DagNode fl)) (st st' : Cycles) (fin : List ℕ) → Good st fin
      → contains node st.in_stack ≡ true
      → ((w : ℕ)
          → contains w (dependents nodes node) ≡ true
          → (contains w fin ≡ true) ⊎ (contains w (dependents rest node) ≡ true))
      → dependents_cyclic dfs node rest st ≡ some st'
      → st'.cyclic ≡ false
      → (fin' : List ℕ) × After node st fin st' fin'
  unfolding dependents_cyclic dependents
  dependents_cyclic-After dfs searches node [] st st' fin h on covered e ok = (
    node ∷ fin,
    subst (λ s. After node st fin s (node ∷ fin)) (some-injective _ _ e)
        (After-left node st fin h on (λ w m. elim (covered w m) [
          | inl done ↦ done
          | inr nowhere ↦ absurd (contains-nil w nowhere)
        ])),
  )
  dependents_cyclic-After dfs searches node ((other, n) ∷ rest) st st' fin h on covered e ok =
      let go_on = dependents_cyclic-After dfs searches node rest in
      elim (Bool-cases (contains node n.depends_on)) [
        | inr out ↦
            go_on st st' fin h on (λ w m. unmet node w other fin n rest out (covered w m))
              (rw out at e) ok
        | inl edge ↦ elim (Bool-cases (contains other st.visited)) [
          | inl seen ↦ elim (Bool-cases (contains other st.in_stack)) [
            | inl cycle ↦
                let stops = some-injective _ _ (rw (edge, seen, cycle) at e) in
                absurd (true-false (ap (λ (s : Cycles). s.cyclic) stops ∙ ok))
            | inr done ↦
                let finished : contains other fin ≡ true = ground (arith, h.members other) in
                go_on st st' fin h on
                  (λ w m. met node w other fin n rest edge finished (covered w m))
                  (rw (edge, seen, done) at e) ok
          ]
          | inr new ↦ elim (Option-cases (dfs other st)) [
            | inl lost ↦ absurd (none-some (rw (edge, new, lost) at e))
            | inr (st1, goes) ↦ elim (Bool-cases st1.cyclic) [
              | inl cycle ↦
                  let stops = some-injective _ _ (rw (edge, new, goes, cycle) at e) in
                  absurd (true-false (ap (λ (s : Cycles). s.cyclic) stops ∙ ok))
              | inr fine ↦
                  let (fin1, first) = searches other st st1 fin h new goes fine in
                  let off : contains other st.in_stack ≡ false = ground (arith, h.members other) in
                  let still_on =
                    (first.stack node).1 (on, on_and_off node other st.in_stack on off) in
                  let (fin', second) =
                    go_on st1 st' fin1 first.good still_on
                      (λ w m. met node w other fin1 n rest edge first.here (
                        grown w fin fin1 (dependents ((other, n) ∷ rest) node) (covered w m)
                          (first.more w)))
                      (subst (λ s. dependents_cyclic dfs node rest s ≡ some st')
                        (ap (λ b. record st1 { cyclic = b }) (sym fine))
                        (rw (edge, new, goes, fine) at e))
                      ok in
                  (fin', After-trans node other st st1 st' fin fin1 fin' off first second)
            ]
          ]
        ]
      ]
