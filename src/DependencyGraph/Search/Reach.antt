-- ===== src/DependencyGraph/Search/Reach.antt =====
-- The searches of src/dependency_graph.rs as a whole: a loop ends, and what it has visited then is
-- what leads to the services it started from.
use helix_router_adaptive_as.Common.{
  ℕ, zero, suc, ◌≤◌, String, Bool, true, false, List, [], ◌∷◌, some, length, string_key, ◌≡◌, refl,
  ap, subst, ◌↔◌, ◌⊎◌, inl, inr, Option-cases, List-cases, arith,
}
use helix_router_adaptive_as.Common.Maps.{Map, get}
use helix_router_adaptive_as.Common.Sets.{contains, contains_cons, contains-nil, distinct}
use helix_router_adaptive_as.DependencyGraph.{or_empty}
use helix_router_adaptive_as.DependencyGraph.Search.{Search, scan, scan_found, expand, search}
use helix_router_adaptive_as.DependencyGraph.Search.Laws.{
  PutLaws, Impacted, hit, via, visited-scan, pending-scan, found-scan, work, work-scan, Distinct,
  Distinct-scan,
}

abbrev pub starts : List String → Search
starts start = record { visited = start; pending = start; found = [] }

module _ {put : String → List String → List String} (laws : PutLaws put)
    (reverse : Map String (List String)) where
  -- One round scans the services that are listed at the one that left.
  scan-expand :
      (s : Search) (current : String) (rest : List String)
      → expand put reverse s current rest
        ≡ scan put (record s { pending = rest }) (or_empty (get current reverse))
  unfolding expand scan_found scan
  scan-expand s current rest = ground (arith, Option-cases (get current reverse))

  -- An invariant that one round keeps holds at the end, where nothing waits.
  loop_rule {ℓ} :
      (P : Search → Type ℓ)
      → ((s : Search) (u : String) (rest : List String)
          → s.pending ≡ u ∷ rest
          → P s
          → P (expand put reverse s u rest))
      → (fuel : ℕ) (s t : Search) → P s
      → search put reverse fuel s ≡ some t
      → P t × (t.pending ≡ [])
  unfolding search
  loop_rule P keep zero s t p h = ground arith
  loop_rule P keep (suc fuel) s t p h = elim (List-cases s.pending) [
    | inl empty ↦ ground arith
    | inr (u, rest, e) ↦
        loop_rule P keep fuel (expand put reverse s u rest) t (keep s u rest e p)
          (rw (e, search) at h)
  ]

  module _ (universe : List String)
      (among : (a b : String)
        → contains a (or_empty (get b reverse)) ≡ true
        → contains a universe ≡ true) where
    -- A round takes one service off and puts in only services that it visits for the first time.
    pub search_ends :
        (fuel : ℕ) (s : Search)
        → work universe s ≤ fuel
        → (t : Search) × (search put reverse fuel s ≡ some t)
    unfolding search
    search_ends zero s h = (s, ground arith)
    search_ends (suc fuel) s h = elim (List-cases s.pending) [
      | inl empty ↦ (s, simp (empty, search))
      | inr (u, rest, e) ↦
          let kept =
            work-scan laws universe (record s { pending = rest }) (or_empty (get u reverse))
              (λ w. among w u) in
          let (t, ends) =
            search_ends fuel (expand put reverse s u rest)
              (rw (scan-expand s u rest) (omega (arith, ap length e))) in
          (t, ground arith)
    ]

  module _ (link : String → String → Bool)
      (linked : (a b : String) → (contains a (or_empty (get b reverse)) ≡ true) ↔ (link a b ≡ true))
      (start : List String) where
    record Inv (s : Search) : Type 0 where
      started : (w : String) → contains w start ≡ true → contains w s.visited ≡ true
      queued : (w : String) → contains w s.pending ≡ true → contains w s.visited ≡ true
      sound : (w : String) → contains w s.visited ≡ true → Impacted start link w
      closed :
          (a b : String)
          → link a b ≡ true
          → contains b s.visited ≡ true
          → (contains b s.pending ≡ true) ⊎ (contains a s.visited ≡ true)
      new :
          (w : String)
          → (contains w s.found ≡ true)
            ↔ ((contains w s.visited ≡ true) × (contains w start ≡ false))
      once : Distinct s

    contains-pending :
        (w u : String) (rest pending : List String)
        → pending ≡ u ∷ rest
        → (contains w pending ≡ true) ↔ ((w ≡ u) ⊎ (contains w rest ≡ true))
    contains-pending w u rest pending e = rw e (contains_cons w u rest)

    Inv-expand :
        (s : Search) (u : String) (rest : List String)
        → s.pending ≡ u ∷ rest
        → Inv s
        → Inv (expand put reverse s u rest)
    Inv-expand s u rest e h =
        let s' = record s { pending = rest } in
        let deps = or_empty (get u reverse) in
        let at_u = λ (w : String). contains-pending w u rest s.pending e in
        let visits = λ (w : String). visited-scan laws w s' deps in
        let waits = λ (w : String). pending-scan laws w s' deps in
        let finds = λ (w : String). found-scan laws w s' deps in
        let to_u = h.sound u (h.queued u ((at_u u).1 (inl refl))) in
        rw (scan-expand s u rest) (record {
          started = λ w m. (visits w).1 (inl (h.started w m));
          queued = λ w m. ground (arith, visits w, waits w, h.queued w, at_u w);
          sound = λ w m. elim ((visits w).0 m) [
            | inl old ↦ h.sound w old
            | inr new ↦ via ((linked w u).0 new) to_u
          ];
          closed = λ a b edge m.
              ground
                (arith, visits a, visits b, waits b, h.closed a b, at_u b, linked a b, linked a u);
          new = λ w. ground (arith, visits w, finds w, h.new w, h.started w);
          once =
              Distinct-scan laws s' deps
                (record { visits = h.once.visits; finds = h.once.finds; among = h.once.among });
        })

    -- With nothing left to wait the visited set is closed under links.
    complete :
        (t : Search)
        → Inv t
        → t.pending ≡ []
        → {w : String} → Impacted start link w
        → contains w t.visited ≡ true
    complete t h e (hit m) = h.started _ m
    complete t h e (via {a} {b} edge p) = elim (h.closed a b edge (complete t h e p)) [
      | inl waiting ↦ absurd (contains-nil b (subst (λ l. contains b l ≡ true) e waiting))
      | inr m ↦ m
    ]

    Inv-starts : distinct start ≡ true → Inv (starts start)
    unfolding contains distinct
    Inv-starts h = record {
      started = λ w m. m;
      queued = λ w m. m;
      sound = λ w m. hit m;
      closed = λ a b edge m. inl m;
      new = λ w. ground arith;
      once = record { visits = h; finds = refl; among = λ w m. absurd cc };
    }

    -- Where the loop ends, it has visited what leads to the start, each service once.
    pub search_reaches :
        (fuel : ℕ) (t : Search)
        → distinct start ≡ true
        → search put reverse fuel (starts start) ≡ some t
        → ((w : String)
            → ((contains w t.visited ≡ true) → Impacted start link w)
              × (Impacted start link w → contains w t.visited ≡ true)
              × ((contains w t.found ≡ true)
                  ↔ ((contains w t.visited ≡ true) × (contains w start ≡ false))))
          × Distinct t
    search_reaches fuel t once h =
        let (inv, empty) = loop_rule Inv Inv-expand fuel (starts start) t (Inv-starts once) h in
        (λ w. (inv.sound w, complete t inv empty, inv.new w), inv.once)
