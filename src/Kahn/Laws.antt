-- ===== src/Kahn/Laws.antt =====
-- Kahn's algorithm, as src/dag.rs and src/dependency_graph.rs write it out: its loop ends, takes no key
-- twice, and takes a key only after all those that lead to it.
use helix_router_adaptive_as.Common.{
  ℕ, zero, suc, ◌+◌, ◌<◌, ◌≤◌, true, false, List, [], ◌∷◌, ◌++◌, Option, some, Key, length,
  length-append, append_assoc, append-nil, ◌≡◌, refl, ap, sym, subst, ◌∙◌, ◌↔◌, ◌⊎◌, inl, inr,
  arith, Bool-cases, Option-cases, List-cases,
}
use helix_router_adaptive_as.Common.Maps.{Map, get, get-keys, get_absent, keys}
use helix_router_adaptive_as.Common.Sets.{
  contains, contains-append, contains_cons, distinct, distinct-append, distinct-among,
}
use helix_router_adaptive_as.Kahn.{
  Kahn, or_else, free, lowered, lower, release, visit, kahn, start_of,
}
use helix_router_adaptive_as.Kahn.Release.{InOrder, IsCounted, placed, During, During-release}
use helix_router_adaptive_as.Kahn.Count.{
  occ, incoming_pos, incoming-absent, incoming-concat, incoming-zero,
}

module _ {K : Type 0} ⦃e : Key K⦄ where
  contains-free_keys :
      (v : K) (m : Map K ℕ) → contains v (free m) ≡ true → contains v (keys m) ≡ true
  unfolding free
  contains-free_keys v [] h = h
  contains-free_keys v ((k, d) ∷ m) h =
      ground (arith, contains-free_keys v m, contains_cons v k (keys m), contains_cons v k (free m))

  contains-free :
      (v : K) (m : Map K ℕ)
      → distinct (keys m) ≡ true
      → (contains v (free m) ≡ true) ↔ (get v m ≡ some 0)
  unfolding free get distinct contains
  contains-free v [] once = ground arith
  contains-free v ((k, d) ∷ m) once =
      ground (
        arith,
        contains-free v m,
        e.same_iff k v,
        contains-free_keys v m,
        contains_cons v k (free m),
      )

  pub distinct-free : (m : Map K ℕ) → distinct (keys m) ≡ true → distinct (free m) ≡ true
  unfolding free distinct
  distinct-free [] once = refl
  distinct-free ((k, d) ∷ m) once = ground (arith, distinct-free m, contains-free_keys k m)

  module _ (absent : Option ℕ) (out : K → List K) (universe : List K) (degree : Map K ℕ)
      (graph : IsCounted absent out universe degree) where
    abbrev Waiting : List K → Kahn K → Type 0
    Waiting = During absent out universe degree graph

    record Inv (s : Kahn K) : Type 0 where
      settled : Waiting [] s
      sorted : InOrder out universe [] s.order

    -- With the key at the front of the queue taken, those it leads to are still to be released.
    During-visit :
        (s : Kahn K) (u : K) (rest : List K)
        → s.queue ≡ u ∷ rest
        → Waiting [] s
        → Waiting (out u) (record s { queue = rest; order = s.order ++ (u ∷ []) })
    During-visit s u rest front h =
        let same_list : placed s ≡ (s.order ++ (u ∷ [])) ++ rest =
          rw (append_assoc s.order (u ∷ []) rest) (ap (λ q. s.order ++ q) front) in
        let u_new =
          distinct-append s.order u rest
            (subst (λ q. distinct (s.order ++ q) ≡ true) front h.once) in
        record {
          exact = λ v d m. elim (Bool-cases (contains u universe)) [
            | inl inside ↦ omega (
              arith,
              h.exact v d m,
              incoming-concat out universe s.order u v graph.universe_once inside u_new,
            )
            | inr elsewhere ↦ omega (
              arith,
              h.exact v d m,
              incoming-absent out universe s.order u v elsewhere,
              ap (occ v) (graph.outside u elsewhere),
            )
          ];
          ready = λ v.
              subst (λ l. (contains v l ≡ true) ↔ (get v s.degree ≡ some 0)) same_list (h.ready v);
          once = subst (λ l. distinct l ≡ true) same_list h.once;
          same = h.same;
          known = graph.targets u;
        }

    front-placed :
        (s : Kahn K) (u : K) (rest : List K) → s.queue ≡ u ∷ rest → contains u (placed s) ≡ true
    front-placed s u rest front =
        (contains-append u s.order s.queue).1
          (inr (rw front ((contains_cons u u rest).1 (inl refl))))

    InOrder-concat :
        (before vs : List K) (u : K)
        → InOrder out universe before vs
        → ((w : K)
            → contains w universe ≡ true
            → 0 < occ u (out w)
            → (contains w before ≡ true) ⊎ (contains w vs ≡ true))
        → InOrder out universe before (vs ++ (u ∷ []))
    unfolding contains
    InOrder-concat before [] u sorted h = (λ w m edge. ground (arith, h w m edge), tt)
    InOrder-concat before (v ∷ vs) u sorted h = (
      sorted.0,
      InOrder-concat (v ∷ before) vs u sorted.1
          (λ w m edge. ground (arith, h w m edge, contains_cons w v vs, contains_cons w v before)),
    )

    order-lower : (v : K) (s : Kahn K) → (lower absent v s).order ≡ s.order
    unfolding lower lowered
    order-lower v s = ground (arith, Option-cases (or_else (get v s.degree) absent))

    order-release : (vs : List K) (s : Kahn K) → (release absent s vs).order ≡ s.order
    unfolding release
    order-release [] s = refl
    order-release (v ∷ vs) s = order-release vs (lower absent v s) ∙ order-lower v s

    Inv-visit :
        (s : Kahn K) (u : K) (rest : List K)
        → s.queue ≡ u ∷ rest
        → Inv s
        → Inv (visit absent out s u rest)
    unfolding visit
    Inv-visit s u rest front h =
        let s' = record s { queue = rest; order = s.order ++ (u ∷ []) } in
        let u_first = front-placed s u rest front in
        let none_left = h.settled.exact u 0 ((h.settled.ready u).0 u_first) in
        record {
          settled =
              During-release absent out universe degree graph (out u) s'
                (During-visit s u rest front h.settled);
          sorted = subst (InOrder out universe []) (sym (order-release (out u) s')) (
              InOrder-concat [] s.order u h.sorted
                (λ w m edge. inr (incoming-zero out universe s.order w u (omega arith) m edge)));
        }

    -- What is on the way is among the keys of the degrees.
    contains-keys :
        (s : Kahn K) (v : K)
        → Waiting [] s
        → contains v (placed s) ≡ true
        → contains v (keys degree) ≡ true
    contains-keys s v h m = elim (Option-cases (get v degree)) [
      | inl gone ↦ cc (sym ((h.same v).1 gone) ∙ (h.ready v).0 m)
      | inr (d, here) ↦ get-keys v d degree here
    ]

    room : (s : Kahn K) → Waiting [] s → length s.order + length s.queue ≤ length (keys degree)
    room s h = omega (
      arith,
      distinct-among (placed s) (keys degree) h.once (λ w m. contains-keys s w h m),
      length-append s.order s.queue,
    )

    length-visit :
        (s : Kahn K) (u : K) (rest : List K)
        → length (visit absent out s u rest).order ≡ suc (length s.order)
    unfolding visit
    length-visit s u rest =
        let s' = record s { queue = rest; order = s.order ++ (u ∷ []) } in
        omega (arith, ap length (order-release (out u) s'), length-append s.order (u ∷ []))

    kahn_lem :
        (fuel : ℕ) (s : Kahn K)
        → Inv s
        → length (keys degree) ≤ fuel + length s.order
        → (t : Kahn K) × (kahn absent out fuel s ≡ some t) × Inv t × (t.queue ≡ [])
    unfolding kahn
    kahn_lem zero s h enough = elim (List-cases s.queue) [
      | inl empty ↦ (s, simp (empty, kahn), h, empty)
      | inr (u, rest, front) ↦ absurd (omega (arith, room s h.settled, ap length front))
    ]
    kahn_lem (suc fuel) s h enough = elim (List-cases s.queue) [
      | inl empty ↦ (s, simp (empty, kahn), h, empty)
      | inr (u, rest, front) ↦
          let (t, ends, inv, empty) =
            kahn_lem fuel (visit absent out s u rest) (Inv-visit s u rest front h)
              (omega (arith, length-visit s u rest)) in
          (t, simp (front, kahn) ends, inv, empty)
    ]

    During-start :
        (queue : List K)
        → ((v : K) → (contains v queue ≡ true) ↔ (contains v (free degree) ≡ true))
        → distinct queue ≡ true
        → During absent out universe degree graph [] (start_of queue degree)
    unfolding contains
    During-start queue free_ones different = record {
      exact = λ v d m. omega (arith, graph.counted v d m);
      ready = λ v. ground (arith, free_ones v, contains-free v degree graph.keys_once);
      once = different;
      same = λ v. (λ m. m, λ m. m);
      known = λ v m. cc;
    }

    -- The loop ends within one round for each key. It takes no key twice, each after all that lead to it,
    -- and leaves out a key only where one that leads to it is left out as well.
    pub kahn_orders :
        (queue : List K)
        → ((v : K) → (contains v queue ≡ true) ↔ (contains v (free degree) ≡ true))
        → distinct queue ≡ true
        → (t : Kahn K) × (kahn absent out (length (keys degree)) (start_of queue degree) ≡ some t)
          × (distinct t.order ≡ true)
          × InOrder out universe [] t.order
          × ((v : K) → contains v t.order ≡ true → contains v (keys degree) ≡ true)
          × ((v : K)
              → contains v (keys degree) ≡ true
              → contains v t.order ≡ false
              → (u : K) × (contains u universe ≡ true)
                × (contains u t.order ≡ false)
                × (0 < occ v (out u)))
    unfolding contains
    kahn_orders queue free_ones different =
        let (t, ends, inv, empty) =
          kahn_lem (length (keys degree)) (start_of queue degree)
            (record { settled = During-start queue free_ones different; sorted = tt })
            (omega arith) in
        let all_placed : placed t ≡ t.order = rw empty (append-nil t.order) in
        let settled = inv.settled in
        (
          t,
          ends,
          subst (λ l. distinct l ≡ true) all_placed settled.once,
          inv.sorted,
          λ v m. contains-keys t v settled (subst (λ l. contains v l ≡ true) (sym all_placed) m),
          λ v m left. elim (Option-cases (get v t.degree)) [
            | inl gone ↦ absurd (get_absent v degree ((settled.same v).0 gone) m)
            | inr (d, here) ↦ incoming_pos out universe t.order v (
                ground (
                  arith,
                  settled.exact v d here,
                  settled.ready v,
                  ap (λ l. contains v l) all_placed,
                ))
          ],
        )
