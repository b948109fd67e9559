-- ===== src/Common/Sets.antt =====
-- A `HashSet` as a list of its members, and the members of a list.
use Prim.Native.Nat.{ℕ, suc, ◌+◌, ◌≤◌}
use mathlib.Core.Path.{◌≡◌, refl, ap}
use mathlib.Core.Logic.{◌⊎◌, inl, inr, ◌↔◌, ◌≢◌}
use mathlib.Core.Bool.{Bool, true, false, not, ◌&&◌}
use mathlib.Core.List.{List, [], ◌∷◌, ◌++◌}
use native.Mathlib.Omega.{arith}
use helix_router_adaptive_as.Common.Tests.{Key, ◌==◌, if◌then◌else◌, Bool-cases}
use helix_router_adaptive_as.Common.Lists.{count_if, length, retain}

module _ {ℓ} {K : Type ℓ} ⦃e : Key K⦄ where
  unfoldable pub contains : K → List K → Bool
  contains x [] = false
  contains x (y ∷ ys) = let rest = contains x ys in if y == x then true else rest

  -- `insert`, which leaves a set alone that has the member.
  abbrev pub with_member : K → List K → List K
  with_member x xs = if contains x xs then xs else x ∷ xs

  unfoldable pub distinct : List K → Bool
  distinct [] = true
  distinct (x ∷ xs) = not (contains x xs) && distinct xs

  -- How many of `xs` are not in the set.
  abbrev pub missing : List K → List K → ℕ
  missing set xs = count_if (λ x. not (contains x set)) xs

  pub contains_cons :
      (x y : K) (ys : List K) → (contains x (y ∷ ys) ≡ true) ↔ ((x ≡ y) ⊎ (contains x ys ≡ true))
  unfolding contains
  contains_cons x y ys = ground (arith, e.same_iff y x)

  pub contains-append :
      (x : K) (xs ys : List K)
      → (contains x (xs ++ ys) ≡ true) ↔ ((contains x xs ≡ true) ⊎ (contains x ys ≡ true))
  unfolding contains
  contains-append x [] ys = ground arith
  contains-append x (y ∷ xs) ys = ground (arith, e.same_iff y x, contains-append x xs ys)

  missing-cons_le : (set : List K) (v : K) (xs : List K) → missing (v ∷ set) xs ≤ missing set xs
  unfolding contains
  missing-cons_le set v [] = omega arith
  missing-cons_le set v (x ∷ xs) = ground (arith, missing-cons_le set v xs)

  -- A new member that is one of `xs` leaves fewer of them out.
  pub missing-cons :
      (set : List K) (v : K) (xs : List K)
      → contains v xs ≡ true
      → contains v set ≡ false
      → suc (missing (v ∷ set) xs) ≤ missing set xs
  unfolding contains
  missing-cons set v [] h new = absurd cc
  missing-cons set v (x ∷ xs) h new =
      ground
        (arith, e.same_iff x v, e.same_iff v x, missing-cons_le set v xs, missing-cons set v xs)

  pub missing-le : (set xs : List K) → missing set xs ≤ length xs
  missing-le set [] = omega arith
  missing-le set (x ∷ xs) = ground (arith, missing-le set xs)

  pub distinct-concat :
      (x : K) (xs : List K)
      → contains x xs ≡ false
      → distinct xs ≡ true
      → distinct (xs ++ (x ∷ [])) ≡ true
  unfolding distinct contains
  distinct-concat x [] new h = refl
  distinct-concat x (y ∷ ys) new h = ground (
    arith,
    distinct-concat x ys,
    contains-append y ys (x ∷ []),
    contains_cons y x [],
    e.same_iff y x,
  )

  pub contains-nil : (x : K) → contains x [] ≢ true
  unfolding contains
  contains-nil x h = cc

  pub contains-retain :
      (p : K → Bool) (x : K) (xs : List K)
      → (contains x (retain p xs) ≡ true) ↔ ((contains x xs ≡ true) × (p x ≡ true))
  unfolding contains
  contains-retain p x [] = ground arith
  contains-retain p x (y ∷ ys) = elim (Bool-cases (y == x)) [
    | inl same ↦
        let here : y ≡ x = (e.same_iff y x).0 same in
        ground (arith, contains-retain p x ys, ap p here)
    | inr other ↦ ground (arith, contains-retain p x ys)
  ]

  pub distinct-retain :
      (p : K → Bool) (xs : List K) → distinct xs ≡ true → distinct (retain p xs) ≡ true
  unfolding distinct
  distinct-retain p [] h = refl
  distinct-retain p (x ∷ xs) h = ground (arith, distinct-retain p xs, contains-retain p x xs)

  -- Different members of `ys` are no more than `ys` has.
  pub distinct-among :
      (xs ys : List K)
      → distinct xs ≡ true
      → ((w : K) → contains w xs ≡ true → contains w ys ≡ true)
      → length xs + missing xs ys ≤ length ys
  unfolding distinct
  distinct-among [] ys once among = omega (arith, missing-le [] ys)
  distinct-among (x ∷ xs) ys once among =
      let rest =
        distinct-among xs ys (ground arith) (λ w m. among w ((contains_cons w x xs).1 (inr m))) in
      let here = among x ((contains_cons x x xs).1 (inl refl)) in
      ground (arith, rest, here, missing-cons xs x ys)

  pub missing-eq-zero :
      (set xs : List K) (w : K) → missing set xs ≡ 0 → contains w xs ≡ true → contains w set ≡ true
  unfolding contains
  missing-eq-zero set [] w none_missing h = absurd cc
  missing-eq-zero set (x ∷ xs) w none_missing h =
      ground (arith, e.same_iff x w, missing-eq-zero set xs w)

  pub distinct-append :
      (xs : List K) (u : K) (ys : List K) → distinct (xs ++ (u ∷ ys)) ≡ true → contains u xs ≡ false
  unfolding distinct contains
  distinct-append [] u ys h = refl
  distinct-append (x ∷ xs) u ys h = ground (
    arith,
    distinct-append xs u ys,
    contains-append x xs (u ∷ ys),
    contains_cons x u ys,
    e.same_iff x u,
  )

  pub distinct-appended :
      (xs ys : List K)
      → distinct xs ≡ true
      → distinct ys ≡ true
      → ((w : K) → contains w ys ≡ true → contains w xs ≡ false)
      → distinct (xs ++ ys) ≡ true
  unfolding distinct contains
  distinct-appended [] ys first second apart = second
  distinct-appended (x ∷ xs) ys first second apart =
      let rest = distinct-appended xs ys (ground arith) second (λ w m. ground (arith, apart w m)) in
      ground (arith, rest, contains-append x xs ys, apart x, contains_cons x x xs)
