-- ===== src/Common/Heaps.antt =====
-- `std::collections::BinaryHeap` as a list of its entries and a function that pops one.
use mathlib.Core.Path.{◌≡◌, refl}
use mathlib.Core.Bool.{Bool, true, not}
use mathlib.Core.List.{List, [], ◌∷◌}
use mathlib.Core.Option.{Option, none, some}
use Prim.Native.Nat.{suc}
use native.Mathlib.Omega.{arith}
use helix_router_adaptive_as.Common.Lists.{All, count_if, length}

module _ {ℓ} {A : Type ℓ} where
  -- What the standard library documents of `pop`, where `first x y` says that `x` may come out before
  -- `y`: it takes out an entry that may come before every other, and nothing exactly where there is
  -- none.
  pub record PopLaws (first : A → A → Bool) (pop : List A → Option (A × List A)) : Type ℓ where
    pub empty : pop [] ≡ none
    pub takes : (x : A) (xs : List A) → (y : A) × (ys : List A) × (pop (x ∷ xs) ≡ some (y, ys))
    pub greatest :
        (xs : List A) (y : A) (ys : List A) → pop xs ≡ some (y, ys) → All (λ z. first y z ≡ true) xs
    pub same_entries :
        (xs : List A) (y : A) (ys : List A)
        → pop xs ≡ some (y, ys)
        → (p : A → Bool) → count_if p xs ≡ count_if p (y ∷ ys)

  pub length-count : (xs : List A) → count_if (λ x. true) xs ≡ length xs
  length-count [] = refl
  length-count (x ∷ xs) = omega (arith, length-count xs)

  count-All :
      (p : A → Bool) (xs : List A) → All (λ x. p x ≡ true) xs → count_if (λ x. not (p x)) xs ≡ 0
  count-All p [] h = refl
  count-All p (x ∷ xs) h = let first = h.0 in ground (arith, count-All p xs h.1)

  pub All-count :
      (p : A → Bool) (xs : List A) → count_if (λ x. not (p x)) xs ≡ 0 → All (λ x. p x ≡ true) xs
  All-count p [] h = tt
  All-count p (x ∷ xs) h = (ground arith, All-count p xs (ground arith))

  -- What holds of every entry holds of those that stay.
  pub All-pop :
      {first : A → A → Bool} {pop : List A → Option (A × List A)} (laws : PopLaws first pop)
      (p : A → Bool) (xs : List A) (y : A) (ys : List A)
      → pop xs ≡ some (y, ys)
      → All (λ x. p x ≡ true) xs
      → All (λ x. p x ≡ true) ys
  All-pop laws p xs y ys e h =
      All-count p ys
        (ground (arith, count-All p xs h, laws.same_entries xs y ys e (λ x. not (p x))))

  pub pop-none :
      {first : A → A → Bool} {pop : List A → Option (A × List A)} (laws : PopLaws first pop)
      (xs : List A)
      → pop xs ≡ none
      → xs ≡ []
  pop-none laws [] e = refl
  pop-none laws (x ∷ xs) e = let (y, ys, t) = laws.takes x xs in absurd cc

  pub length-pop :
      {first : A → A → Bool} {pop : List A → Option (A × List A)} (laws : PopLaws first pop)
      (xs : List A) (y : A) (ys : List A)
      → pop xs ≡ some (y, ys)
      → suc (length ys) ≡ length xs
  length-pop laws xs y ys e =
      omega (arith, laws.same_entries xs y ys e (λ x. true), length-count xs, length-count (y ∷ ys))
