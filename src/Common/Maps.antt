-- ===== src/Common/Maps.antt =====
-- A `HashMap` as an association list. Its order stands for the unspecified order of iteration.
use Prim.Native.Nat.{suc}
use mathlib.Core.Path.{◌≡◌, refl, ap, sym, subst, ◌∙◌}
use mathlib.Core.Logic.{◌⊎◌, ◌≢◌, inl, inr}
use mathlib.Core.List.{List, [], ◌∷◌, ◌++◌}
use mathlib.Core.Bool.{true, false}
use mathlib.Core.Option.{Option, none, some, some-injective}
use mathlib.Core.Option
use native.Mathlib.Omega.{arith}
use helix_router_adaptive_as.Common.Tests.{
  Key, ◌==◌, if◌then◌else◌, if_cases, Bool-cases, Option-cases,
}
use helix_router_adaptive_as.Common.Lists.{All, length}
use helix_router_adaptive_as.Common.Sets.{contains}

abbrev pub Map {ℓ κ} : Type ℓ → Type κ → Type (ℓ ⊔ κ)
Map K V = List (K × V)

module _ {ℓ κ} {K : Type ℓ} {V : Type κ} ⦃e : Key K⦄ where
  unfoldable pub get : K → Map K V → Option V
  get k [] = none
  get k ((j, v) ∷ m) = if j == k then some v else get k m

  unfoldable pub insert : K → V → Map K V → Map K V
  insert k v [] = (k, v) ∷ []
  insert k v ((j, w) ∷ m) = if j == k then (j, v) ∷ m else (j, w) ∷ insert k v m

  -- `get_mut`: change the value at a key, if it is there.
  unfoldable pub modify : K → (V → V) → Map K V → Map K V
  modify k f [] = []
  modify k f ((j, w) ∷ m) = if j == k then (j, f w) ∷ m else (j, w) ∷ modify k f m

  pub get-insert :
      (k j : K) (v : V) (m : Map K V) → get j (insert k v m) ≡ (if k == j then some v else get j m)
  unfolding get insert
  get-insert k j v [] = refl
  get-insert k j v ((i, w) ∷ m) =
      ground (arith, e.same_iff k j, e.same_iff i k, e.same_iff i j, get-insert k j v m)

  -- What holds of every value of a map, and of the one put in, holds of every value afterwards.
  pub All-insert {ι} :
      (P : V → Type ι) (k : K) (v : V) (m : Map K V)
      → P v
      → All (λ x. P x.1) m
      → All (λ x. P x.1) (insert k v m)
  unfolding insert
  All-insert P k v [] h hm = (h, tt)
  All-insert P k v ((j, w) ∷ m) h hm =
      if_cases (All (λ x. P x.1)) (j == k) (h, hm.1) (hm.0, All-insert P k v m h hm.1)

  pub get-All {ι} :
      (P : V → Type ι) (k : K) (v : V) (m : Map K V) → All (λ x. P x.1) m → get k m ≡ some v → P v
  unfolding get
  get-All P k v [] hm h = absurd cc
  get-All P k v ((j, w) ∷ m) hm h = elim (Bool-cases (j == k)) [
    | inl e ↦ subst P (some-injective w v (rw e at h)) hm.0
    | inr e ↦ get-All P k v m hm.1 (rw e at h)
  ]

  -- `remove`
  unfoldable pub delete : K → Map K V → Map K V
  delete k [] = []
  delete k ((j, w) ∷ m) = let rest = delete k m in if j == k then rest else (j, w) ∷ rest

  pub get-delete : (k j : K) (m : Map K V) → get j (delete k m) ≡ (if k == j then none else get j m)
  unfolding get delete
  get-delete k j [] = ground arith
  get-delete k j ((i, w) ∷ m) =
      ground (arith, e.same_iff k j, e.same_iff i k, e.same_iff i j, get-delete k j m)

  abbrev pub keys : Map K V → List K
  keys [] = []
  keys ((k, v) ∷ m) = k ∷ keys m

  pub get-modify :
      (k j : K) (f : V → V) (m : Map K V)
      → get j (modify k f m) ≡ (if k == j then Option.map f (get j m) else get j m)
  unfolding get modify
  get-modify k j f [] = ground arith
  get-modify k j f ((i, w) ∷ m) =
      ground (arith, e.same_iff k j, e.same_iff i k, e.same_iff i j, get-modify k j f m)

  pub get-keys : (k : K) (v : V) (m : Map K V) → get k m ≡ some v → contains k (keys m) ≡ true
  unfolding get contains
  get-keys k v [] h = absurd cc
  get-keys k v ((j, w) ∷ m) h = ground (arith, get-keys k v m)

  pub get_absent : (k : K) (m : Map K V) → get k m ≡ none → contains k (keys m) ≢ true
  unfolding get contains
  get_absent k [] h = λ m. cc
  get_absent k ((j, w) ∷ m) h = ground (arith, get_absent k m)

  modify-head :
      (k j : K) (f : V → V) (w : V) (m : Map K V)
      → j == k ≡ true
      → modify k f ((j, w) ∷ m) ≡ (j, f w) ∷ m
  unfolding modify
  modify-head k j f w m h = ground arith

  modify-tail :
      (k j : K) (f : V → V) (w : V) (m : Map K V)
      → j == k ≡ false
      → modify k f ((j, w) ∷ m) ≡ (j, w) ∷ modify k f m
  unfolding modify
  modify-tail k j f w m h = ground arith

  modify-nil : (k : K) (f g : V → V) → modify k f (modify k g []) ≡ []
  unfolding modify
  modify-nil k f g = refl

  -- Two changes at a key, of which the second undoes the first.
  pub modify-modify_undo :
      (k : K) (f g : V → V) (m : Map K V)
      → ((v : V) → get k m ≡ some v → g (f v) ≡ v)
      → modify k g (modify k f m) ≡ m
  unfolding get
  modify-modify_undo k f g [] h = modify-nil k g f
  modify-modify_undo k f g ((j, w) ∷ m) h = elim (Bool-cases (j == k)) [
    | inl e ↦
        let undone = h w (rw e refl) in
        ap (modify k g) (modify-head k j f w m e)
        ∙ modify-head k j g (f w) m e
        ∙ ap (λ v. (j, v) ∷ m) undone
    | inr e ↦
        ap (modify k g) (modify-tail k j f w m e)
        ∙ modify-tail k j g w (modify k f m) e
        ∙ ap (λ l. (j, w) ∷ l) (modify-modify_undo k f g m (λ v there. h v (rw e there)))
  ]

  pub get-some_cons :
      (k j : K) (v w : V) (m : Map K V)
      → get k ((j, w) ∷ m) ≡ some v
      → (j ≡ k) × (w ≡ v) ⊎ (j == k ≡ false) × (get k m ≡ some v)
  unfolding get
  get-some_cons k j v w m h = elim (Bool-cases (j == k)) [
    | inl same ↦ inl ((e.same_iff j k).0 same, some-injective w v (rw same at h))
    | inr other ↦ inr (other, rw other at h)
  ]

  pub length-keys : (m : Map K V) → length (keys m) ≡ length m
  length-keys [] = refl
  length-keys ((k, v) ∷ m) = ap suc (length-keys m)

  pub get_present :
      (k : K) (m : Map K V) → contains k (keys m) ≡ true → (v : V) × (get k m ≡ some v)
  get_present k m h = elim (Option-cases (get k m)) [
    | inl gone ↦ absurd (get_absent k m gone h)
    | inr (v, here) ↦ (v, here)
  ]

  pub get_cons :
      (k j : K) (w : V) (m : Map K V) → get k ((j, w) ∷ m) ≡ (if j == k then some w else get k m)
  unfolding get
  get_cons k j w m = refl

  pub get-nil : (k : K) (v : V) → get k [] ≢ some v
  unfolding get
  get-nil k v h = cc

  -- A new key comes last.
  pub keys-insert :
      (k : K) (v : V) (m : Map K V)
      → contains k (keys m) ≡ false
      → keys (insert k v m) ≡ keys m ++ (k ∷ [])
  unfolding insert contains
  keys-insert k v [] new = refl
  keys-insert k v ((j, w) ∷ m) new = ground (arith, keys-insert k v m)

  pub get-head : (k : K) (v w : V) (m : Map K V) → get k ((k, v) ∷ m) ≡ some w → v ≡ w
  get-head k v w m h = elim (get-some_cons k k w v m h) [
    | inl (_, same) ↦ same
    | inr (other, there) ↦ let same = (e.same_iff k k).1 refl in cc
  ]

  pub get-tail :
      (j k : K) (w v : V) (m : Map K V)
      → j == k ≡ false
      → get k ((j, w) ∷ m) ≡ some v
      → get k m ≡ some v
  get-tail j k w v m other h = sym (get_cons k j w m ∙ rw other refl) ∙ h

  pub get-here : (k : K) (v : V) (m : Map K V) → get k ((k, v) ∷ m) ≡ some v
  get-here k v m = get_cons k k v m ∙ rw ((e.same_iff k k).1 refl) refl

  pub get-later :
      (j k : K) (w v : V) (m : Map K V)
      → contains j (keys m) ≡ false
      → get k m ≡ some v
      → get k ((j, w) ∷ m) ≡ some v
  get-later j k w v m new h = ground (arith, get_cons k j w m, get-keys k v m h, e.same_iff j k)

  pub contains-keys_same :
      (k : K) (m n : Map K V)
      → get k m ≡ get k n
      → contains k (keys m) ≡ true
      → contains k (keys n) ≡ true
  contains-keys_same k m n same h =
      let (v, here) = get_present k m h in get-keys k v n (sym same ∙ here)
