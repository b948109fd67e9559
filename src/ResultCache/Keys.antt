-- ===== src/ResultCache/Keys.antt =====
-- How often a key occurs in the queue and in the entries of a cache.
use helix_router_adaptive_as.Common.{
  ℕ, ◌+◌, ◌-◌, ◌≤◌, ◌<◌, ◌≡◌, refl, true, List, [], ◌∷◌, none, some, eqb, if◌then◌else◌, map,
  count_if, arith, nat_key, count_if-append, length,
}
use helix_router_adaptive_as.Common.Maps.{Map, get, insert, delete}
use helix_router_adaptive_as.ResultCache.{CacheEntry, remove_first, contains_key, promote}

abbrev pub occ : ℕ → List ℕ → ℕ
occ k = count_if (eqb k)

abbrev pub keys : Map ℕ CacheEntry → List ℕ
keys = map (λ e. e.0)

pub occ-remove_first :
    (k j : ℕ) (xs : List ℕ) → occ k (remove_first j xs) ≡ occ k xs - (if eqb k j then 1 else 0)
unfolding remove_first
occ-remove_first k j [] = ground arith
occ-remove_first k j (x ∷ xs) = ground (arith, occ-remove_first k j xs)

occ-contains : (k : ℕ) (xs : List ℕ) → contains_key k xs ≡ true → 0 < occ k xs
occ-contains k [] h = absurd cc
occ-contains k (x ∷ xs) h = ground (arith, occ-contains k xs)

pub occ-promote : (k j : ℕ) (xs : List ℕ) → occ k (promote j xs) ≡ occ k xs
unfolding promote
occ-promote k j xs = ground (
  arith,
  occ-remove_first k j xs,
  occ-contains j xs,
  count_if-append (eqb k) (remove_first j xs) (j ∷ []),
)

pub occ-delete :
    (k j : ℕ) (m : Map ℕ CacheEntry)
    → occ k (keys (delete j m)) ≡ (if eqb k j then 0 else occ k (keys m))
unfolding delete
occ-delete k j [] = ground arith
occ-delete k j ((i, e) ∷ m) = ground (arith, occ-delete k j m)

pub occ-get-none : (k : ℕ) (m : Map ℕ CacheEntry) → get k m ≡ none → occ k (keys m) ≡ 0
unfolding get
occ-get-none k [] h = refl
occ-get-none k ((i, e) ∷ m) h = ground (arith, occ-get-none k m)

pub occ-insert_old :
    (k j : ℕ) (e e' : CacheEntry) (m : Map ℕ CacheEntry)
    → get j m ≡ some e
    → occ k (keys (insert j e' m)) ≡ occ k (keys m)
unfolding insert get
occ-insert_old k j e e' [] h = absurd cc
occ-insert_old k j e e' ((i, x) ∷ m) h = ground (arith, occ-insert_old k j e e' m)

pub occ-insert_new :
    (k j : ℕ) (e : CacheEntry) (m : Map ℕ CacheEntry)
    → get j m ≡ none
    → occ k (keys (insert j e m)) ≡ occ k (keys m) + (if eqb k j then 1 else 0)
unfolding insert get
occ-insert_new k j e [] h = omega arith
occ-insert_new k j e ((i, x) ∷ m) h = ground (arith, occ-insert_new k j e m)

pub length-insert_old :
    (j : ℕ) (e e' : CacheEntry) (m : Map ℕ CacheEntry)
    → get j m ≡ some e
    → length (insert j e' m) ≡ length m
unfolding insert get
length-insert_old j e e' [] h = absurd cc
length-insert_old j e e' ((i, x) ∷ m) h = ground (arith, length-insert_old j e e' m)

pub length-insert_le :
    (j : ℕ) (e : CacheEntry) (m : Map ℕ CacheEntry) → length (insert j e m) ≤ length m + 1
unfolding insert
length-insert_le j e [] = omega arith
length-insert_le j e ((i, x) ∷ m) = ground (arith, length-insert_le j e m)

pub length-delete_le : (j : ℕ) (m : Map ℕ CacheEntry) → length (delete j m) ≤ length m
unfolding delete
length-delete_le j [] = omega arith
length-delete_le j ((i, x) ∷ m) = ground (arith, length-delete_le j m)

pub get-delete-none : (k j : ℕ) (m : Map ℕ CacheEntry) → get k m ≡ none → get k (delete j m) ≡ none
unfolding get delete
get-delete-none k j [] h = refl
get-delete-none k j ((i, x) ∷ m) h = ground (arith, get-delete-none k j m)
