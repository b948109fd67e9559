-- ===== src/DependencyGraph/Failures/Marks.antt =====
-- src/dependency_graph.rs: the ends of a list as put, sorting, and the marks that propagate_failures leaves.
use helix_router_adaptive_as.Common.{
  suc, String, true, false, List, [], ◌∷◌, ◌++◌, length, if◌then◌else◌, string_key, ◌≡◌, refl, ◌↔◌,
  ◌⊎◌, arith,
}
use mathlib.Core.Option
use helix_router_adaptive_as.Common.Maps.{Map, get, modify, get-modify, keys}
use helix_router_adaptive_as.Common.Sets.{
  contains, contains-append, contains_cons, contains-nil, distinct,
}
use helix_router_adaptive_as.DependencyGraph.{ServiceNode, fail_with, insert_sorted, sort_unstable}
use helix_router_adaptive_as.DependencyGraph.Search.{push_stack, push_queue}
use helix_router_adaptive_as.DependencyGraph.Search.Laws.{PutLaws}
use helix_router_adaptive_as.DependencyGraph.Failures.{failed_ids, fail_all}

pub push_stack-PutLaws : PutLaws push_stack
push_stack-PutLaws = record { holds = λ w v xs. contains_cons w v xs; grows = λ v xs. refl }

pub length-concat : (v : String) (xs : List String) → length (xs ++ (v ∷ [])) ≡ suc (length xs)
length-concat v [] = refl
length-concat v (x ∷ xs) = omega (arith, length-concat v xs)

pub push_queue-PutLaws : PutLaws push_queue
unfolding contains
push_queue-PutLaws = record {
  holds = λ w v xs. ground (arith, contains-append w xs (v ∷ []), contains_cons w v []);
  grows = length-concat;
}

contains-insert_sorted :
    (w x : String) (xs : List String)
    → (contains w (insert_sorted x xs) ≡ true) ↔ ((w ≡ x) ⊎ (contains w xs ≡ true))
unfolding insert_sorted
contains-insert_sorted w x [] = contains_cons w x []
contains-insert_sorted w x (y ∷ ys) = ground (
  arith,
  contains-insert_sorted w x ys,
  contains_cons w y (insert_sorted x ys),
  contains_cons w x (y ∷ ys),
  contains_cons w y ys,
)

pub contains-sort_unstable :
    (w : String) (xs : List String)
    → (contains w (sort_unstable xs) ≡ true) ↔ (contains w xs ≡ true)
unfolding sort_unstable
contains-sort_unstable w [] = ground arith
contains-sort_unstable w (x ∷ xs) = ground (
  arith,
  contains-insert_sorted w x (sort_unstable xs),
  contains_cons w x xs,
  contains-sort_unstable w xs,
)

distinct-insert_sorted :
    (x : String) (xs : List String)
    → contains x xs ≡ false
    → distinct xs ≡ true
    → distinct (insert_sorted x xs) ≡ true
unfolding insert_sorted distinct
distinct-insert_sorted x [] new h = ground (arith, contains-nil x)
distinct-insert_sorted x (y ∷ ys) new h =
    ground (arith, distinct-insert_sorted x ys, contains-insert_sorted y x ys, contains_cons x y ys)

pub distinct-sort_unstable :
    (xs : List String) → distinct xs ≡ true → distinct (sort_unstable xs) ≡ true
unfolding sort_unstable distinct
distinct-sort_unstable [] h = refl
distinct-sort_unstable (x ∷ xs) h = ground (
  arith,
  distinct-insert_sorted x (sort_unstable xs),
  contains-sort_unstable x xs,
  distinct-sort_unstable xs,
)

failed_ids_inside :
    (x : String) (nodes : Map String ServiceNode)
    → contains x (failed_ids nodes) ≡ true
    → contains x (keys nodes) ≡ true
unfolding failed_ids
failed_ids_inside x [] h = h
failed_ids_inside x ((id, node) ∷ nodes) h = ground (
  arith,
  failed_ids_inside x nodes,
  contains_cons x id (keys nodes),
  contains_cons x id (failed_ids nodes),
)

pub distinct-failed_ids :
    (nodes : Map String ServiceNode)
    → distinct (keys nodes) ≡ true
    → distinct (failed_ids nodes) ≡ true
unfolding failed_ids distinct
distinct-failed_ids [] h = refl
distinct-failed_ids ((id, node) ∷ nodes) h =
    ground (arith, distinct-failed_ids nodes, failed_ids_inside id nodes)

abbrev pub spread_failure : ServiceNode → ServiceNode
spread_failure = fail_with "propagated failure"

-- Those in the list are marked, the others stay as they are.
pub get-fail_all :
    (w : String) (ids : List String) (nodes : Map String ServiceNode)
    → get w (fail_all ids nodes)
      ≡ (if contains w ids then Option.map spread_failure (get w nodes) else get w nodes)
unfolding fail_all contains
get-fail_all w [] nodes = refl
get-fail_all w (id ∷ ids) nodes = ground (
  arith,
  get-fail_all w ids (modify id spread_failure nodes),
  get-modify id w spread_failure nodes,
)
