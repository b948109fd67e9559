-- ===== src/Compression/Dictionary.antt =====
-- src/compression.rs: dictionary compression.
pub mod Laws
use helix_router_adaptive_as.Common.{
  ℕ, zero, suc, ◌+◌, ◌-◌, ◌%◌, ◌↔◌, ◌≡◌, refl, Bool, true, false, ◌&&◌, ◌||◌, List, [], ◌∷◌, ◌++◌,
  arith, Option, none, some, eqb, ltb, leb, if◌then◌else◌, length, take, drop, min, Key, map,
  retain, get_elem?,
}
use helix_router_adaptive_as.Common.Maps.{Map, get, insert, modify}

unfoldable pub bytes_eqb : List ℕ → List ℕ → Bool
bytes_eqb [] [] = true
bytes_eqb (x ∷ xs) (y ∷ ys) = eqb x y && bytes_eqb xs ys
bytes_eqb _ _ = false

pub bytes_eqb_iff : (xs ys : List ℕ) → (bytes_eqb xs ys ≡ true) ↔ (xs ≡ ys)
unfolding bytes_eqb
bytes_eqb_iff [] [] = (λ h. refl, λ h. refl)
bytes_eqb_iff [] (y ∷ ys) = (λ h. cc, λ h. cc)
bytes_eqb_iff (x ∷ xs) [] = (λ h. cc, λ h. cc)
bytes_eqb_iff (x ∷ xs) (y ∷ ys) = ground (arith, bytes_eqb_iff xs ys)

instance abbrev pub bytes_key : Key (List ℕ)
bytes_key = record { same = bytes_eqb; same_iff = bytes_eqb_iff }

-- `*freq.entry(ngram).or_insert(0) += 1`
unfoldable pub bump : Map (List ℕ) ℕ → List ℕ → Map (List ℕ) ℕ
bump freq gram = elim (get gram freq) [
  | none ↦ insert gram 1 freq
  | some n ↦ insert gram (n + 1) freq
]

-- The ngrams of one length, from every start that has room for it.
unfoldable pub count_grams : ℕ → Map (List ℕ) ℕ → List ℕ → Map (List ℕ) ℕ
count_grams len freq [] = freq
count_grams len freq (x ∷ xs) =
    count_grams len (if leb len (length xs + 1) then bump freq (take len (x ∷ xs)) else freq) xs

-- By frequency, then by length, the greater first; the sort is stable.
unfoldable pub precedes : List ℕ × ℕ → List ℕ × ℕ → Bool
precedes (a, m) (b, n) = ltb n m || (eqb n m && ltb (length b) (length a))

unfoldable pub insert_gram : List ℕ × ℕ → List (List ℕ × ℕ) → List (List ℕ × ℕ)
insert_gram e [] = e ∷ []
insert_gram e (x ∷ xs) = if precedes x e then x ∷ insert_gram e xs else e ∷ x ∷ xs

unfoldable pub sort_grams : List (List ℕ × ℕ) → List (List ℕ × ℕ)
sort_grams [] = []
sort_grams (e ∷ es) = insert_gram e (sort_grams es)

-- `iter` is the order in which the hash map `freq` is walked.
unfoldable pub build_dict : (Map (List ℕ) ℕ → List (List ℕ × ℕ)) → List ℕ → ℕ → List (List ℕ)
build_dict iter bytes dict_size =
    let freq = count_grams 4 (count_grams 3 (count_grams 2 [] bytes) bytes) bytes in
    map (λ e. e.0) (take (min dict_size 253) (sort_grams (retain (λ e. ltb 1 e.1) (iter freq))))

-- `lookup.insert(seq, i as u8)` for each entry from index `i` on.
unfoldable pub index_dict : ℕ → Map (List ℕ) ℕ → List (List ℕ) → Map (List ℕ) ℕ
index_dict i m [] = m
index_dict i m (s ∷ ss) = index_dict (i + 1) (insert s (i % 256) m) ss

-- The entry for the next `len` bytes, if there are as many.
unfoldable pub lookup_at : Map (List ℕ) ℕ → List ℕ → ℕ → Option ℕ
lookup_at m bytes len = if ltb (length bytes) len then none else get (take len bytes) m

-- The longest match first: its length and its index.
unfoldable pub find_match : Map (List ℕ) ℕ → List ℕ → Option (ℕ × ℕ)
find_match m bytes = elim (lookup_at m bytes 4) [
  | some idx ↦ some (4, idx)
  | none ↦ elim (lookup_at m bytes 3) [
    | some idx ↦ some (3, idx)
    | none ↦ elim (lookup_at m bytes 2) [ some idx ↦ some (2, idx) | none ↦ none ]
  ]
]

abbrev pub escaped : ℕ → List ℕ → List ℕ
escaped b rest = if eqb b 0xFE || eqb b 0xFF then 0xFF ∷ b ∷ rest else b ∷ rest

unfoldable pub compress_loop : ℕ → Map (List ℕ) ℕ → List ℕ → List ℕ
compress_loop zero m bytes = []
compress_loop (suc fuel) m [] = []
compress_loop (suc fuel) m (b ∷ bs) = elim (find_match m (b ∷ bs)) [
  | some (len, idx) ↦ 0xFE ∷ idx ∷ compress_loop fuel m (drop len (b ∷ bs))
  | none ↦ escaped b (compress_loop fuel m bs)
]

unfoldable pub dictionary_compress :
    (Map (List ℕ) ℕ → List (List ℕ × ℕ)) → List ℕ → ℕ → List ℕ × List (List ℕ)
dictionary_compress iter bytes dict_size =
    let dict = build_dict iter bytes dict_size in
    (compress_loop (length bytes) (index_dict 0 [] dict) bytes, dict)

abbrev pub entry : Option (List ℕ) → List ℕ
entry none = []
entry (some s) = s

unfoldable pub dictionary_decompress : List (List ℕ) → List ℕ → List ℕ
dictionary_decompress dict [] = []
dictionary_decompress dict (x ∷ []) = x ∷ []
dictionary_decompress dict (x ∷ y ∷ rest) =
    let referred = entry (get_elem? dict y) ++ dictionary_decompress dict rest in
    let literal = y ∷ dictionary_decompress dict rest in
    let plain = x ∷ dictionary_decompress dict (y ∷ rest) in
    if eqb x 0xFE then referred else if eqb x 0xFF then literal else plain
