-- ===== src/Compression/Dictionary/Laws.antt =====
-- Dictionary compression loses nothing.
use native.Mathlib.Numerals.{add-one}
use helix_router_adaptive_as.Common.{
  ℕ, zero, suc, ◌+◌, ◌%◌, ◌≤◌, ◌≡◌, refl, ap, ◌∙◌, inl, inr, List, [], ◌∷◌, ◌++◌, arith, some,
  length, take, drop, get_elem?, take-append-drop, length-take, length-drop, map, Option-cases,
}
use helix_router_adaptive_as.Common.Maps.{Map, get, insert, get-insert}
use helix_router_adaptive_as.Compression.Dictionary.{
  bytes_eqb_iff, bytes_key, build_dict, index_dict, lookup_at, find_match, compress_loop,
  dictionary_compress, dictionary_decompress, escaped,
}

-- The lookup map names, for each sequence, a place of the dictionary that holds it.
abbrev pub Indexes : List (List ℕ) → Map (List ℕ) ℕ → Type 0
Indexes dict m = (s : List ℕ) (i : ℕ) → get s m ≡ some i → get_elem? dict i ≡ some s

drop-cons :
    (i : ℕ) (xs : List (List ℕ)) (s : List ℕ) (ss : List (List ℕ))
    → drop i xs ≡ s ∷ ss
    → (get_elem? xs i ≡ some s) × (drop (suc i) xs ≡ ss)
drop-cons zero [] s ss h = cc
drop-cons zero (x ∷ xs) s ss h = ground arith
drop-cons (suc i) [] s ss h = cc
drop-cons (suc i) (x ∷ xs) s ss h = drop-cons i xs s ss h

insert-Indexes :
    (dict : List (List ℕ)) (m : Map (List ℕ) ℕ) (s : List ℕ) (i : ℕ)
    → get_elem? dict i ≡ some s
    → Indexes dict m
    → Indexes dict (insert s i m)
insert-Indexes dict m s i at ok s' j h =
    ground (arith, get-insert s s' i m, bytes_eqb_iff s s', ok s' j)

index_dict-Indexes :
    (dict ss : List (List ℕ)) (i : ℕ) (m : Map (List ℕ) ℕ)
    → drop i dict ≡ ss
    → i + length ss ≤ 256
    → Indexes dict m
    → Indexes dict (index_dict i m ss)
unfolding index_dict
index_dict-Indexes dict [] i m e h ok = ok
index_dict-Indexes dict (s ∷ ss) i m e h ok =
    let here = drop-cons i dict s ss e in
    let small : i % 256 ≡ i = omega arith in
    index_dict-Indexes dict ss (i + 1) (insert s (i % 256) m) (rw add-one here.1) (omega arith)
      (rw small (insert-Indexes dict m s i here.0 ok))

-- A match stands at the front of the input, and in the dictionary.
find_match-prefix :
    (dict : List (List ℕ)) (m : Map (List ℕ) ℕ) (bytes : List ℕ) (len idx : ℕ)
    → Indexes dict m
    → find_match m bytes ≡ some (len, idx)
    → (get_elem? dict idx ≡ some (take len bytes)) × (1 ≤ len)
unfolding find_match lookup_at
find_match-prefix dict m bytes len idx ok h =
    ground (arith, ok (take 4 bytes) idx, ok (take 3 bytes) idx, ok (take 2 bytes) idx)

-- Where there is no match, the byte is escaped if it reads as a mark.
decompress-escaped :
    (dict : List (List ℕ)) (b : ℕ) (rest : List ℕ)
    → dictionary_decompress dict (escaped b rest) ≡ b ∷ dictionary_decompress dict rest
unfolding dictionary_decompress
decompress-escaped dict b [] = ground arith
decompress-escaped dict b (x ∷ rest) = ground arith

decompress-referred :
    (dict : List (List ℕ)) (idx : ℕ) (s rest : List ℕ)
    → get_elem? dict idx ≡ some s
    → dictionary_decompress dict (0xFE ∷ idx ∷ rest) ≡ s ++ dictionary_decompress dict rest
unfolding dictionary_decompress
decompress-referred dict idx s rest h = rw h

-- One round of the compressor: a reference or a literal, and then the rest.
compress_round :
    (dict : List (List ℕ)) (m : Map (List ℕ) ℕ) (fuel b : ℕ) (bs : List ℕ)
    → Indexes dict m
    → length bs ≤ fuel
    → ((rest : List ℕ)
        → length rest ≤ fuel
        → dictionary_decompress dict (compress_loop fuel m rest) ≡ rest)
    → dictionary_decompress dict (compress_loop (suc fuel) m (b ∷ bs)) ≡ b ∷ bs
unfolding compress_loop
compress_round dict m fuel b bs ok h ih = elim (Option-cases (find_match m (b ∷ bs))) [
  | inl e ↦
      rw (e, compress_loop)
        (decompress-escaped dict b (compress_loop fuel m bs) ∙ ap (◌∷◌ b) (ih bs h))
  | inr ((len, idx), e) ↦
      (let p = find_match-prefix dict m (b ∷ bs) len idx ok e in
        rw (e, compress_loop)
          (decompress-referred dict idx (take len (b ∷ bs)) _ p.0
            ∙ ap (◌++◌ (take len (b ∷ bs)))
                (ih (drop len (b ∷ bs)) (omega (arith, p.1, length-drop len (b ∷ bs))))
            ∙ take-append-drop len (b ∷ bs)))
]

decompress-loop :
    (dict : List (List ℕ)) (m : Map (List ℕ) ℕ) (fuel : ℕ)
    → Indexes dict m
    → (bytes : List ℕ) → length bytes ≤ fuel
    → dictionary_decompress dict (compress_loop fuel m bytes) ≡ bytes
unfolding compress_loop dictionary_decompress
decompress-loop dict m zero ok [] h = refl
decompress-loop dict m zero ok (b ∷ bs) h = absurd (omega arith)
decompress-loop dict m (suc fuel) ok [] h = refl
decompress-loop dict m (suc fuel) ok (b ∷ bs) h =
    compress_round dict m fuel b bs ok (omega arith) (decompress-loop dict m fuel ok)

length-map {ℓ κ} :
    {A : Type ℓ} {B : Type κ} (f : A → B) (xs : List A) → length (map f xs) ≡ length xs
length-map f [] = refl
length-map f (x ∷ xs) = ap suc (length-map f xs)

length-build_dict :
    (iter : Map (List ℕ) ℕ → List (List ℕ × ℕ)) (bytes : List ℕ) (n : ℕ)
    → length (build_dict iter bytes n) ≤ 253
unfolding build_dict
length-build_dict iter bytes n = rw length-map (rw length-take (omega arith))

-- Whatever the dictionary size asked for, decompressing with the dictionary that compression
-- returns gives the bytes back.
pub decompress-compress :
    (iter : Map (List ℕ) ℕ → List (List ℕ × ℕ)) (bytes : List ℕ) (dict_size : ℕ)
    → let (packed, dict) = dictionary_compress iter bytes dict_size in
      dictionary_decompress dict packed ≡ bytes
unfolding dictionary_compress get
decompress-compress iter bytes n =
    let dict = build_dict iter bytes n in
    decompress-loop dict (index_dict 0 [] dict) (length bytes)
      (index_dict-Indexes dict dict 0 [] refl (omega (arith, length-build_dict iter bytes n))
        (λ s i h. cc))
      bytes (omega arith)
