-- ===== src/Compression/RunLength.antt =====
-- src/compression.rs: run-length encoding.
use native.Mathlib.Numerals.{add-one}
use helix_router_adaptive_as.Common.{
  ℕ, zero, suc, ◌+◌, ◌*◌, ◌%◌, ◌≤◌, ◌≡◌, refl, ap, ◌∙◌, ◌&&◌, List, [], ◌∷◌, ◌++◌, arith, eqb, ltb,
  if◌then◌else◌, length, replicate,
}

-- How far a run of `b` goes, at most to 255: its length, counted from `count`, and what follows.
unfoldable pub span_run : ℕ → ℕ → List ℕ → ℕ × List ℕ
span_run b count [] = (count, [])
span_run b count (x ∷ xs) =
    let longer = span_run b (count + 1) xs in
    if eqb x b && ltb count 255 then longer else (count, x ∷ xs)

unfoldable pub encode_loop : ℕ → List ℕ → List ℕ
encode_loop zero bytes = []
encode_loop (suc fuel) [] = []
encode_loop (suc fuel) (b ∷ rest) =
    let r = span_run b 1 rest in (r.0 % 256) ∷ b ∷ encode_loop fuel r.1

-- Each round takes at least one byte, so the length is fuel enough.
unfoldable pub run_length_encode : List ℕ → List ℕ
run_length_encode bytes = encode_loop (length bytes) bytes

unfoldable pub run_length_decode : List ℕ → List ℕ
run_length_decode [] = []
run_length_decode (c ∷ []) = []
run_length_decode (c ∷ b ∷ rest) = replicate c b ++ run_length_decode rest

replicate-suc :
    (n b : ℕ) (rest : List ℕ) → replicate (suc n) b ++ rest ≡ replicate n b ++ (b ∷ rest)
replicate-suc zero b rest = refl
replicate-suc (suc n) b rest = ap (◌∷◌ b) (replicate-suc n b rest)

replicate-add_one :
    (n b : ℕ) (rest : List ℕ) → replicate (n + 1) b ++ rest ≡ replicate n b ++ (b ∷ rest)
replicate-add_one n b rest = rw add-one (replicate-suc n b rest)

-- What a span has taken, and its bounds.
record Spans (b count : ℕ) (xs : List ℕ) (r : ℕ × List ℕ) : Type 0 where
  split : replicate r.0 b ++ r.1 ≡ replicate count b ++ xs
  bounded : (1 ≤ r.0) × (r.0 ≤ 255)
  shorter : length r.1 ≤ length xs

span_run-Spans :
    (b count : ℕ) (xs : List ℕ) → 1 ≤ count → count ≤ 255 → Spans b count xs (span_run b count xs)
unfolding span_run
span_run-Spans b count [] lo hi = record { split = refl; bounded = (lo, hi); shorter = omega arith }
span_run-Spans b count (x ∷ xs) lo hi =
    ground (arith, span_run-Spans b (count + 1) xs, replicate-add_one count b xs)

decode-encode_loop :
    (fuel : ℕ) (xs : List ℕ) → length xs ≤ fuel → run_length_decode (encode_loop fuel xs) ≡ xs
unfolding run_length_decode encode_loop
decode-encode_loop zero [] h = refl
decode-encode_loop zero (x ∷ xs) h = absurd (omega arith)
decode-encode_loop (suc fuel) [] h = refl
decode-encode_loop (suc fuel) (b ∷ xs) h =
    let s = span_run-Spans b 1 xs (omega arith) (omega arith) in
    let r = span_run b 1 xs in
    let small : r.0 % 256 ≡ r.0 = omega (arith, s.bounded) in
    ap (λ n. replicate n b ++ run_length_decode (encode_loop fuel r.1)) small
    ∙ ap (λ t. replicate r.0 b ++ t) (decode-encode_loop fuel r.1 (omega (arith, s.shorter)))
    ∙ s.split

-- Decoding an encoding gives the bytes back.
pub decode-encode : (xs : List ℕ) → run_length_decode (run_length_encode xs) ≡ xs
unfolding run_length_encode
decode-encode xs = decode-encode_loop (length xs) xs (omega arith)

-- What an encoding is made of: pairs of a count from 1 to 255 and a byte.
abbrev pub IsEncoded : List ℕ → Type 0
IsEncoded [] = Unit
IsEncoded (c ∷ []) = ⊥
IsEncoded (c ∷ b ∷ rest) = (1 ≤ c) × (c ≤ 255) × IsEncoded rest

encode_loop-IsEncoded :
    (fuel : ℕ) (xs : List ℕ)
    → IsEncoded (encode_loop fuel xs) × (length (encode_loop fuel xs) ≤ 2 * length xs)
unfolding encode_loop
encode_loop-IsEncoded zero xs = (tt, omega arith)
encode_loop-IsEncoded (suc fuel) [] = (tt, omega arith)
encode_loop-IsEncoded (suc fuel) (b ∷ xs) =
    let s = span_run-Spans b 1 xs (omega arith) (omega arith) in
    let h = encode_loop-IsEncoded fuel (span_run b 1 xs).1 in
    ((omega (arith, s.bounded), omega (arith, s.bounded), h.0), omega (arith, s.shorter, h.1))

-- An encoding is a sequence of pairs of a count from 1 to 255 and a byte, and takes at most twice
-- the space.
pub encode-IsEncoded :
    (xs : List ℕ)
    → IsEncoded (run_length_encode xs) × (length (run_length_encode xs) ≤ 2 * length xs)
unfolding run_length_encode
encode-IsEncoded xs = encode_loop-IsEncoded (length xs) xs
