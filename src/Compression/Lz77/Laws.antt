-- ===== src/Compression/Lz77/Laws.antt =====
-- LZ77 compression loses nothing.
use native.Mathlib.Numerals.{add-one}
use helix_router_adaptive_as.Common.{
  ℕ, zero, suc, ◌+◌, ◌-◌, ◌*◌, ◌/◌, ◌%◌, ◌≤◌, ◌<◌, ◌≡◌, refl, ap, ◌∙◌, List, [], ◌∷◌, ◌++◌, none,
  some, arith, length, ltb, leb, take, get_elem?, length-take, Bool-cases, inl, inr, lt→ltb, ltb→lt,
  leb→le, subst, sym,
}
use helix_router_adaptive_as.Compression.Lz77.{
  byte, best_match, compress_loop, lz77_compress, copy, token, push, decompress_loop,
  lz77_decompress, emit,
}
use helix_router_adaptive_as.Compression.Lz77.Match.{Agree, Usable, best_match-Usable}

byte-take :
    (bytes : List ℕ) (p s : ℕ)
    → s < p
    → p ≤ length bytes
    → get_elem? (take p bytes) s ≡ some (byte bytes s)
byte-take bytes zero s h k = elim h [ ]
byte-take [] (suc p) s h k = absurd (omega arith)
byte-take (x ∷ xs) (suc p) zero h k = refl
byte-take (x ∷ xs) (suc p) (suc s) h k = byte-take xs p s (omega arith) (omega arith)

take-suc :
    (bytes : List ℕ) (p : ℕ)
    → p < length bytes
    → take p bytes ++ (byte bytes p ∷ []) ≡ take (suc p) bytes
take-suc [] p h = absurd (omega arith)
take-suc (x ∷ xs) zero h = refl
take-suc (x ∷ xs) (suc p) h = ap (◌∷◌ x) (take-suc xs p (omega arith))

take-add_one :
    (bytes : List ℕ) (p : ℕ)
    → p < length bytes
    → take p bytes ++ (byte bytes p ∷ []) ≡ take (p + 1) bytes
take-add_one bytes p h = rw add-one (take-suc bytes p h)

take-length : (bytes : List ℕ) (n : ℕ) → length bytes ≤ n → take n bytes ≡ bytes
take-length [] zero h = refl
take-length [] (suc n) h = refl
take-length (x ∷ xs) zero h = absurd (omega arith)
take-length (x ∷ xs) (suc n) h = ap (◌∷◌ x) (take-length xs n (omega arith))

-- Copying a match extends the prefix of the input that is there by its length.
copy-take :
    (bytes : List ℕ) (n s p : ℕ)
    → Agree bytes s p n
    → s < p
    → p + n ≤ length bytes
    → copy n s (take p bytes) ≡ some (take (p + n) bytes)
unfolding copy
copy-take bytes zero s p a h k = ap (λ (m : ℕ). some (take m bytes)) {y = p + 0} (omega arith)
copy-take bytes (suc n) s p a h k =
    let e : take p bytes ++ (byte bytes s ∷ []) ≡ take (p + 1) bytes =
      ap (λ b. take p bytes ++ (b ∷ [])) a.0 ∙ take-add_one bytes p (omega arith) in
    let sum : p + 1 + n ≡ p + suc n = omega arith in
    rw (byte-take bytes p s h (omega arith), copy)
      (ap (copy n (s + 1)) e
        ∙ copy-take bytes n (s + 1) (p + 1) a.1 (omega arith) (omega arith)
        ∙ ap (λ m. some (take m bytes)) sum)

length-prefix : (bytes : List ℕ) (p : ℕ) → p ≤ length bytes → length (take p bytes) ≡ p
length-prefix bytes p h = omega (arith, length-take p bytes)

token-copy :
    (off n next : ℕ) (out : List ℕ)
    → 0 < off
    → 0 < n
    → token off n next 1 out ≡ push (copy n (length out - off) out) next
unfolding token
token-copy off n next out h k = rw (lt→ltb 0 off h, lt→ltb 0 n k) refl

token-referred :
    (bytes : List ℕ) (lookahead pos n off : ℕ)
    → lookahead < 256
    → 2 ≤ n
    → Usable bytes lookahead pos (n, off)
    → token (off / 256 * 256 + off % 256) (n % 256) (byte bytes (pos + n)) 1 (take pos bytes)
      ≡ some (take (pos + n + 1) bytes)
token-referred bytes lookahead pos n off small two u =
    let wide : off / 256 * 256 + off % 256 ≡ off = omega arith in
    let len : n % 256 ≡ n = omega (arith, u.len_le) in
    let full = length-prefix bytes pos (omega (arith, u.ends)) in
    rw
      (
        wide,
        len,
        token-copy off n (byte bytes (pos + n)) (take pos bytes) u.back.0 (omega arith),
        full,
        copy-take bytes n (pos - off) pos u.agrees (omega (arith, u.back)) (omega (arith, u.ends)),
      )
      (ap some (take-add_one bytes (pos + n) u.ends))

token-literal :
    (bytes : List ℕ) (pos : ℕ)
    → pos < length bytes
    → token 0 0 (byte bytes pos) 0 (take pos bytes) ≡ some (take (pos + 1) bytes)
unfolding token
token-literal bytes pos h = ap some (take-add_one bytes pos h)

-- A run of the loop writes back the rest of the input behind the prefix that is there.
abbrev Restores : List ℕ → ℕ → List ℕ → Type 0
Restores bytes pos tokens = decompress_loop tokens (take pos bytes) ≡ some bytes

emit-Restores :
    (bytes : List ℕ) (offset len next is_ref pos pos' : ℕ) (rest : List ℕ)
    → token (offset / 256 * 256 + offset % 256) (len % 256) next is_ref (take pos bytes)
      ≡ some (take pos' bytes)
    → Restores bytes pos' rest
    → Restores bytes pos (emit offset len next is_ref rest)
unfolding decompress_loop
emit-Restores bytes offset len next is_ref pos pos' rest e h =
    subst (λ t. elim t [ none ↦ none | some out' ↦ decompress_loop rest out' ] ≡ some bytes) (sym e)
      h

compress-Restores :
    (fuel : ℕ) (bytes : List ℕ) (window lookahead pos : ℕ)
    → window < 65536
    → lookahead < 256
    → length bytes ≤ pos + fuel
    → Restores bytes pos (compress_loop fuel bytes window lookahead pos)
unfolding compress_loop decompress_loop
compress-Restores zero bytes window lookahead pos hw hl h =
    ap some (take-length bytes pos (omega arith))
compress-Restores (suc fuel) bytes window lookahead pos hw hl h =
    elim (Bool-cases (ltb pos (length bytes))) [
      | inr e ↦ rw e (ap some (take-length bytes pos (ground arith)))
      | inl e ↦ rw e (elim (Bool-cases (leb 2 (best_match bytes window lookahead pos).0)) [
        | inr d ↦ rw d (
            emit-Restores bytes 0 0 (byte bytes pos) 0 pos (pos + 1) _
              (token-literal bytes pos (ltb→lt pos (length bytes) e))
              (compress-Restores fuel bytes window lookahead (pos + 1) hw hl (omega arith)))
        | inl d ↦ rw d (
            let best = best_match bytes window lookahead pos in
            let two = leb→le 2 best.0 d in
            emit-Restores bytes best.1 best.0 (byte bytes (pos + best.0)) 1 pos (pos + best.0 + 1) _
              (token-referred bytes lookahead pos best.0 best.1 hl two
                (best_match-Usable bytes window lookahead pos hw (ltb→lt pos (length bytes) e) two))
              (compress-Restores fuel bytes window lookahead (pos + best.0 + 1) hw hl
                (omega arith)))
      ])
    ]

-- With offsets that fit 16 bits and lengths that fit 8, decompressing what the LZ77 compressor made
-- of some bytes gives these bytes, with no read out of range.
pub lz77_decompress-compress :
    (bytes : List ℕ) (window lookahead : ℕ)
    → window < 65536
    → lookahead < 256
    → lz77_decompress (lz77_compress bytes window lookahead) ≡ some bytes
unfolding lz77_compress lz77_decompress
lz77_decompress-compress bytes window lookahead hw hl =
    compress-Restores (length bytes) bytes window lookahead 0 hw hl (omega arith)
