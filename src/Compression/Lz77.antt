-- ===== src/Compression/Lz77.antt =====
-- src/compression.rs: the LZ77 codec. A token takes five bytes: the offset, high byte first, the
-- length, the next byte, and 1 for a back-reference or 0 for a literal.
pub mod Match
pub mod Laws
use helix_router_adaptive_as.Common.{
  ℕ, zero, suc, ◌+◌, ◌-◌, ◌*◌, ◌/◌, ◌%◌, Bool, true, false, ◌&&◌, List, [], ◌∷◌, ◌++◌, Option, none,
  some, eqb, ltb, leb, if◌then◌else◌, length, min, get_elem?,
}

-- `bytes[i]`; every read of the compressor is in range.
abbrev pub byte_or : Option ℕ → ℕ
byte_or none = 0
byte_or (some b) = b

abbrev pub byte : List ℕ → ℕ → ℕ
byte bytes i = byte_or (get_elem? bytes i)

-- How many bytes from `s` agree with those from `p`; a match from before `pos` stops at `pos`.
unfoldable pub match_len : ℕ → List ℕ → ℕ → ℕ → ℕ → ℕ → ℕ
match_len zero bytes la_end pos s p = 0
match_len (suc fuel) bytes la_end pos s p =
    let rest = suc (match_len fuel bytes la_end pos (s + 1) (p + 1)) in
    if ltb p la_end && eqb (byte bytes s) (byte bytes p)
    then (if leb pos (s + 1) then 1 else rest)
    else 0

-- The best length and offset over `count` starts from `start` on.
unfoldable pub search_window : ℕ → List ℕ → ℕ → ℕ → ℕ → ℕ × ℕ → ℕ × ℕ
search_window zero bytes la_end pos start best = best
search_window (suc count) bytes la_end pos start best =
    let len = match_len (la_end - pos) bytes la_end pos start pos in
    search_window count bytes la_end pos (start + 1)
      (if ltb best.0 len then (len, (pos - start) % 65536) else best)

-- The best match at `pos`, one byte shorter if it would run to the end.
unfoldable pub best_match : List ℕ → ℕ → ℕ → ℕ → ℕ × ℕ
best_match bytes window lookahead pos =
    let win_start = pos - window in
    let la_end = min (pos + lookahead) (length bytes) in
    let best = search_window (pos - win_start) bytes la_end pos win_start (0, 0) in
    (if leb (length bytes) (pos + best.0) then best.0 - 1 else best.0, best.1)

abbrev pub emit : ℕ → ℕ → ℕ → ℕ → List ℕ → List ℕ
emit offset len next is_ref rest =
    (offset / 256) ∷ (offset % 256) ∷ (len % 256) ∷ next ∷ is_ref ∷ rest

unfoldable pub compress_loop : ℕ → List ℕ → ℕ → ℕ → ℕ → List ℕ
compress_loop zero bytes window lookahead pos = []
compress_loop (suc fuel) bytes window lookahead pos =
    let best = best_match bytes window lookahead pos in
    let referred =
      emit best.1 best.0 (byte bytes (pos + best.0)) 1
        (compress_loop fuel bytes window lookahead (pos + best.0 + 1)) in
    let literal =
      emit 0 0 (byte bytes pos) 0 (compress_loop fuel bytes window lookahead (pos + 1)) in
    let token = if leb 2 best.0 then referred else literal in
    if ltb pos (length bytes) then token else []

-- Each token takes at least one byte, so the length is fuel enough.
unfoldable pub lz77_compress : List ℕ → ℕ → ℕ → List ℕ
lz77_compress bytes window lookahead = compress_loop (length bytes) bytes window lookahead 0

-- `out[start + j]` for `j` below the length, pushed one by one; `none` is the panic of a read past
-- the end.
unfoldable pub copy : ℕ → ℕ → List ℕ → Option (List ℕ)
copy zero s out = some out
copy (suc n) s out = elim (get_elem? out s) [
  | none ↦ none
  | some b ↦ copy n (s + 1) (out ++ (b ∷ []))
]

abbrev pub push : Option (List ℕ) → ℕ → Option (List ℕ)
push none next = none
push (some out) next = some (out ++ (next ∷ []))

unfoldable pub token : ℕ → ℕ → ℕ → ℕ → List ℕ → Option (List ℕ)
token offset len next is_ref out =
    if eqb is_ref 1 && (ltb 0 offset && ltb 0 len)
    then push (copy len (length out - offset) out) next
    else some (out ++ (next ∷ []))

unfoldable pub decompress_loop : List ℕ → List ℕ → Option (List ℕ)
decompress_loop (hi ∷ lo ∷ len ∷ next ∷ is_ref ∷ rest) out =
    elim (token (hi * 256 + lo) len next is_ref out) [
      | none ↦ none
      | some out' ↦ decompress_loop rest out'
    ]
decompress_loop _ out = some out

unfoldable pub lz77_decompress : List ℕ → Option (List ℕ)
lz77_decompress tokens = decompress_loop tokens []
