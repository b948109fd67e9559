-- ===== src/Compression/Engine.antt =====
-- src/compression.rs: the engine. `decompress` returns no bytes where the code panics.
use helix_router_adaptive_as.Common.{
  ℕ, ◌≡◌, refl, List, [], Option, none, some, length, arith, ap, ltb, if◌then◌else◌,
}
use helix_router_adaptive_as.Common.Maps.{Map}
use helix_router_adaptive_as.Floats.{Floats}
use helix_router_adaptive_as.Compression.RunLength.{
  run_length_encode, run_length_decode, decode-encode,
}
use helix_router_adaptive_as.Compression.Dictionary.{dictionary_compress, dictionary_decompress}
use helix_router_adaptive_as.Compression.Dictionary.Laws.{decompress-compress}
use helix_router_adaptive_as.Compression.Lz77.{lz77_compress, lz77_decompress}
use helix_router_adaptive_as.Compression.Lz77.Laws.{lz77_decompress-compress}

pub data CompressionAlgorithm : Type 0 where
  verbatim : CompressionAlgorithm
  run_length : CompressionAlgorithm
  dictionary : CompressionAlgorithm
  lz77 : CompressionAlgorithm

abbrev pub compression_level : CompressionAlgorithm → ℕ
compression_level verbatim = 0
compression_level run_length = 1
compression_level dictionary = 2
compression_level lz77 = 3

pub record CompressedData : Type 0 where
  pub algorithm : CompressionAlgorithm
  pub original_size : ℕ
  pub compressed : List ℕ
  pub dict : Option (List (List ℕ))

-- `iter` is the order in which the hash map of the dictionary's builder is walked.
unfoldable pub compress :
    (Map (List ℕ) ℕ → List (List ℕ × ℕ)) → List ℕ → CompressionAlgorithm → CompressedData
compress iter bytes verbatim = record {
  algorithm = verbatim;
  original_size = length bytes;
  compressed = bytes;
  dict = none;
}
compress iter bytes run_length = record {
  algorithm = run_length;
  original_size = length bytes;
  compressed = run_length_encode bytes;
  dict = none;
}
compress iter bytes dictionary =
    let (packed, dict) = dictionary_compress iter bytes 128 in
    record {
      algorithm = dictionary;
      original_size = length bytes;
      compressed = packed;
      dict = some dict;
    }
compress iter bytes lz77 = record {
  algorithm = lz77;
  original_size = length bytes;
  compressed = lz77_compress bytes 255 16;
  dict = none;
}

abbrev entries : Option (List (List ℕ)) → List (List ℕ)
entries none = []
entries (some ss) = ss

abbrev unpack : CompressionAlgorithm → Option (List (List ℕ)) → List ℕ → Option (List ℕ)
unpack verbatim dict bytes = some bytes
unpack run_length dict bytes = some (run_length_decode bytes)
unpack dictionary dict bytes = some (dictionary_decompress (entries dict) bytes)
unpack lz77 dict bytes = lz77_decompress bytes

unfoldable pub decompress : CompressedData → Option (List ℕ)
decompress packed = unpack packed.algorithm packed.dict packed.compressed

-- With the entropy of the input computed by `entropy`, in bits per byte.
unfoldable pub auto_select : (fl : Floats) → (List ℕ → fl.F64) → List ℕ → CompressionAlgorithm
auto_select fl entropy bytes =
    let e = entropy bytes in
    if ltb (length bytes) 8
    then verbatim
    else if fl.lt64 e (fl.lit64 100)
    then run_length
    else if fl.lt64 e (fl.lit64 400)
    then dictionary
    else if fl.lt64 e (fl.lit64 650)
    then lz77
    else verbatim

-- Decompressing what any of the algorithms made of some bytes gives these bytes, with no panic, and
-- whatever the order in which the dictionary's builder walks its hash map.
pub engine_roundtrip :
    (iter : Map (List ℕ) ℕ → List (List ℕ × ℕ)) (bytes : List ℕ) (algo : CompressionAlgorithm)
    → decompress (compress iter bytes algo) ≡ some bytes
unfolding compress decompress
engine_roundtrip iter bytes verbatim = refl
engine_roundtrip iter bytes run_length = ap some (decode-encode bytes)
engine_roundtrip iter bytes dictionary = ap some (decompress-compress iter bytes 128)
engine_roundtrip iter bytes lz77 = lz77_decompress-compress bytes 255 16 (omega arith) (omega arith)
