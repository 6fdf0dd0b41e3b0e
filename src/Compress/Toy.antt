-- ===== src/Compress/Toy.antt =====
-- A toy of zstd that stores its input, and so meets the contract.
use rustdesk_server_demo.Prelude.{
  ℕ, ◌≤◌, ◌<◌, ◌≡◌, Option, none, some, List, ltb, if◌then◌else◌, length, arith,
}
use rustdesk_server_demo.Compress.{Zstd}

abbrev unstore : List ℕ → ℕ → Option (List ℕ)
unstore res n = if ltb n (length res) then none else some res

pub fits :
    (bytes res : List ℕ) (n : ℕ)
    → some bytes ≡ some res
    → length bytes ≤ n
    → unstore res n ≡ some bytes
fits bytes res n h le = ground arith

pub too_small :
    (bytes res : List ℕ) (n : ℕ) → some bytes ≡ some res → n < length bytes → unstore res n ≡ none
too_small bytes res n h lt = ground arith

pub bounded : (bytes out : List ℕ) (n : ℕ) → unstore bytes n ≡ some out → length out ≤ n
bounded bytes out n h = ground arith

abbrev pub toy : Zstd
toy = record {
  compress_block = λ bytes level. some bytes;
  decompress_block = unstore;
  decompress-compress_block = λ bytes res level n. fits bytes res n;
  decompress-compress_block_small = λ bytes res level n. too_small bytes res n;
  length-decompress_block = bounded;
}
