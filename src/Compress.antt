-- ===== src/Compress.antt =====
-- libs/hbb_common/src/compress.rs: compression whose failures give no bytes. zstd is the record `Zstd`.
pub mod RoundTrip
pub mod Toy
mod Runs
use rustdesk_server_demo.Prelude.{
  ℕ, ◌*◌, ◌≤◌, ◌<◌, ◌≡◌, Bool, true, false, Option, none, some, List, [], ltb, if◌then◌else◌,
  length,
}
use rustdesk_server_demo.Prelude.Int.{ℤ}

-- The documented contract of the block interface: a compressed block comes back under a capacity that
-- holds it and is refused under a smaller one, and no result is longer than the capacity.
pub record Zstd : Type 0 where
  pub compress_block : List ℕ → ℤ → Option (List ℕ)
  pub decompress_block : List ℕ → ℕ → Option (List ℕ)
  pub decompress-compress_block :
      (bytes res : List ℕ) (level : ℤ) (n : ℕ)
      → compress_block bytes level ≡ some res
      → length bytes ≤ n
      → decompress_block res n ≡ some bytes
  pub decompress-compress_block_small :
      (bytes res : List ℕ) (level : ℤ) (n : ℕ)
      → compress_block bytes level ≡ some res
      → n < length bytes
      → decompress_block res n ≡ none
  pub length-decompress_block :
      (bytes out : List ℕ) (n : ℕ) → decompress_block bytes n ≡ some out → length out ≤ n

abbrev pub max_size : ℕ
max_size = 1024 * 1024 * 64

abbrev pub min_size : ℕ
min_size = 1024 * 1024

-- `out`, which stays empty on an error.
abbrev pub or_nothing : Option (List ℕ) → List ℕ
or_nothing none = []
or_nothing (some res) = res

-- `n` after the two tests.
unfoldable pub capacity : List ℕ → ℕ
capacity bytes =
    let n = 30 * length bytes in
    let capped = if ltb max_size n then max_size else n in
    if ltb capped min_size then min_size else capped

-- `free` says whether `try_borrow_mut` succeeds.
unfoldable pub compress : Zstd → Bool → List ℕ → ℤ → List ℕ
compress zstd free bytes level = if free then or_nothing (zstd.compress_block bytes level) else []

unfoldable pub decompress : Zstd → Bool → List ℕ → List ℕ
unfolding capacity
decompress zstd free bytes =
    if free then or_nothing (zstd.decompress_block bytes (capacity bytes)) else []
