-- ===== src/Compress/RoundTrip.antt =====
-- Which data come back from `compress` and `decompress`.
use rustdesk_server_demo.Prelude.{
  ℕ, ◌*◌, ◌≤◌, ◌≡◌, refl, Bool, true, false, ◌||◌, Option, none, some, List, [], ltb, if◌then◌else◌,
  length, arith,
}
use rustdesk_server_demo.Prelude.Int.{ℤ}
use rustdesk_server_demo.Compress.{
  Zstd, max_size, min_size, or_nothing, capacity, compress, decompress,
}

-- The data are too long for the block that they were compressed to.
abbrev pub lost : List ℕ → List ℕ → Bool
lost bytes res = ltb max_size (length bytes) || ltb (30 * length res) (length bytes)

capacity_bound : (bytes : List ℕ) → capacity bytes ≤ max_size
unfolding capacity
capacity_bound bytes = ground arith

-- `decompress` after a `compress` that zstd does not refuse: data of up to 1 MB come back, longer data
-- exactly if they are at most 64 MB and at most 30 times their compressed form, and else nothing does.
pub decompress-compress :
    (zstd : Zstd) (bytes res : List ℕ) (level : ℤ)
    → zstd.compress_block bytes level ≡ some res
    → decompress zstd true (compress zstd true bytes level)
      ≡ (if ltb min_size (length bytes) then (if lost bytes res then [] else bytes) else bytes)
unfolding compress decompress capacity
decompress-compress zstd bytes res level h = rw h (
    ground (
      arith,
      zstd.decompress-compress_block bytes res level (capacity res) h,
      zstd.decompress-compress_block_small bytes res level (capacity res) h,
    ))

-- Whatever bytes a peer sends, `decompress` gives at most 64 MB.
pub length-decompress :
    (zstd : Zstd) (free : Bool) (bytes : List ℕ) → length (decompress zstd free bytes) ≤ max_size
unfolding decompress
length-decompress zstd false bytes = omega arith
length-decompress zstd true bytes = by_result (zstd.decompress_block bytes (capacity bytes)) refl
  where
    by_result :
        (r : Option (List ℕ))
        → zstd.decompress_block bytes (capacity bytes) ≡ r
        → length (or_nothing r) ≤ max_size
    by_result none h = omega arith
    by_result (some out) h =
        omega
          (arith, zstd.length-decompress_block bytes out (capacity bytes) h, capacity_bound bytes)
