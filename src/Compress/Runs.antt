-- ===== src/Compress/Runs.antt =====
-- The theorems at a toy of zstd.
use rustdesk_server_demo.Prelude.{
  ℕ, ◌≤◌, ◌≡◌, refl, true, List, [], ◌∷◌, ltb, if◌then◌else◌, length,
}
use rustdesk_server_demo.Prelude.Int.{pos}
use rustdesk_server_demo.Compress.{max_size, min_size, compress, decompress}
use rustdesk_server_demo.Compress.Toy.{toy}
use rustdesk_server_demo.Compress.RoundTrip.{lost, decompress-compress, length-decompress}

abbrev sample : List ℕ
sample = 7 ∷ 8 ∷ []

decompress-compress_example :
    decompress toy true (compress toy true sample (pos 3))
    ≡ (if ltb min_size (length sample) then (if lost sample sample then [] else sample) else sample)
decompress-compress_example = decompress-compress toy sample sample (pos 3) refl

length-decompress_example : length (decompress toy true sample) ≤ max_size
length-decompress_example = length-decompress toy true sample
