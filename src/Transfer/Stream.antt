-- ===== src/Transfer/Stream.antt =====
-- The blocks of a whole transfer, described without the code: each file's bytes in order, in pieces, and
-- an empty block at its end.
use rustdesk_server_demo.Prelude.{ℕ, ◌+◌, ◌≡◌, true, some, List, [], ◌∷◌, ◌++◌, length, get_elem?}
use rustdesk_server_demo.Prelude.Int.{ℤ, pos}
use rustdesk_server_demo.Compress.{Zstd}
use rustdesk_server_demo.Transfer.{FileTransferBlock}
use rustdesk_server_demo.Transfer.Write.{payload}

module _ (zstd : Zstd) (id : ℤ) where
  abbrev pub IsBlock : ℕ → List ℕ → FileTransferBlock → Type 0
  IsBlock i piece b = (b.id ≡ id) × (b.file_num ≡ pos i) × (payload zstd true b ≡ piece)

module _ (zstd : Zstd) (id : ℤ) (contents : List (List ℕ)) where
  -- `Stream i left bs`: the blocks when file `i` has the bytes `left` to go.
  pub data Stream : ℕ → List ℕ → List FileTransferBlock → Type 0 where
    last :
        (i : ℕ) (left : List ℕ) (b : FileTransferBlock)
        → length contents ≡ i + 1
        → left ≡ []
        → IsBlock zstd id i [] b
        → Stream i left (b ∷ [])
    next :
        (i : ℕ) (left c : List ℕ) (b : FileTransferBlock) (bs : List FileTransferBlock)
        → get_elem? contents (i + 1) ≡ some c
        → left ≡ []
        → IsBlock zstd id i [] b
        → Stream (i + 1) c bs
        → Stream i left (b ∷ bs)
    chunk :
        (i : ℕ) (left piece rest : List ℕ) (b : FileTransferBlock) (bs : List FileTransferBlock)
        → left ≡ piece ++ rest
        → IsBlock zstd id i piece b
        → Stream i rest bs
        → Stream i left (b ∷ bs)
