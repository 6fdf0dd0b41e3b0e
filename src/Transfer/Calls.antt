-- ===== src/Transfer/Calls.antt =====
-- Sequences of calls: of `read` on one job, and of `write` with each block that comes.
use rustdesk_server_demo.Prelude.{◌≡◌, true, Option, none, some, List, [], ◌∷◌}
use rustdesk_server_demo.Compress.{Zstd}
use rustdesk_server_demo.Disk.{Disk}
use rustdesk_server_demo.Transfer.{FileTransferBlock, TransferJob}
use rustdesk_server_demo.Transfer.Read
use rustdesk_server_demo.Transfer.Read.{block, read}
use rustdesk_server_demo.Transfer.Write
use rustdesk_server_demo.Transfer.Write.{WriteResult, written, write}

module _ (zstd : Zstd) (disk : Disk) where
  -- Calls of `read` that each give a block, whatever the operating system answers each time.
  pub data Reads : TransferJob → List FileTransferBlock → TransferJob → Type 0 where
    stop : (job : TransferJob) → Reads job [] job
    more :
        (os : Read.Os) (job job' last : TransferJob) (b : FileTransferBlock)
        (bs : List FileTransferBlock)
        → read zstd true disk os job ≡ (block b, job')
        → Reads job' bs last
        → Reads job (b ∷ bs) last

-- Every call of the operating system succeeds, and each write is done before a time is set.
abbrev pub all_ok : Write.Os
all_ok = record {
  rename_ok = true;
  mtime_ok = true;
  remove_ok = true;
  dirs_ok = true;
  sync_ok = true;
  create_ok = true;
  short = none;
  settled = true;
}

abbrev pub if_written {ℓ} : {A : Type ℓ} → WriteResult → Option A → Option A
if_written written rest = rest
if_written _ rest = none

module _ (zstd : Zstd) where
  -- The blocks are written one after another; `none` if a `write` fails.
  unfoldable pub write_all :
      TransferJob → Disk → List FileTransferBlock → Option (TransferJob × Disk)
  write_all job disk [] = some (job, disk)
  write_all job disk (b ∷ bs) =
      let (result, job', disk') = write zstd true all_ok job disk b in
      let rest = write_all job' disk' bs in if_written result rest
