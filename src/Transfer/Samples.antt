-- ===== src/Transfer/Samples.antt =====
-- Two files on a disk, a job that sends them, and its blocks.
use rustdesk_server_demo.Prelude.{
  some_inj, ℕ, zero, suc, refl, sym, ap, true, false, none, some, List, [], ◌∷◌, arith,
}
use rustdesk_server_demo.Prelude.HashMap
use rustdesk_server_demo.Prelude.Int.{pos}
use rustdesk_server_demo.Compress.Toy.{toy}
use rustdesk_server_demo.Disk.{Disk, lookup}
use rustdesk_server_demo.Transfer.{file, FileEntry, FileTransferBlock, TransferJob, join}
use rustdesk_server_demo.Transfer.Read
use rustdesk_server_demo.Transfer.Read.{read, fill, unread, after_fill, pack}
use rustdesk_server_demo.Transfer.Packed.{Compresses}
use rustdesk_server_demo.Transfer.Sender.{Sources}

abbrev pub entry_a : FileEntry
entry_a = record { entry_type = file; name = "a"; is_hidden = false; size = 2; modified_time = 10 }

abbrev pub entry_b : FileEntry
entry_b = record {
  entry_type = file;
  name = "b.gz";
  is_hidden = false;
  size = 1;
  modified_time = 20;
}

abbrev pub from_disk : Disk
from_disk = record {
  names = ("/s/a", 0) ∷ ("/s/b.gz", 1) ∷ [];
  inodes =
      record { bytes = 1 ∷ 2 ∷ []; mtime = some 10 }
      ∷ record { bytes = 3 ∷ []; mtime = some 20 }
      ∷ [];
  dirs = [];
}

abbrev pub to_disk : Disk
to_disk = record {
  names = ("/r/a", 0) ∷ [];
  inodes = record { bytes = 9 ∷ []; mtime = none } ∷ [];
  dirs = [];
}

abbrev pub sender : TransferJob
sender = record {
  id = pos 5;
  path = "/s";
  files = entry_a ∷ entry_b ∷ [];
  file_num = pos 0;
  file = none;
  total_size = 0;
  finished_size = 0;
  transfered = 0;
}

-- Reads of one byte at a time.
abbrev pub slow : Read.Os
slow = record { open_ok = true; chunk = λ i. some 0; error = "" }

abbrev pub block_of : ℕ → List ℕ → FileTransferBlock
block_of num bytes = record { id = pos 5; file_num = pos num; bytes = bytes; compressed = false }

abbrev pub blocks : List FileTransferBlock
blocks = block_of 0 (1 ∷ 2 ∷ []) ∷ block_of 0 [] ∷ block_of 1 (3 ∷ []) ∷ block_of 1 [] ∷ []

abbrev pub reading : ℕ → ℕ → ℕ → ℕ → TransferJob
reading num h offset n = record sender {
  file_num = pos num;
  file = some (record { inode = h; offset = offset });
  finished_size = n;
  transfered = n;
}

abbrev pub between : ℕ → ℕ → TransferJob
between num n = record sender { file_num = pos num; finished_size = n; transfered = n }

abbrev pub sent : TransferJob
sent = between 2 3

pub works : Compresses toy
works buf fits = (buf, refl)

pub sources : Sources from_disk sender ((1 ∷ 2 ∷ []) ∷ (3 ∷ []) ∷ [])
unfolding lookup join HashMap.get
sources zero e entry = (
  _,
  refl,
  (_, ap (λ x. lookup from_disk (join sender x.name)) (sym (some_inj entry_a e entry)), refl),
)
sources (suc zero) e entry = (
  _,
  refl,
  (_, ap (λ x. lookup from_disk (join sender x.name)) (sym (some_inj entry_b e entry)), refl),
)
sources (suc (suc k)) e entry = absurd (ground arith)
