-- ===== src/Transfer/ReadLaws.antt =====
-- One `read`: it ends, and gives the next 128 KB of its file however short the system's reads are; and
-- a job has a bounded number of blocks.
use mathlib.Core.Path.{subst}
use rustdesk_server_demo.Prelude.{
  ℕ, ◌+◌, ◌≡◌, ◌≢◌, sym, ap, ◌∙◌, Bool, true, false, ◌⊎◌, inl, inr, if◌then◌else◌, Option, none,
  some, List, [], ◌∷◌, get_elem?, take, arith,
}
use rustdesk_server_demo.Prelude.HashMap
use rustdesk_server_demo.Compress.{Zstd}
use rustdesk_server_demo.Disk.{Disk}
use rustdesk_server_demo.Transfer.{FileEntry, File, TransferJob, as_usize, next_num, join}
use rustdesk_server_demo.Transfer.Read.{
  Os, failed, stuck, buf_size, Filled, filled, read_failed, fill, unread, after_fill, read_open,
  opened, read_entry, read_at, read,
}
use rustdesk_server_demo.Transfer.Chunks.{fill_lem}

module _ (zstd : Zstd) (free : Bool) (disk : Disk) (os : Os) (job : TransferJob) where
  read_open_cases :
      (e : FileEntry) (f : File)
      → (read_open zstd free disk os job e f ≡ after_fill zstd free job e f read_failed)
        ⊎ (read_open zstd free disk os job e f
            ≡ after_fill zstd free job e f (filled (take buf_size (unread disk f))))
  unfolding read_open
  read_open_cases e f = by_end (
      fill_lem os.chunk (buf_size + 1) 0 buf_size [] (unread disk f) (omega arith) (omega arith)
        (omega arith))
    where
      loop : Filled
      loop = fill os.chunk (buf_size + 1) 0 [] (unread disk f)

      by_end :
          (loop ≡ read_failed) ⊎ (loop ≡ filled (take buf_size (unread disk f)))
          → (after_fill zstd free job e f loop ≡ after_fill zstd free job e f read_failed)
            ⊎ (after_fill zstd free job e f loop
                ≡ after_fill zstd free job e f (filled (take buf_size (unread disk f))))
      by_end (inl h) = inl (ap (after_fill zstd free job e f) h)
      by_end (inr h) = inr (ap (after_fill zstd free job e f) h)

  -- A `read` of a job that has its file open fails, closes the file and goes on to the next one; or it
  -- is what the rest of `read` does with the next 128 KB of the file, or with all that is left of
  -- it, whatever the lengths of the reads that the system made of it.
  pub read_lem :
      (e : FileEntry) (f : File)
      → get_elem? job.files (as_usize job.file_num) ≡ some e
      → job.file ≡ some f
      → (read zstd free disk os job
          ≡ (failed, record job { file_num = next_num job.file_num; file = none }))
        ⊎ (read zstd free disk os job
            ≡ after_fill zstd free job e f (filled (take buf_size (unread disk f))))
  unfolding read after_fill
  read_lem e f entry open_f =
      subst
        (λ r.
          (r ≡ (failed, record job { file_num = next_num job.file_num; file = none }))
          ⊎ (r ≡ after_fill zstd free job e f (filled (take buf_size (unread disk f)))))
        (sym (
          ap (read_at zstd free disk os job) entry
          ∙ ap (read_entry zstd free disk os job e) open_f))
        (read_open_cases e f)

  after_fill-ne :
      (e : FileEntry) (f : File) (out : List ℕ)
      → (after_fill zstd free job e f (filled out)).0 ≢ stuck
  unfolding after_fill
  after_fill-ne e f [] h = ground arith
  after_fill-ne e f (x ∷ xs) h = ground arith

  read_open-ne : (e : FileEntry) (f : File) → (read_open zstd free disk os job e f).0 ≢ stuck
  unfolding after_fill
  read_open-ne e f = by_end (read_open_cases e f)
    where
      by_end :
          (read_open zstd free disk os job e f ≡ after_fill zstd free job e f read_failed)
            ⊎ (read_open zstd free disk os job e f
                ≡ after_fill zstd free job e f (filled (take buf_size (unread disk f))))
          → (read_open zstd free disk os job e f).0 ≢ stuck
      by_end (inl same) h = cc (ap (λ r. r.0) same)
      by_end (inr same) h = after_fill-ne e f _ (ap (λ r. r.0) (sym same) ∙ h)

  opened-ne : (e : FileEntry) (o : Option ℕ) → (opened zstd free disk os job e o).0 ≢ stuck
  opened-ne e none h = ground arith
  opened-ne e (some i) h = by_answer os.open_ok h
    where
      by_answer :
          (b : Bool)
          → (if b
              then read_open zstd free disk os job e (record { inode = i; offset = 0 })
              else (failed, record job { file_num = next_num job.file_num })).0
            ≢ stuck
      by_answer true h' = read_open-ne e _ h'
      by_answer false h' = ground arith

  -- The loop of `read` ends: its fuel, one round more than there is room, is never used up, on any job, disk
  -- and answers of the system.
  pub read-ne-stuck : (read zstd free disk os job).0 ≢ stuck
  unfolding read
  read-ne-stuck = by_entry (get_elem? job.files (as_usize job.file_num))
    where
      by_file : (e : FileEntry) (o : Option File) → (read_entry zstd free disk os job e o).0 ≢ stuck
      by_file e (some f) h = read_open-ne e f h
      by_file e none h = opened-ne e (HashMap.get disk.names (join job e.name)) h

      by_entry : (o : Option FileEntry) → (read_at zstd free disk os job o).0 ≢ stuck
      by_entry none h = ground arith
      by_entry (some e) h = by_file e job.file h
