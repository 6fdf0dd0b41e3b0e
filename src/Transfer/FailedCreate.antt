-- ===== src/Transfer/FailedCreate.antt =====
-- `write` when the file of a block cannot be created.
use rustdesk_server_demo.Prelude.{
  ℕ, ◌≡◌, refl, ap, ◌∙◌, Bool, true, false, not, ◌&&◌, ◌||◌, none, some, is_some, ◌==◌,
  if◌then◌else◌, get_elem?, arith,
}
use rustdesk_server_demo.Prelude.Int.{pos, equal}
use rustdesk_server_demo.Compress.{Zstd}
use rustdesk_server_demo.Disk
use rustdesk_server_demo.Disk.{Disk}
use rustdesk_server_demo.Transfer.{FileEntry, FileTransferBlock, File, TransferJob, as_usize, join}
use rustdesk_server_demo.Transfer.Paths.{parent}
use rustdesk_server_demo.Transfer.Write.{
  Os, written, create_failed, create_dirs, modify_time, switch, payload, put, put_short, put_file,
  put_after, write,
}
use rustdesk_server_demo.Transfer.WriteLaws.{write_lem}

third :
    {A : Type 0} (t s c : Bool) (x y z : A)
    → s ≡ true
    → c ≡ false
    → (if t && not s then x else if c then y else z) ≡ z
third true s c x y z h h' = rw (h, h') refl
third false s c x y z h h' = rw h' refl

same_num : (n : ℕ) → (n == n) ≡ true
same_num n = ground arith

module _ (zstd : Zstd) (free : Bool) (disk : Disk) (job : TransferJob) (e : FileEntry) (k : ℕ) where
  -- The disk that `switch` leaves.
  abbrev ready : Os → Disk
  ready os = create_dirs os.dirs_ok (modify_time os job disk) (parent (join job e.name))

  switch-create_failed :
      (os : Os) (b : FileTransferBlock)
      → os.sync_ok ≡ true
      → os.create_ok ≡ false
      → switch os job disk b e ≡ (create_failed, record job { file_num = b.file_num }, ready os)
  unfolding switch
  switch-create_failed os b synced refused =
      third (is_some job.file) os.sync_ok os.create_ok _ _ _ synced refused

  -- In a block of another file than the job's.
  refused_lem :
      (os : Os) (b : FileTransferBlock)
      → equal b.id job.id ≡ true
      → b.file_num ≡ pos k
      → get_elem? job.files k ≡ some e
      → (k == as_usize job.file_num) ≡ false
      → os.sync_ok ≡ true
      → os.create_ok ≡ false
      → write zstd free os job disk b
        ≡ (create_failed, record job { file_num = b.file_num }, ready os)
  refused_lem os b same num entry other synced refused =
      write_lem zstd free os job disk b e same
        (ap (λ n. get_elem? job.files (as_usize n)) num ∙ entry)
      ∙ ap
          (λ t.
            if not t || not (is_some job.file)
            then put_after zstd free os b (switch os job disk b e)
            else put zstd free os job disk b)
          (ap (λ n. as_usize n == as_usize job.file_num) num ∙ other)
      ∙ ap (put_after zstd free os b) (switch-create_failed os b synced refused)

  -- A block of the file that the job is at, with a file open, is put to the open one.
  put_lem :
      (os : Os) (at_k : TransferJob) (d : Disk) (b : FileTransferBlock) (f : File)
      → equal b.id at_k.id ≡ true
      → b.file_num ≡ pos k
      → get_elem? at_k.files k ≡ some e
      → at_k.file_num ≡ pos k
      → at_k.file ≡ some f
      → os.short ≡ none
      → write zstd free os at_k d b ≡ put_short zstd free at_k d b f none
  unfolding put
  put_lem os at_k d b f same num entry there open_f all =
      write_lem zstd free os at_k d b e same
        (ap (λ n. get_elem? at_k.files (as_usize n)) num ∙ entry)
      ∙ ap
          (λ t.
            if not t || not (is_some at_k.file)
            then put_after zstd free os b (switch os at_k d b e)
            else put zstd free os at_k d b)
          (ap (λ n. as_usize n == as_usize at_k.file_num) num
            ∙ ap (λ n. k == as_usize n) there
            ∙ same_num k)
      ∙ ap
          (λ o.
            if not (is_some o)
            then put_after zstd free os b (switch os at_k d b e)
            else put zstd free os at_k d b)
          open_f
      ∙ ap (put_file zstd free os at_k d b) open_f
      ∙ ap (put_short zstd free at_k d b f) all

  -- If the file of a block of this job cannot be created while the job has another one open, which could
  -- be synced, `write` fails; but the next block of the file that could not be created, if the system
  -- writes all of it, is then written, with no error, to the inode of the file before it.
  pub write_after_failed_create :
      (os again : Os) (b b' : FileTransferBlock) (f : File)
      → equal b.id job.id ≡ true
      → equal b'.id job.id ≡ true
      → b.file_num ≡ pos k
      → b'.file_num ≡ pos k
      → get_elem? job.files k ≡ some e
      → (k == as_usize job.file_num) ≡ false
      → job.file ≡ some f
      → os.sync_ok ≡ true
      → os.create_ok ≡ false
      → again.short ≡ none
      → (job' : TransferJob) × (disk' : Disk) × (write zstd free os job disk b
          ≡ (create_failed, job', disk'))
        × ((write zstd free again job' disk' b').0 ≡ written)
        × ((write zstd free again job' disk' b').2
            ≡ Disk.append_to disk' f.inode (payload zstd free b'))
  write_after_failed_create os again b b' f same same' num num' entry other open_f synced refused
        all =
      (
        record job { file_num = b.file_num },
        ready os,
        refused_lem os b same num entry other synced refused,
        ap (λ r. r.0) second,
        ap (λ r. r.2) second,
      )
    where
      second :
          write zstd free again (record job { file_num = b.file_num }) (ready os) b'
          ≡ put_short zstd free (record job { file_num = b.file_num }) (ready os) b' f none
      second = put_lem again _ _ b' f same' num' entry num open_f all
