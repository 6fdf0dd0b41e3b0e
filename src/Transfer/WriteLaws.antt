-- ===== src/Transfer/WriteLaws.antt =====
-- The errors of `write`.
use mathlib.Core.Path.{subst}
use rustdesk_server_demo.Prelude.{
  ℕ, zero, suc, ◌-◌, ◌^◌, ◌≤◌, ◌<◌, ◌≡◌, ◌≢◌, refl, sym, ap, ◌∙◌, Bool, true, false, not, ◌&&◌,
  ◌||◌, Bool-cases, ◌⊎◌, inl, inr, Option, none, some, is_some, List, [], ◌∷◌, ltb, ◌==◌,
  if◌then◌else◌, length, get_elem?, get_elem?-some, arith,
}
use rustdesk_server_demo.Prelude.Int.{ℤ, pos, negsuc, equal, IsI32}
use rustdesk_server_demo.Compress.{Zstd}
use rustdesk_server_demo.Disk.{Disk}
use rustdesk_server_demo.Transfer.{FileEntry, FileTransferBlock, File, TransferJob, as_usize}
use rustdesk_server_demo.Transfer.Write.{
  Os, WriteResult, written, wrong_id, wrong_file_number, sync_failed, create_failed, write_failed,
  switch, put_short, put_file, put, put_after, write_entry, write,
}

-- Whether the number is one of a file.
abbrev pub in_range : ℤ → ℕ → Bool
in_range (pos k) n = ltb k n
in_range (negsuc k) n = false

get_elem?-in_range :
    (num : ℤ) (files : List FileEntry)
    → in_range num (length files) ≡ true
    → (e : FileEntry) × (get_elem? files (as_usize num) ≡ some e)
get_elem?-in_range (pos k) files h = get_elem?-some files k (ground arith)
get_elem?-in_range (negsuc k) files h = absurd (ground arith)

get_elem?-none : {A : Type 0} (xs : List A) (i : ℕ) → length xs ≤ i → get_elem? xs i ≡ none
get_elem?-none [] i h = refl
get_elem?-none (x ∷ xs) zero h = absurd (omega arith)
get_elem?-none (x ∷ xs) (suc i) h = get_elem?-none xs i (omega arith)

get_elem?-outside :
    (num : ℤ) (files : List FileEntry)
    → length files < 2 ^ 63
    → IsI32 num
    → in_range num (length files) ≡ false
    → get_elem? files (as_usize num) ≡ none
get_elem?-outside (pos k) files few i32 h = get_elem?-none files k (ground arith)
get_elem?-outside (negsuc k) files few i32 h = get_elem?-none files (2 ^ 64 - 1 - k) (omega arith)

module _ (zstd : Zstd) (free : Bool) (os : Os) (job : TransferJob) (disk : Disk)
    (b : FileTransferBlock) where
  -- Neither a wrong id nor a wrong number of a file is what the rest of `write` answers.
  abbrev pub Accepted : WriteResult × TransferJob × Disk → Type 0
  Accepted r = (r.0 ≢ wrong_id) × (r.0 ≢ wrong_file_number)

  Accepted-if :
      (t : Bool) (r q : WriteResult × TransferJob × Disk)
      → Accepted r
      → Accepted q
      → Accepted (if t then r else q)
  Accepted-if true r q h h' = h
  Accepted-if false r q h h' = h'

  put_short-Accepted :
      (job' : TransferJob) (disk' : Disk) (f : File) (o : Option ℕ)
      → Accepted (put_short zstd free job' disk' b f o)
  put_short-Accepted job' disk' f none = (λ h. ground arith, λ h. ground arith)
  put_short-Accepted job' disk' f (some k) = (λ h. ground arith, λ h. ground arith)

  put_file-Accepted :
      (job' : TransferJob) (disk' : Disk) (o : Option File)
      → Accepted (put_file zstd free os job' disk' b o)
  put_file-Accepted job' disk' none = (λ h. ground arith, λ h. ground arith)
  put_file-Accepted job' disk' (some f) = put_short-Accepted job' disk' f os.short

  put-Accepted : (job' : TransferJob) (disk' : Disk) → Accepted (put zstd free os job' disk' b)
  unfolding put
  put-Accepted job' disk' = put_file-Accepted job' disk' job'.file

  put_after-Accepted :
      (r : WriteResult × TransferJob × Disk) → Accepted r → Accepted (put_after zstd free os b r)
  put_after-Accepted (written, job', disk') h = put-Accepted job' disk'
  put_after-Accepted (wrong_id, job', disk') h = h
  put_after-Accepted (wrong_file_number, job', disk') h = h
  put_after-Accepted (sync_failed, job', disk') h = h
  put_after-Accepted (create_failed, job', disk') h = h
  put_after-Accepted (write_failed, job', disk') h = h

  switch-Accepted : (e : FileEntry) → Accepted (switch os job disk b e)
  unfolding switch
  switch-Accepted e =
      Accepted-if (is_some job.file && not os.sync_ok) _ _ (λ h. ground arith, λ h. ground arith)
        (Accepted-if os.create_ok _ _ (λ h. ground arith, λ h. ground arith)
          (λ h. ground arith, λ h. ground arith))

  write_entry-Accepted : (e : FileEntry) → Accepted (write_entry zstd free os job disk b (some e))
  write_entry-Accepted e =
      Accepted-if (not (as_usize b.file_num == as_usize job.file_num) || not (is_some job.file)) _ _
        (put_after-Accepted (switch os job disk b e) (switch-Accepted e)) (put-Accepted job disk)

  -- Past its two guards.
  pub write_lem :
      (e : FileEntry)
      → equal b.id job.id ≡ true
      → get_elem? job.files (as_usize b.file_num) ≡ some e
      → write zstd free os job disk b ≡ write_entry zstd free os job disk b (some e)
  unfolding write
  write_lem e same entry =
      ap
        (λ t.
          if not t
          then (wrong_id, job, disk)
          else write_entry zstd free os job disk b (get_elem? job.files (as_usize b.file_num)))
        same
      ∙ ap (write_entry zstd free os job disk b) entry

  write-outside :
      equal b.id job.id ≡ true
      → get_elem? job.files (as_usize b.file_num) ≡ none
      → write zstd free os job disk b ≡ (wrong_file_number, job, disk)
  unfolding write
  write-outside same missing =
      ap
        (λ t.
          if not t
          then (wrong_id, job, disk)
          else write_entry zstd free os job disk b (get_elem? job.files (as_usize b.file_num)))
        same
      ∙ ap (write_entry zstd free os job disk b) missing

  write-stranger : equal b.id job.id ≡ false → write zstd free os job disk b ≡ (wrong_id, job, disk)
  unfolding write
  write-stranger differ =
      ap
        (λ t.
          if not t
          then (wrong_id, job, disk)
          else write_entry zstd free os job disk b (get_elem? job.files (as_usize b.file_num)))
        differ

  -- What `write` may do with the block.
  abbrev pub Refusal : Type 0
  Refusal =
      ((equal b.id job.id ≡ false) × (write zstd free os job disk b ≡ (wrong_id, job, disk)))
      ⊎ ((equal b.id job.id ≡ true)
          × (in_range b.file_num (length job.files) ≡ false)
          × (write zstd free os job disk b ≡ (wrong_file_number, job, disk)))
      ⊎ ((equal b.id job.id ≡ true)
          × (in_range b.file_num (length job.files) ≡ true)
          × Accepted (write zstd free os job disk b))

  -- `write` answers "Wrong id" exactly to a block of another job, and "Wrong file number" exactly to a
  -- block of this job whose number is negative or not below the number of files, and then leaves the
  -- job and the disk as they were; if that number of files is below 2^63 and the block's an i32.
  pub write-Refusal : length job.files < 2 ^ 63 → IsI32 b.file_num → Refusal
  write-Refusal few i32 = by_id (Bool-cases (equal b.id job.id))
    where
      by_range :
          equal b.id job.id ≡ true
          → ((in_range b.file_num (length job.files) ≡ true)
              ⊎ (in_range b.file_num (length job.files) ≡ false))
          → Refusal
      by_range same (inl inside) =
          let (e, entry) = get_elem?-in_range b.file_num job.files inside in
          inr (
            inr (
              same,
              inside,
              subst Accepted (sym (write_lem e same entry)) (write_entry-Accepted e),
            ))
      by_range same (inr outside) = inr (
          inl (
            same,
            outside,
            write-outside same (get_elem?-outside b.file_num job.files few i32 outside),
          ))

      by_id : ((equal b.id job.id ≡ true) ⊎ (equal b.id job.id ≡ false)) → Refusal
      by_id (inl same) = by_range same (Bool-cases (in_range b.file_num (length job.files)))
      by_id (inr differ) = inl (differ, write-stranger differ)
