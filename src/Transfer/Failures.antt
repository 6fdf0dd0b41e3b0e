-- ===== src/Transfer/Failures.antt =====
-- What a `read` keeps of its job, and what is reported when it fails.
use rustdesk_server_demo.Prelude.{
  ℕ, ◌≡◌, refl, ap, ◌∙◌, Bool, true, false, Option, none, some, [], ◌∷◌, if◌then◌else◌, get_elem?,
  arith,
}
use rustdesk_server_demo.Prelude.HashMap
use rustdesk_server_demo.Compress.{Zstd}
use rustdesk_server_demo.Disk.{Disk}
use rustdesk_server_demo.Transfer.{FileEntry, File, TransferJob, as_usize, next_num, join}
use rustdesk_server_demo.Transfer.Read.{
  Os, ReadResult, failed, Filled, filled, read_failed, out_of_fuel, after_fill, read_open, opened,
  read_entry, read_at, read,
}
use rustdesk_server_demo.Transfer.Messages.{new_error}
use rustdesk_server_demo.Transfer.Jobs.{answer}

module _ (zstd : Zstd) (free : Bool) (disk : Disk) (os : Os) (job : TransferJob) where
  -- The id stays, and a failure moves the job to the next file.
  Kept : ReadResult × TransferJob → Type 0
  Kept r = (r.1.id ≡ job.id) × (r.0 ≡ failed → r.1.file_num ≡ next_num job.file_num)

  Kept-if :
      (b : Bool) (r q : ReadResult × TransferJob) → Kept r → Kept q → Kept (if b then r else q)
  Kept-if true r q h h' = h
  Kept-if false r q h h' = h'

  after_fill-Kept : (e : FileEntry) (f : File) (r : Filled) → Kept (after_fill zstd free job e f r)
  unfolding Kept after_fill
  after_fill-Kept e f (filled []) = (refl, λ h. refl)
  after_fill-Kept e f (filled (x ∷ xs)) = (refl, λ h. absurd (ground arith))
  after_fill-Kept e f read_failed = (refl, λ h. refl)
  after_fill-Kept e f out_of_fuel = (refl, λ h. absurd (ground arith))

  read_open-Kept : (e : FileEntry) (f : File) → Kept (read_open zstd free disk os job e f)
  unfolding read_open
  read_open-Kept e f = after_fill-Kept e f _

  opened-Kept : (e : FileEntry) (o : Option ℕ) → Kept (opened zstd free disk os job e o)
  unfolding Kept
  opened-Kept e none = (refl, λ h. refl)
  opened-Kept e (some h) =
      Kept-if os.open_ok (read_open zstd free disk os job e (record { inode = h; offset = 0 })) _
        (read_open-Kept e (record { inode = h; offset = 0 })) (refl, λ h. refl)

  read_entry-Kept : (e : FileEntry) (o : Option File) → Kept (read_entry zstd free disk os job e o)
  read_entry-Kept e (some f) = read_open-Kept e f
  read_entry-Kept e none = opened-Kept e (HashMap.get disk.names (join job e.name))

  read_at-Kept : (o : Option FileEntry) → Kept (read_at zstd free disk os job o)
  unfolding Kept
  read_at-Kept none = (refl, λ h. absurd (ground arith))
  read_at-Kept (some e) = read_entry-Kept e job.file

  read-Kept : Kept (read zstd free disk os job)
  unfolding read
  read-Kept = read_at-Kept (get_elem? job.files (as_usize job.file_num))

  pub id-read : (read zstd free disk os job).1.id ≡ job.id
  unfolding Kept
  id-read = read-Kept.0

  -- When a `read` fails, the message that reports it does not name the file that failed but the number
  -- after it, which the job has moved to.
  pub answer-failed :
      (read zstd free disk os job).0 ≡ failed
      → answer os (read zstd free disk os job).0 (read zstd free disk os job).1
        ≡ new_error job.id os.error (next_num job.file_num)
  unfolding Kept
  answer-failed h =
      ap (λ r. answer os r (read zstd free disk os job).1) h
      ∙ ap (λ id. new_error id os.error (read zstd free disk os job).1.file_num) read-Kept.0
      ∙ ap (new_error job.id os.error) (read-Kept.1 h)
