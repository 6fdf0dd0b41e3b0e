-- ===== src/Transfer/Gives.antt =====
-- Where the system fails none of its calls, each `read` of a job gives a block.
use mathlib.Core.Path.{subst}
use rustdesk_server_demo.Prelude.{
  ℕ, zero, suc, ◌+◌, ◌-◌, ◌^◌, ◌<◌, ◌≡◌, ◌≢◌, refl, sym, ap, ◌∙◌, Bool, true, false, ◌⊎◌, inl, inr,
  Option, none, some, List, [], ◌∷◌, if◌then◌else◌, take, get_elem?, arith,
}
use rustdesk_server_demo.Prelude.HashMap
use rustdesk_server_demo.Compress.{Zstd}
use rustdesk_server_demo.Disk.{Disk, inode_of, lookup}
use rustdesk_server_demo.Transfer.{FileEntry, FileTransferBlock, File, TransferJob, as_usize, join}
use rustdesk_server_demo.Transfer.Read.{
  Os, ReadResult, block, finished, failed, stuck, buf_size, Filled, filled, read_failed, fill,
  unread, after_fill, read_open, opened, read_entry, read_at, read,
}
use rustdesk_server_demo.Transfer.Packed.{Compresses, join_path}
use rustdesk_server_demo.Transfer.Chunks.{fill_lem}
use rustdesk_server_demo.Transfer.Sender.{HasFile, At, Step, Sound, read-Sound}

-- No call fails.
pub record Fine (os : Os) : Type 0 where
  pub opens : os.open_ok ≡ true
  pub reads : (i : ℕ) → (k : ℕ) × (os.chunk i ≡ some k)

if-ne : {A : Type 0} (b : Bool) (x y z : A) → x ≢ z → y ≢ z → (if b then x else y) ≢ z
if-ne true x y z h h' = h
if-ne false x y z h h' = h'

filled-ne : (out : List ℕ) → filled out ≢ read_failed
filled-ne out h = ground arith

fill-ne :
    (chunk : ℕ → Option ℕ) (fuel i : ℕ) (buf unread : List ℕ)
    → ((j : ℕ) → (k : ℕ) × (chunk j ≡ some k))
    → fill chunk fuel i buf unread ≢ read_failed
unfolding fill
fill-ne chunk zero i buf unread never = λ h. ground arith
fill-ne chunk (suc fuel) i buf unread never =
    let (k, e) = never i in
    rw (e, fill) (if-ne _ _ _ read_failed (filled-ne _) (fill-ne chunk fuel (i + 1) _ _ never))

abbrev Gives : ReadResult × TransferJob → Type 0
Gives r = (b : FileTransferBlock) × (r.0 ≡ block b)

Gives-if :
    (b : Bool) (r q : ReadResult × TransferJob) → b ≡ true → Gives r → Gives (if b then r else q)
Gives-if true r q h gives = gives
Gives-if false r q h gives = absurd (ground arith)

none≢some : {A : Type 0} (a : A) → none ≢ some a
none≢some a h = ground arith

module _ (zstd : Zstd) (disk : Disk) (os : Os) (fine : Fine os) (job : TransferJob)
    (e : FileEntry) where
  after_fill-Gives : (f : File) (out : List ℕ) → Gives (after_fill zstd true job e f (filled out))
  unfolding after_fill
  after_fill-Gives f [] = (_, refl)
  after_fill-Gives f (x ∷ xs) = (_, refl)

  read_open-Gives : (f : File) → Gives (read_open zstd true disk os job e f)
  unfolding read_open
  read_open-Gives f = by_end (
      fill_lem os.chunk (buf_size + 1) 0 buf_size [] (unread disk f) (omega arith) (omega arith)
        (omega arith))
    where
      loop : Filled
      loop = fill os.chunk (buf_size + 1) 0 [] (unread disk f)

      by_end :
          (loop ≡ read_failed) ⊎ (loop ≡ filled (take buf_size (unread disk f)))
          → Gives (after_fill zstd true job e f loop)
      by_end (inl broken) =
          absurd (fill-ne os.chunk (buf_size + 1) 0 [] (unread disk f) fine.reads broken)
      by_end (inr full) =
          subst (λ r. Gives (after_fill zstd true job e f r)) (sym full) (after_fill-Gives f _)

  opened-Gives : (h : ℕ) → Gives (opened zstd true disk os job e (some h))
  opened-Gives h =
      Gives-if os.open_ok (read_open zstd true disk os job e (record { inode = h; offset = 0 })) _
        fine.opens (read_open-Gives (record { inode = h; offset = 0 }))

module _ (zstd : Zstd) (works : Compresses zstd) (disk : Disk) (start : TransferJob)
    (contents : List (List ℕ)) (os : Os) (fine : Fine os) where
  module _ (job : TransferJob) (i : ℕ) (left : List ℕ)
      (at_i : At zstd works disk start contents job i left) (e : FileEntry) (c : List ℕ)
      (has : HasFile disk start e c) where
    read_entry-Gives : Gives (read_entry zstd true disk os job e job.file)
    unfolding lookup
    read_entry-Gives = by_source at_i.source
      where
        by_name :
            (o : Option ℕ)
            → HashMap.get disk.names (join job e.name) ≡ o
            → Gives (opened zstd true disk os job e o)
        by_name none missing =
            let (inode, there, _) = has in
            absurd (
              none≢some inode (
                sym (
                  ap (inode_of disk) (
                    sym (ap (HashMap.get disk.names) (join_path job start e.name at_i.path))
                    ∙ missing))
                ∙ there))
        by_name (some h) named = opened-Gives zstd disk os fine job e h

        by_source :
            ((job.file ≡ none) × (get_elem? contents i ≡ some left))
              ⊎ ((f : File) × (job.file ≡ some f) × (unread disk f ≡ left))
            → Gives (read_entry zstd true disk os job e job.file)
        by_source (inr (f, opened_f, _)) =
            subst (λ o. Gives (read_entry zstd true disk os job e o)) (sym opened_f)
              (read_open-Gives zstd disk os fine job e f)
        by_source (inl (closed, _)) =
            subst (λ o. Gives (read_entry zstd true disk os job e o)) (sym closed)
              (by_name (HashMap.get disk.names (join job e.name)) refl)

    read-Gives : get_elem? start.files i ≡ some e → Gives (read zstd true disk os job)
    unfolding read
    read-Gives entry =
        subst (λ o. Gives (read_at zstd true disk os job o)) (sym found) read_entry-Gives
      where
        found : get_elem? job.files (as_usize job.file_num) ≡ some e
        found =
            ap (λ num. get_elem? job.files (as_usize num)) at_i.num
            ∙ ap (λ files. get_elem? files i) at_i.files
            ∙ entry

    -- A `read` gives a block, and takes its step.
    pub read-Step :
        i < 2 ^ 31 - 1
        → get_elem? start.files i ≡ some e
        → get_elem? contents i ≡ some c
        → (b : FileTransferBlock) × (job' : TransferJob) × (read zstd true disk os job
            ≡ (block b, job'))
          × Step zstd works disk start contents i left b job'
    read-Step few entry at_c =
        by_result (read zstd true disk os job) (read-Gives entry)
          (read-Sound zstd works disk start contents job i left at_i few e os c entry at_c has)
      where
        by_result :
            (r : ReadResult × TransferJob)
            → Gives r
            → Sound zstd works disk start contents i left r
            → (b : FileTransferBlock) × (job' : TransferJob) × (r ≡ (block b, job'))
              × Step zstd works disk start contents i left b job'
        by_result (block b, job') gives sound = (b, job', refl, sound)
        by_result (finished, job') (b, h) sound = absurd (ground arith)
        by_result (failed, job') (b, h) sound = absurd (ground arith)
        by_result (stuck, job') (b, h) sound = absurd (ground arith)
