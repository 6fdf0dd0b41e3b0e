-- ===== src/Transfer/Sender.antt =====
-- One `read` of a job that sends: where the job stands, and what the call gives.
use mathlib.Core.Path.{subst}
use rustdesk_server_demo.Prelude.{
  ℕ, ◌+◌, ◌-◌, ◌^◌, ◌<◌, ◌≡◌, refl, sym, ap, ◌∙◌, Bool, true, false, ◌⊎◌, inl, inr, Option, none,
  some, List, [], ◌∷◌, if◌then◌else◌, length, take, drop, get_elem?, length-take, arith,
}
use rustdesk_server_demo.Prelude.HashMap
use rustdesk_server_demo.Prelude.Int.{pos}
use rustdesk_server_demo.Compress.{Zstd, or_nothing}
use rustdesk_server_demo.Disk.{Disk, Inode, inode_of, lookup}
use rustdesk_server_demo.Transfer.{
  FileEntry, FileTransferBlock, File, TransferJob, as_usize, next_num, join,
}
use rustdesk_server_demo.Transfer.Read.{
  Os, ReadResult, block, finished, failed, stuck, buf_size, filled, read_failed, fill, unread,
  bytes_of, after_fill, read_open, opened, read_entry, read_at, read,
}
use rustdesk_server_demo.Transfer.Write.{payload}
use rustdesk_server_demo.Transfer.Chunks.{fill_lem}
use rustdesk_server_demo.Transfer.Stream.{IsBlock}
use rustdesk_server_demo.Transfer.Packed.{
  Compresses, take-eq-nil, drop_taken, unread-advance, payload-pack, join_path,
}

-- The file that the entry names has the bytes `c`.
abbrev pub HasFile : Disk → TransferJob → FileEntry → List ℕ → Type 0
HasFile disk start e c = (i : Inode) × (lookup disk (join start e.name) ≡ some i) × (i.bytes ≡ c)

-- The list of files, with the bytes that each has on the sender's disk.
abbrev pub Sources : Disk → TransferJob → List (List ℕ) → Type 0
Sources disk sender contents =
    (k : ℕ) (e : FileEntry)
    → get_elem? sender.files k ≡ some e
    → (c : List ℕ) × (get_elem? contents k ≡ some c) × HasFile disk sender e c

module _ (zstd : Zstd) (works : Compresses zstd) where
  module _ (disk : Disk) (start : TransferJob) (contents : List (List ℕ)) where
    -- The job is at file `i`, which has `left` to go.
    pub record At (job : TransferJob) (i : ℕ) (left : List ℕ) : Type 0 where
      pub id : job.id ≡ start.id
      pub path : job.path ≡ start.path
      pub files : job.files ≡ start.files
      pub num : job.file_num ≡ pos i
      pub source :
          ((job.file ≡ none) × (get_elem? contents i ≡ some left))
          ⊎ ((f : File) × (job.file ≡ some f) × (unread disk f ≡ left))

    -- The job has closed file `i - 1`.
    pub record Before (job : TransferJob) (i : ℕ) : Type 0 where
      pub id : job.id ≡ start.id
      pub path : job.path ≡ start.path
      pub files : job.files ≡ start.files
      pub num : job.file_num ≡ pos i
      pub closed : job.file ≡ none

    -- What one `read` that gives the block `b` leaves.
    abbrev pub Step : ℕ → List ℕ → FileTransferBlock → TransferJob → Type 0
    Step i left b job =
        ((left ≡ []) × IsBlock zstd start.id i [] b × Before job (i + 1))
        ⊎ ((0 < length left)
            × IsBlock zstd start.id i (take buf_size left) b
            × At job i (drop buf_size left))

    abbrev pub Sound : ℕ → List ℕ → ReadResult × TransferJob → Type 0
    Sound i left (block b, job) = Step i left b job
    Sound i left (finished, job) = Unit {0}
    Sound i left (failed, job) = Unit {0}
    Sound i left (stuck, job) = Unit {0}

    Sound-if :
        (i : ℕ) (left : List ℕ) (b : Bool) (r q : ReadResult × TransferJob)
        → Sound i left r
        → Sound i left q
        → Sound i left (if b then r else q)
    Sound-if i left true r q h h' = h
    Sound-if i left false r q h h' = h'

    Before-next :
        (job : TransferJob) (i : ℕ) (left : List ℕ)
        → At job i left
        → i < 2 ^ 31 - 1
        → Before (record job { file_num = next_num job.file_num; file = none }) (i + 1)
    Before-next job i left at_i few = record {
      id = at_i.id;
      path = at_i.path;
      files = at_i.files;
      num = ap next_num at_i.num ∙ ground arith;
      closed = refl;
    }

    module _ (job : TransferJob) (i : ℕ) (left : List ℕ) (at_i : At job i left)
        (few : i < 2 ^ 31 - 1) (e : FileEntry) where
      after_fill-Sound :
          (f : File) (out : List ℕ)
          → unread disk f ≡ left
          → out ≡ take buf_size left
          → Sound i left (after_fill zstd true job e f (filled out))
      unfolding after_fill payload
      after_fill-Sound f [] at_f all = inl (
        take-eq-nil buf_size left (omega arith) (sym all),
        (at_i.id, at_i.num, refl),
        Before-next job i left at_i few,
      )
      after_fill-Sound f (x ∷ xs) at_f all = inr (
        ground (arith, ap length all, length-take buf_size left),
        (
          at_i.id,
          at_i.num,
          payload-pack zstd works job.id job.file_num e.name (x ∷ xs)
                (ground (arith, ap length all, length-take buf_size left))
              ∙ all,
        ),
        record {
          id = at_i.id;
          path = at_i.path;
          files = at_i.files;
          num = at_i.num;
          source = inr (
            _,
            refl,
            unread-advance disk f (length (x ∷ xs))
                ∙ ap (drop (length (x ∷ xs))) at_f
                ∙ ap (λ ys. drop (length ys) left) all
                ∙ drop_taken buf_size left,
          );
        },
      )

      read_open-Sound :
          (os : Os) (f : File)
          → unread disk f ≡ left
          → Sound i left (read_open zstd true disk os job e f)
      unfolding read_open
      read_open-Sound os f at_f = by_end (
          fill_lem os.chunk (buf_size + 1) 0 buf_size [] (unread disk f) (omega arith) (omega arith)
            (omega arith))
        where
          by_end :
              (fill os.chunk (buf_size + 1) 0 [] (unread disk f) ≡ read_failed)
                ⊎ (fill os.chunk (buf_size + 1) 0 [] (unread disk f)
                    ≡ filled (take buf_size (unread disk f)))
              → Sound i left
                  (after_fill zstd true job e f (fill os.chunk (buf_size + 1) 0 [] (unread disk f)))
          by_end (inl broken) = rw (broken, after_fill) tt
          by_end (inr full) =
              subst (λ r. Sound i left (after_fill zstd true job e f r)) (sym full)
                (after_fill-Sound f (take buf_size (unread disk f)) at_f (ap (take buf_size) at_f))

      read_entry-Sound :
          (os : Os) (c : List ℕ)
          → get_elem? contents i ≡ some c
          → HasFile disk start e c
          → Sound i left (read_entry zstd true disk os job e job.file)
      unfolding lookup unread
      read_entry-Sound os c at_c (inode, there, same) = by_source at_i.source
        where
          unread_new :
              (h : ℕ)
              → HashMap.get disk.names (join job e.name) ≡ some h
              → get_elem? contents i ≡ some left
              → unread disk (record { inode = h; offset = 0 }) ≡ left
          unread_new h named fresh =
              let found : get_elem? disk.inodes h ≡ some inode =
                ap (inode_of disk)
                  (sym named ∙ ap (HashMap.get disk.names) (join_path job start e.name at_i.path))
                ∙ there in
              ap bytes_of found ∙ same ∙ ap (or_nothing) (sym at_c ∙ fresh)

          by_name :
              (o : Option ℕ)
              → HashMap.get disk.names (join job e.name) ≡ o
              → get_elem? contents i ≡ some left
              → Sound i left (opened zstd true disk os job e o)
          by_name none missing fresh = tt
          by_name (some h) named fresh =
              Sound-if i left os.open_ok
                (read_open zstd true disk os job e (record { inode = h; offset = 0 })) _
                (read_open-Sound os _ (unread_new h named fresh)) tt

          by_source :
              ((job.file ≡ none) × (get_elem? contents i ≡ some left))
                ⊎ ((f : File) × (job.file ≡ some f) × (unread disk f ≡ left))
              → Sound i left (read_entry zstd true disk os job e job.file)
          by_source (inr (f, opened_f, at_f)) =
              subst (λ o. Sound i left (read_entry zstd true disk os job e o)) (sym opened_f)
                (read_open-Sound os f at_f)
          by_source (inl (closed, fresh)) =
              subst (λ o. Sound i left (read_entry zstd true disk os job e o)) (sym closed)
                (by_name (HashMap.get disk.names (join job e.name)) refl fresh)

      -- One `read` of a job at file `i`.
      pub read-Sound :
          (os : Os) (c : List ℕ)
          → get_elem? start.files i ≡ some e
          → get_elem? contents i ≡ some c
          → HasFile disk start e c
          → Sound i left (read zstd true disk os job)
      unfolding read
      read-Sound os c entry at_c has =
          subst (λ o. Sound i left (read_at zstd true disk os job o)) (sym found)
            (read_entry-Sound os c at_c has)
        where
          found : get_elem? job.files (as_usize job.file_num) ≡ some e
          found =
              ap (λ num. get_elem? job.files (as_usize num)) at_i.num
              ∙ ap (λ files. get_elem? files i) at_i.files
              ∙ entry
