-- ===== src/Transfer/Receiver.antt =====
-- The calls of `write` with the blocks of a whole transfer leave its files.
use mathlib.Core.Path.{subst}
use rustdesk_server_demo.Prelude.{
  some_inj, ℕ, ◌+◌, ◌<◌, ◌≡◌, ◌≢◌, sym, ap, ◌∙◌, Bool-cases, inl, inr, none, some, String, List,
  ◌==◌, get_elem?, arith,
}
use rustdesk_server_demo.Prelude.HashMap
use rustdesk_server_demo.Prelude.Int.{pos}
use rustdesk_server_demo.Disk.{Disk, lookup, Tidy}
use rustdesk_server_demo.Disk.Moved.{moved, moved-Tidy, moved-other, moved_to}
use rustdesk_server_demo.Transfer.{FileEntry, File, TransferJob, as_usize, join}
use rustdesk_server_demo.Transfer.Write.{
  WriteResult, written, download_path, modify_time, time_entry,
}
use rustdesk_server_demo.Transfer.Packed.{join_path}
use rustdesk_server_demo.Transfer.Calls.{all_ok}

module _ (start : TransferJob) where
  -- Where the file of an entry is written, and under which name until it is finished.
  abbrev pub target : FileEntry → String
  target e = join start e.name

  abbrev pub partial : FileEntry → String
  partial e = download_path (target e)

  -- The names of different files do not meet.
  abbrev pub Apart : Type 0
  Apart =
      (j k : ℕ) (e f : FileEntry)
      → get_elem? start.files j ≡ some e
      → get_elem? start.files k ≡ some f
      → (target e ≢ partial f) × (target e ≡ target f → j ≡ k)

  -- A name that is no file's of the transfer.
  abbrev pub Other : String → Type 0
  Other p =
      (k : ℕ) (e : FileEntry) → get_elem? start.files k ≡ some e → (target e ≢ p) × (partial e ≢ p)

  -- The job has the file of the entry open, and it has the bytes `got`.
  abbrev pub Opened : TransferJob → Disk → List ℕ → FileEntry → Type 0
  Opened job disk got e =
      (f : File) × (job.file ≡ some f)
      × (HashMap.get disk.names (partial e) ≡ some f.inode)
      × (lookup disk (partial e) ≡ some (record { bytes = got; mtime = none }))

  -- `modify_time` on the entry of the job.
  timed_entry :
      (job : TransferJob) (disk : Disk) (k : ℕ) (e : FileEntry)
      → job.path ≡ start.path
      → job.files ≡ start.files
      → job.file_num ≡ pos k
      → get_elem? start.files k ≡ some e
      → modify_time all_ok job disk ≡ moved disk (partial e) (target e) e.modified_time
  unfolding modify_time
  timed_entry job disk k e path files num entry =
      ap (time_entry all_ok job disk)
        (ap (λ n. get_elem? job.files (as_usize n)) num ∙ ap (λ fs. get_elem? fs k) files ∙ entry)
      ∙ ap (λ p. moved disk (download_path p) p e.modified_time) (join_path job start e.name path)

module _ (start : TransferJob) (contents : List (List ℕ)) (before : Disk) where
  -- The files before `i` are there, with their times.
  abbrev pub Finished : Disk → ℕ → Type 0
  Finished disk i =
      (j : ℕ) (e : FileEntry) (c : List ℕ)
      → j < i
      → get_elem? start.files j ≡ some e
      → get_elem? contents j ≡ some c
      → lookup disk (target start e) ≡ some (record { bytes = c; mtime = some e.modified_time })

  abbrev pub Frame : Disk → Type 0
  Frame disk = (p : String) → Other start p → lookup disk p ≡ lookup before p

  -- Of file `i` the bytes `got` are written.
  pub record Got (job : TransferJob) (disk : Disk) (i : ℕ) (got : List ℕ) : Type 0 where
    pub id : job.id ≡ start.id
    pub path : job.path ≡ start.path
    pub files : job.files ≡ start.files
    pub num : job.file_num ≡ pos i
    pub opened : (e : FileEntry) → get_elem? start.files i ≡ some e → Opened start job disk got e
    pub finished : Finished disk i
    pub frame : Frame disk
    pub tidy : Tidy disk

  abbrev pub GotResult : ℕ → List ℕ → WriteResult × TransferJob × Disk → Type 0
  GotResult i got (result, job, disk) = (result ≡ written) × Got job disk i got

  -- What a job that leaves another file, or none, has on the disk once that file is finished.
  pub record Ready (i : ℕ) (job : TransferJob) (timed : Disk) : Type 0 where
    pub id : job.id ≡ start.id
    pub path : job.path ≡ start.path
    pub files : job.files ≡ start.files
    pub finished : Finished timed i
    pub frame : Frame timed
    pub tidy : Tidy timed

  module _ (apart : Apart start) (job : TransferJob) (disk : Disk) where
    -- The file that is written is finished by `modify_time`.
    pub modify_time-Got :
        (k : ℕ) (e : FileEntry) (c : List ℕ)
        → get_elem? start.files k ≡ some e
        → get_elem? contents k ≡ some c
        → Got job disk k c
        → Ready (k + 1) job (modify_time all_ok job disk)
    modify_time-Got k e c entry at_c got =
        subst (Ready (k + 1) job)
          (sym (timed_entry start job disk k e got.path got.files got.num entry))
          (record {
            id = got.id;
            path = got.path;
            files = got.files;
            finished = λ j e' c' lt entry' at_c'. elim (Bool-cases (j == k)) [
              | inl same ↦ this j e' c' (ground arith) entry' at_c'
              | inr differs ↦
                  moved-other disk got.tidy (partial start e) (target start e) e.modified_time
                    (target start e') (λ meet. (apart j k e' e entry' entry).0 (sym meet))
                    (λ meet. absurd (ground (arith, (apart k j e e' entry entry').1 meet)))
                  ∙ got.finished j e' c' (ground arith) entry' at_c'
            ];
            frame = λ p other.
                moved-other disk got.tidy (partial start e) (target start e) e.modified_time p
                  (other k e entry).1 (other k e entry).0
                ∙ got.frame p other;
            tidy = moved-Tidy disk got.tidy (partial start e) (target start e) e.modified_time;
          })
      where
        timed : Disk
        timed = moved disk (partial start e) (target start e) e.modified_time

        done :
            Opened start job disk c e
            → lookup timed (target start e)
              ≡ some (record { bytes = c; mtime = some e.modified_time })
        done (f, _, named, there) =
            moved_to disk got.tidy (partial start e) (target start e) e.modified_time f.inode _
              named there

        this :
            (j : ℕ) (e' : FileEntry) (c' : List ℕ)
            → j ≡ k
            → get_elem? start.files j ≡ some e'
            → get_elem? contents j ≡ some c'
            → lookup timed (target start e')
              ≡ some (record { bytes = c'; mtime = some e'.modified_time })
        this j e' c' same entry' at_c' =
            let same_e : e ≡ e' =
              some_inj e e' (sym entry ∙ ap (get_elem? start.files) (sym same) ∙ entry') in
            let same_c : c ≡ c' =
              some_inj c c' (sym at_c ∙ ap (get_elem? contents) (sym same) ∙ at_c') in
            ap (λ x. lookup timed (target start x)) (sym same_e)
            ∙ done (got.opened e entry)
            ∙ ap (λ x. some (record { bytes = c; mtime = some x.modified_time })) same_e
            ∙ ap (λ x. some (record { bytes = x; mtime = some e'.modified_time })) same_c

    -- Before the first block there is no file to finish.
    pub modify_time-start :
        (e : FileEntry)
        → get_elem? start.files 0 ≡ some e
        → Ready 0 job disk
        → job.file_num ≡ pos 0
        → Ready 0 job (modify_time all_ok job disk)
    modify_time-start e entry ready num =
        subst (Ready 0 job) (sym (timed_entry start job disk 0 e ready.path ready.files num entry))
          (record {
            id = ready.id;
            path = ready.path;
            files = ready.files;
            finished = λ j e' c lt entry' at_c. absurd (omega arith);
            frame = λ p other.
                moved-other disk ready.tidy (partial start e) (target start e) e.modified_time p
                  (other 0 e entry).1 (other 0 e entry).0
                ∙ ready.frame p other;
            tidy = moved-Tidy disk ready.tidy (partial start e) (target start e) e.modified_time;
          })
