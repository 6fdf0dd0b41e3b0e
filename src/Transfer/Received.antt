-- ===== src/Transfer/Received.antt =====
-- One `write` of a file's block: to the file that is open, and to a new one.
use mathlib.Core.Path.{subst}
use rustdesk_server_demo.Prelude.{
  some_inj, ℕ, ◌≡◌, ◌≢◌, refl, sym, ap, ◌∙◌, Bool, true, false, ◌&&◌, Option, none, some, is_some,
  String, List, [], ◌++◌, get_elem?,
}
use rustdesk_server_demo.Prelude.HashMap
use rustdesk_server_demo.Prelude.Int.{pos}
use rustdesk_server_demo.Compress.{Zstd}
use rustdesk_server_demo.Disk
use rustdesk_server_demo.Disk.{Disk, Inode, new_file, lookup, Tidy}
use rustdesk_server_demo.Disk.Laws.{get-create}
use rustdesk_server_demo.Disk.Keeps.{create-Tidy, append_to-Tidy, create_dir_all-Tidy}
use rustdesk_server_demo.Disk.Moved.{
  create_self, create_other, append_to_self, append_to_other, lookup-create_dir_all,
  names-append_to,
}
use rustdesk_server_demo.Transfer.{FileEntry, FileTransferBlock, TransferJob, join}
use rustdesk_server_demo.Transfer.Paths.{parent}
use rustdesk_server_demo.Transfer.Write.{
  download_path, create_dirs, modify_time, switch, payload, put_file, put,
}
use rustdesk_server_demo.Transfer.Packed.{join_path}
use rustdesk_server_demo.Transfer.Calls.{all_ok}
use rustdesk_server_demo.Transfer.Receiver.{target, partial, Apart, Opened, Got, GotResult, Ready}

and_false : (b : Bool) → (b && false) ≡ false
and_false true = refl
and_false false = refl

module _ (start : TransferJob) (contents : List (List ℕ)) (before : Disk) where
  module _ (apart : Apart start) (i : ℕ) (e : FileEntry)
      (entry : get_elem? start.files i ≡ some e) where
    the_entry :
        (job : TransferJob) (disk : Disk) (got : List ℕ)
        → Opened start job disk got e
        → (e' : FileEntry) → get_elem? start.files i ≡ some e'
        → Opened start job disk got e'
    the_entry job disk got there e' entry' =
        subst (Opened start job disk got) (some_inj e e' (sym entry ∙ entry')) there

    pub put-Got :
        (zstd : Zstd) (job : TransferJob) (disk : Disk) (got piece : List ℕ) (b : FileTransferBlock)
        → Got start contents before job disk i got
        → payload zstd true b ≡ piece
        → GotResult start contents before i (got ++ piece) (put zstd true all_ok job disk b)
    unfolding put
    put-Got zstd job disk got piece b had same = by_file (had.opened e entry)
      where
        by_file :
            Opened start job disk got e
            → GotResult start contents before i
                (got ++ piece)
                (put_file zstd true all_ok job disk b job.file)
        by_file (f, open_f, named, there) =
            subst
              (λ o.
                GotResult start contents before i (got ++ piece)
                  (put_file zstd true all_ok job disk b o))
              (sym open_f)
              (
                refl,
                record {
                  id = had.id;
                  path = had.path;
                  files = had.files;
                  num = had.num;
                  opened =
                      the_entry (put_file zstd true all_ok job disk b (some f)).1
                        (put_file zstd true all_ok job disk b (some f)).2 (got ++ piece)
                        (
                          _,
                          refl,
                          ap (λ m. HashMap.get m (partial start e)) (names-append_to disk f.inode _)
                              ∙ named,
                          append_to_self disk had.tidy (partial start e) f.inode
                                (payload zstd true b) _ named there
                              ∙ ap (λ y. some (record { bytes = got ++ y; mtime = none })) same,
                        );
                  finished = λ j e' c lt entry' at_c.
                      append_to_other disk had.tidy (partial start e) (target start e') f.inode _
                        named (λ meet. (apart j i e' e entry' entry).0 (sym meet))
                      ∙ had.finished j e' c lt entry' at_c;
                  frame = λ p other.
                      append_to_other disk had.tidy (partial start e) p f.inode _ named
                        (other i e entry).1
                      ∙ had.frame p other;
                  tidy = append_to-Tidy disk had.tidy f.inode _;
                },
              )

    create_dirs-lookup :
        (timed : Disk) (p : Option String) (q : String)
        → lookup (create_dirs true timed p) q ≡ lookup timed q
    create_dirs-lookup timed none q = refl
    create_dirs-lookup timed (some p) q = lookup-create_dir_all timed p q

    create_dirs-Tidy :
        (timed : Disk) (p : Option String) → Tidy timed → Tidy (create_dirs true timed p)
    create_dirs-Tidy timed none tidy = tidy
    create_dirs-Tidy timed (some p) tidy = create_dir_all-Tidy timed tidy p

    pub switch-Got :
        (job : TransferJob) (disk : Disk) (b : FileTransferBlock)
        → b.file_num ≡ pos i
        → Ready start contents before i job (modify_time all_ok job disk)
        → GotResult start contents before i [] (switch all_ok job disk b e)
    unfolding switch
    switch-Got job disk b num ready = rw (and_false (is_some job.file)) (
      refl,
      record {
        id = ready.id;
        path = ready.path;
        files = ready.files;
        num = num;
        opened = λ e' entry'.
            subst (Opened start opened_job (Disk.create dirs q).1 [])
              (some_inj e e' (sym entry ∙ entry'))
              (
                _,
                refl,
                ap (HashMap.get (Disk.create dirs q).1.names) (sym name)
                    ∙ get-create dirs dirs-Tidy q,
                ap (lookup (Disk.create dirs q).1) (sym name) ∙ create_self dirs dirs-Tidy q,
              );
        finished = λ j e' c lt entry' at_c.
            elsewhere (target start e') (λ meet. (apart j i e' e entry' entry).0 (sym meet))
            ∙ ready.finished j e' c lt entry' at_c;
        frame = λ p other. elsewhere p (other i e entry).1 ∙ ready.frame p other;
        tidy = create-Tidy dirs dirs-Tidy q;
      },
    )
      where
        dirs : Disk
        dirs = create_dirs true (modify_time all_ok job disk) (parent (join job e.name))

        dirs-Tidy : Tidy dirs
        dirs-Tidy = create_dirs-Tidy _ (parent (join job e.name)) ready.tidy

        q : String
        q = download_path (join job e.name)

        opened_job : TransferJob
        opened_job = record job {
          file_num = b.file_num;
          file = some (record { inode = (Disk.create dirs q).0; offset = 0 });
        }

        name : q ≡ partial start e
        name = ap download_path (join_path job start e.name ready.path)

        elsewhere :
            (p : String)
            → partial start e ≢ p
            → lookup (Disk.create dirs q).1 p ≡ lookup (modify_time all_ok job disk) p
        elsewhere p differ =
            create_other dirs dirs-Tidy q p (λ meet. differ (sym name ∙ meet))
            ∙ create_dirs-lookup (modify_time all_ok job disk) (parent (join job e.name)) p
