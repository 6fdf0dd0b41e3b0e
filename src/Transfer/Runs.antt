-- ===== src/Transfer/Runs.antt =====
-- A transfer of two files, and single calls, with the toy of zstd.
use rustdesk_server_demo.Prelude.{
  some_inj, ℕ, zero, suc, ◌≡◌, ◌≢◌, refl, sym, ap, ◌∙◌, true, false, ◌⊎◌, inl, inr, none, some,
  String, [], ◌∷◌, get_elem?, take, arith,
}
use text.Mathlib.Text.{◌==◌}
use text.Mathlib.TextEquality.{eq_iff}
use rustdesk_server_demo.Prelude.HashMap
use rustdesk_server_demo.Prelude.Int.{pos}
use rustdesk_server_demo.Compress.{compress}
use rustdesk_server_demo.Compress.Toy.{toy}
use rustdesk_server_demo.Disk
use rustdesk_server_demo.Disk.{Disk, Inode, lookup, Tidy}
use rustdesk_server_demo.Transfer.{FileEntry, TransferJob, new_write, join, next_num}
use rustdesk_server_demo.Transfer.Read
use rustdesk_server_demo.Transfer.Read.{read, fill, unread, after_fill, pack}
use rustdesk_server_demo.Transfer.Paths.{path_join, is_compressed_file}
use rustdesk_server_demo.Transfer.Write
use rustdesk_server_demo.Transfer.Write.{
  written, create_failed, download_path, modify_time, payload, write,
}
use rustdesk_server_demo.Transfer.ReadLaws.{read_lem}
use rustdesk_server_demo.Transfer.WriteLaws.{Refusal, write-Refusal}
use rustdesk_server_demo.Transfer.FailedCreate.{write_after_failed_create}
use rustdesk_server_demo.Transfer.Calls.{Reads, stop, more, all_ok, write_all}
use rustdesk_server_demo.Transfer.Receiver.{target, partial, Apart, Other}
use rustdesk_server_demo.Transfer.EndToEnd.{transfer}
use rustdesk_server_demo.Transfer.Samples.{
  entry_a, entry_b, from_disk, to_disk, sender, slow, block_of, blocks, reading, between, sent,
  works, sources,
}

differ : (s t : String) → (s == t) ≡ false → s ≢ t
differ s t h same = ground (arith, eq_iff s t)

reads : Reads toy from_disk sender blocks sent
unfolding read after_fill fill unread HashMap.get join path_join pack compress is_compressed_file
reads = more slow sender (reading 0 0 2 2) sent _ _ refl (
    more slow (reading 0 0 2 2) (between 1 2) sent _ _ refl (
      more slow (between 1 2) (reading 1 1 1 3) sent _ _ refl
        (more slow (reading 1 1 1 3) sent sent _ _ refl (stop sent))))

to_disk-Tidy : Tidy to_disk
unfolding HashMap.get
to_disk-Tidy = record {
  in_range = λ p h e. ground arith;
  one_name = λ p q h e e'. ground (arith, eq_iff "/r/a" p, eq_iff "/r/a" q);
}

abbrev receiver : TransferJob
receiver = new_write (pos 5) "/r" sender.files

-- The entries by their numbers.
which :
    (j : ℕ) (e : FileEntry)
    → get_elem? receiver.files j ≡ some e
    → ((j ≡ 0) × (target receiver e ≡ "/r/a")) ⊎ ((j ≡ 1) × (target receiver e ≡ "/r/b.gz"))
unfolding new_write join
which zero e entry = inl (refl, ap (target receiver) (sym (some_inj entry_a e entry)))
which (suc zero) e entry = inr (refl, ap (target receiver) (sym (some_inj entry_b e entry)))
which (suc (suc j)) e entry = absurd (ground arith)

no_partial :
    (x y s t : String) → x ≡ s → y ≡ t → (s == download_path t) ≡ false → x ≢ download_path y
no_partial x y s t p q h same = differ s (download_path t) h (sym p ∙ same ∙ ap download_path q)

apart : Apart receiver
apart j k e f at_j at_k =
    (partials (which j e at_j) (which k f at_k), numbers (which j e at_j) (which k f at_k))
  where
    Which : ℕ → FileEntry → Type 0
    Which i g =
        ((i ≡ 0) × (target receiver g ≡ "/r/a")) ⊎ ((i ≡ 1) × (target receiver g ≡ "/r/b.gz"))

    partials : Which j e → Which k f → target receiver e ≢ partial receiver f
    partials (inl (_, p)) (inl (_, q)) = no_partial _ _ _ _ p q refl
    partials (inl (_, p)) (inr (_, q)) = no_partial _ _ _ _ p q refl
    partials (inr (_, p)) (inl (_, q)) = no_partial _ _ _ _ p q refl
    partials (inr (_, p)) (inr (_, q)) = no_partial _ _ _ _ p q refl

    numbers : Which j e → Which k f → target receiver e ≡ target receiver f → j ≡ k
    numbers (inl (n, p)) (inl (m, q)) same = n ∙ sym m
    numbers (inl (n, p)) (inr (m, q)) same =
        absurd (differ "/r/a" "/r/b.gz" refl (sym p ∙ same ∙ q))
    numbers (inr (n, p)) (inl (m, q)) same =
        absurd (differ "/r/b.gz" "/r/a" refl (sym p ∙ same ∙ q))
    numbers (inr (n, p)) (inr (m, q)) same = n ∙ sym m

other : Other receiver "/r/c"
other k e entry = by_name (which k e entry)
  where
    by_name :
        ((k ≡ 0) × (target receiver e ≡ "/r/a")) ⊎ ((k ≡ 1) × (target receiver e ≡ "/r/b.gz"))
        → (target receiver e ≢ "/r/c") × (partial receiver e ≢ "/r/c")
    by_name (inl (_, p)) = (
      λ same. differ "/r/a" "/r/c" refl (sym p ∙ same),
      λ same. differ "/r/a.download" "/r/c" refl (ap download_path (sym p) ∙ same),
    )
    by_name (inr (_, p)) = (
      λ same. differ "/r/b.gz" "/r/c" refl (sym p ∙ same),
      λ same. differ "/r/b.gz.download" "/r/c" refl (ap download_path (sym p) ∙ same),
    )

transfer_example :
    (job : TransferJob) × (disk : Disk) × (write_all toy receiver to_disk blocks ≡ some (job, disk))
    × (lookup (modify_time all_ok job disk) (target receiver entry_b)
        ≡ some (record { bytes = 3 ∷ []; mtime = some 20 }))
    × (lookup (modify_time all_ok job disk) "/r/c" ≡ lookup to_disk "/r/c")
transfer_example =
    transfer toy works from_disk to_disk sender "/r" ((1 ∷ 2 ∷ []) ∷ (3 ∷ []) ∷ []) refl
      (omega arith) sources refl refl to_disk-Tidy apart blocks sent reads refl 1 entry_b (3 ∷ [])
      "/r/c" refl refl other

abbrev read_job : TransferJob
read_job = record sender { file = some (record { inode = 0; offset = 0 }) }

read_lem_example :
    (read toy true from_disk slow read_job
      ≡ (Read.failed, record read_job { file_num = next_num read_job.file_num; file = none }))
    ⊎ (read toy true from_disk slow read_job
        ≡ after_fill toy true read_job entry_a
            (record { inode = 0; offset = 0 })
            (Read.filled
              (take Read.buf_size (unread from_disk (record { inode = 0; offset = 0 })))))
read_lem_example =
    read_lem toy true from_disk slow read_job entry_a (record { inode = 0; offset = 0 }) refl refl

write-Refusal_example : Refusal toy true all_ok receiver to_disk (block_of 2 [])
unfolding new_write
write-Refusal_example =
    write-Refusal toy true all_ok receiver to_disk (block_of 2 []) (omega arith) (omega arith)

abbrev at_a : TransferJob
at_a = record receiver { file = some (record { inode = 0; offset = 1 }) }

abbrev no_create : Write.Os
no_create = record all_ok { create_ok = false }

write_after_failed_create_example :
    (job' : TransferJob) × (disk' : Disk) × (write toy true no_create at_a to_disk
        (block_of 1 (3 ∷ []))
      ≡ (create_failed, job', disk'))
    × ((write toy true all_ok job' disk' (block_of 1 (4 ∷ []))).0 ≡ written)
    × ((write toy true all_ok job' disk' (block_of 1 (4 ∷ []))).2
        ≡ Disk.append_to disk' 0 (payload toy true (block_of 1 (4 ∷ []))))
unfolding new_write
write_after_failed_create_example =
    write_after_failed_create toy true to_disk at_a entry_b 1 no_create all_ok (block_of 1 (3 ∷ []))
      (block_of 1 (4 ∷ [])) (record { inode = 0; offset = 1 }) refl refl refl refl refl refl refl
      refl refl refl

-- A write that is still in flight when the time is set takes it back.
abbrev flying : TransferJob
flying = record receiver { file = some (record { inode = 0; offset = 1 }) }

abbrev half : Disk
half = record {
  names = ("/r/a.download", 0) ∷ [];
  inodes = record { bytes = 1 ∷ []; mtime = none } ∷ [];
  dirs = [];
}

late_run :
    lookup (modify_time (record all_ok { settled = false }) flying half) "/r/a"
    ≡ some (record { bytes = 1 ∷ []; mtime = none })
unfolding modify_time lookup new_write join HashMap.get Disk.append_to Disk.set_mtime Disk.rename
    HashMap.insert HashMap.remove
late_run = refl
