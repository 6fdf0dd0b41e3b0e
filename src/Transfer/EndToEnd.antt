-- ===== src/Transfer/EndToEnd.antt =====
-- A whole transfer: what one job reads, another writes.
use rustdesk_server_demo.Prelude.{
  ℕ, ◌^◌, ◌<◌, ◌≡◌, refl, none, some, String, List, [], length, get_elem?, get_elem?-some, inl, inr,
  arith,
}
use rustdesk_server_demo.Prelude.Int.{pos}
use rustdesk_server_demo.Compress.{Zstd}
use rustdesk_server_demo.Disk.{Disk, lookup, Tidy}
use rustdesk_server_demo.Transfer.{FileEntry, FileTransferBlock, TransferJob, new_write}
use rustdesk_server_demo.Transfer.Write.{modify_time}
use rustdesk_server_demo.Transfer.Calls.{Reads, all_ok, write_all}
use rustdesk_server_demo.Transfer.Packed.{Compresses}
use rustdesk_server_demo.Transfer.Sender.{Sources}
use rustdesk_server_demo.Transfer.Sending.{Reads-Stream}
use rustdesk_server_demo.Transfer.Receiver.{
  target, Apart, Other, modify_time-start, modify_time-Got,
}
use rustdesk_server_demo.Transfer.Writes.{lt_of_get_elem?, Waiting, Complete, write_all-Complete}

module _ (zstd : Zstd) (works : Compresses zstd) (from to : Disk) (sender : TransferJob)
    (path : String) (contents : List (List ℕ)) where
  abbrev receiver : TransferJob
  receiver = new_write sender.id path sender.files

  module _ (same_length : length contents ≡ length sender.files)
      (few : length sender.files < 2 ^ 31) (sources : Sources from sender contents)
      (closed : sender.file ≡ none) (at_start : sender.file_num ≡ pos 0) (tidy : Tidy to)
      (apart : Apart receiver) (bs : List FileTransferBlock) (end : TransferJob)
      (reads : Reads zstd from sender bs end)
      (over : end.file_num ≡ pos (length sender.files)) where
    waiting_start :
        (e : FileEntry)
        → get_elem? sender.files 0 ≡ some e
        → Waiting zstd receiver contents to apart 0 receiver to
    unfolding new_write
    waiting_start e entry = (
      modify_time-start receiver contents to apart receiver to e entry
          (record {
            id = refl;
            path = refl;
            files = refl;
            finished = λ j e' c lt entry' at_c. absurd (omega arith);
            frame = λ p other. refl;
            tidy = tidy;
          })
          refl,
      refl,
    )

    complete :
        (j : ℕ) (e : FileEntry)
        → get_elem? sender.files j ≡ some e
        → Complete zstd receiver contents to apart (write_all zstd receiver to bs)
    unfolding new_write
    complete j e entry =
        let n : 0 < length sender.files = omega (arith, lt_of_get_elem? sender.files j e entry) in
        let (e0, entry0) = get_elem?-some sender.files 0 n in
        let (c0, at_c0, has0) = sources 0 e0 entry0 in
        write_all-Complete zstd receiver contents to apart same_length 0 c0 bs
          (Reads-Stream zstd works from sender contents same_length few sources sender end bs 0 c0 n
            over reads
            (record {
              id = refl;
              path = refl;
              files = refl;
              num = at_start;
              source = inl (closed, at_c0);
            }))
          [] receiver to at_c0 (inr (refl, waiting_start e0 entry0))

    -- Let a job at its start have fewer than 2^31 files, all on the sender's disk, let zstd compress every
    -- block, and let the names of the files on the receiver's side, finished or not, not meet. When each of
    -- its calls of `read`, whatever the operating system answered, gave a block and they came to the end of
    -- the list, then the writes of the blocks to any tidy disk, with every call of the operating system
    -- successful and each write of tokio done before the next `modify_time` sets a time, all succeed; and
    -- after the last `modify_time` each file of the list is under its name with all its bytes and its time,
    -- and names that are no file's of the transfer are as they were.
    pub transfer :
        (j : ℕ) (e : FileEntry) (c : List ℕ) (p : String)
        → get_elem? sender.files j ≡ some e
        → get_elem? contents j ≡ some c
        → Other receiver p
        → (job : TransferJob) × (disk : Disk) × (write_all zstd receiver to bs ≡ some (job, disk))
          × (lookup (modify_time all_ok job disk) (target receiver e)
              ≡ some (record { bytes = c; mtime = some e.modified_time }))
          × (lookup (modify_time all_ok job disk) p ≡ lookup to p)
    unfolding new_write
    transfer j e c p entry at_c other =
        let (job, disk, k, ck, same, len, at_ck, got) = complete j e entry in
        let (ek, entry_k) = get_elem?-some sender.files k (omega (arith, same_length, len)) in
        let ready = modify_time-Got receiver contents to apart job disk k ek ck entry_k at_ck got in
        (
          job,
          disk,
          same,
          ready.finished j e c (omega (arith, len, lt_of_get_elem? contents j c at_c)) entry at_c,
          ready.frame p other,
        )
