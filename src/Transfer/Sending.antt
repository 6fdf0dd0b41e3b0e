-- ===== src/Transfer/Sending.antt =====
-- The calls of `read` on one job give the blocks of a whole transfer, and come to its end.
use mathlib.Core.Path.{subst}
use rustdesk_server_demo.Prelude.{
  ℕ, ◌+◌, ◌^◌, ◌<◌, ◌≡◌, ◌≢◌, refl, sym, ap, ◌∙◌, true, Bool-cases, inl, inr, none, some, List, [],
  ◌∷◌, ltb, length, take, drop, get_elem?, take-append-drop, get_elem?-some, get_elem?-length,
  arith,
}
use rustdesk_server_demo.Prelude.Int.{pos}
use rustdesk_server_demo.Compress.{Zstd}
use rustdesk_server_demo.Disk.{Disk}
use rustdesk_server_demo.Transfer.{FileTransferBlock, TransferJob, as_usize}
use rustdesk_server_demo.Transfer.Read.{Os, ReadResult, block, finished, buf_size, read_at, read}
use rustdesk_server_demo.Transfer.Calls.{Reads, stop, more}
use rustdesk_server_demo.Transfer.Stream.{Stream, last, next, chunk}
use rustdesk_server_demo.Transfer.Packed.{Compresses}
use rustdesk_server_demo.Transfer.Sender.{Sources, At, Before, Step, Sound, read-Sound}

finished≢block : (b : FileTransferBlock) → finished ≢ block b
finished≢block b e = ground arith

module _ (zstd : Zstd) (works : Compresses zstd) where
  module _ (disk : Disk) (start : TransferJob) (contents : List (List ℕ)) where
    read-end :
        (os : Os) (job : TransferJob)
        → Before zstd works disk start contents job (length start.files)
        → (b : FileTransferBlock) (job' : TransferJob)
        → read zstd true disk os job ≢ (block b, job')
    unfolding read
    read-end os job before b job' same =
        absurd_result (sym (ap (read_at zstd true disk os job) gone) ∙ same)
      where
        gone : get_elem? job.files (as_usize job.file_num) ≡ none
        gone =
            ap (λ num. get_elem? job.files (as_usize num)) before.num
            ∙ ap (λ files. get_elem? files (length start.files)) before.files
            ∙ get_elem?-length start.files

        absurd_result :
            ◌≢◌ {A = ReadResult × TransferJob}
              (finished, record job { file = none })
              (block b, job')
        absurd_result e = finished≢block b (ap (λ r. r.0) e)

    module _ (same_length : length contents ≡ length start.files)
        (few : length start.files < 2 ^ 31) (sources : Sources disk start contents) where
      -- The next file is opened by the next call.
      pub Before-At :
          (job : TransferJob) (i : ℕ) (c : List ℕ)
          → get_elem? contents i ≡ some c
          → Before zstd works disk start contents job i
          → At zstd works disk start contents job i c
      Before-At job i c at_c before = record {
        id = before.id;
        path = before.path;
        files = before.files;
        num = before.num;
        source = inl (before.closed, at_c);
      }

      Continues : TransferJob → List FileTransferBlock → Type 0
      Continues job bs =
          (i : ℕ) (left : List ℕ)
          → i < length start.files
          → At zstd works disk start contents job i left
          → Stream zstd start.id contents i left bs

      ends-nil :
          (job end : TransferJob) (bs : List FileTransferBlock)
          → Before zstd works disk start contents job (length start.files)
          → Reads zstd disk job bs end
          → bs ≡ []
      ends-nil job end bs before (stop _) = refl
      ends-nil job end bs before (more os _ job' _ b _ same reads) =
          absurd (read-end os job before b job' same)

      Step-Stream :
          (i : ℕ) (left : List ℕ) (b : FileTransferBlock) (bs : List FileTransferBlock)
          (job end : TransferJob)
          → i < length start.files
          → end.file_num ≡ pos (length start.files)
          → Reads zstd disk job bs end
          → Continues job bs
          → Step zstd works disk start contents i left b job
          → Stream zstd start.id contents i left (b ∷ bs)
      unfolding Continues
      Step-Stream i left b bs job end lt over reads rest (inr (_, is, at)) =
          chunk i left (take buf_size left) (drop buf_size left) b bs
            (sym (take-append-drop buf_size left)) is (rest i (drop buf_size left) lt at)
      Step-Stream i left b bs job end lt over reads rest (inl (done, is, before)) =
          elim (Bool-cases (ltb (i + 1) (length start.files))) [
            | inl below ↦
                let (e, entry) = get_elem?-some start.files (i + 1) (ground arith) in
                let (c, at_c, has) = sources (i + 1) e entry in
                next i left c b bs at_c done is
                  (rest (i + 1) c (ground arith) (Before-At job (i + 1) c at_c before))
            | inr above ↦
                let is_last : i + 1 ≡ length start.files = ground arith in
                subst (λ bs'. Stream zstd start.id contents i left (b ∷ bs'))
                  (sym (
                    ends-nil job end bs
                      (subst (Before zstd works disk start contents job) is_last before) reads))
                  (last i left b (omega (arith, same_length)) done is)
          ]

      -- The calls of `read` from file `i` on, if they reach the end of the list, give the blocks of
      -- the rest of the transfer.
      pub Reads-Stream :
          (job end : TransferJob) (bs : List FileTransferBlock) (i : ℕ) (left : List ℕ)
          → i < length start.files
          → end.file_num ≡ pos (length start.files)
          → Reads zstd disk job bs end
          → At zstd works disk start contents job i left
          → Stream zstd start.id contents i left bs
      unfolding Continues
      Reads-Stream job end bs i left lt over (stop _) at =
          absurd (omega (arith, ap as_usize (sym at.num ∙ over)))
      Reads-Stream job end bs i left lt over (more os _ job' _ b bs' same reads) at =
          let (e, entry) = get_elem?-some start.files i lt in
          let (c, at_c, has) = sources i e entry in
          Step-Stream i left b bs' job' end lt over reads
            (λ j left' lt' at'. Reads-Stream job' end bs' j left' lt' over reads at')
            (subst (Sound zstd works disk start contents i left) same (
              read-Sound zstd works disk start contents job i left at (omega arith) e os c entry
                at_c has))
