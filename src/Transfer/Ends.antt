-- ===== src/Transfer/Ends.antt =====
-- A job that sends comes to its end, where the system fails none of its calls.
use rustdesk_server_demo.Prelude.{
  ℕ, zero, suc, ◌+◌, ◌^◌, ◌<◌, ◌≡◌, refl, sym, ap, ◌∙◌, true, inl, inr, none, List, [], ◌∷◌, length,
  drop, get_elem?-some, length-drop, arith,
}
use rustdesk_server_demo.Prelude.Int.{pos}
use rustdesk_server_demo.Compress.{Zstd}
use rustdesk_server_demo.Disk.{Disk}
use rustdesk_server_demo.Transfer.{FileTransferBlock, TransferJob}
use rustdesk_server_demo.Transfer.Read.{Os, block, buf_size, read}
use rustdesk_server_demo.Transfer.Calls.{Reads, stop, more}
use rustdesk_server_demo.Transfer.Packed.{Compresses}
use rustdesk_server_demo.Transfer.Sending.{Before-At}
use rustdesk_server_demo.Transfer.Sender.{Sources, At, Before, Step}
use rustdesk_server_demo.Transfer.Gives.{Fine, read-Step}

module _ (zstd : Zstd) (works : Compresses zstd) (disk : Disk) (start : TransferJob)
    (contents : List (List ℕ)) (os : Os) (fine : Fine os) where
  module _ (same_length : length contents ≡ length start.files) (few : length start.files < 2 ^ 31)
      (sources : Sources disk start contents) where
    abbrev pub Ends : TransferJob → Type 0
    Ends job =
        (bs : List FileTransferBlock) × (end : TransferJob) × Reads zstd disk job bs end
        × (end.file_num ≡ pos (length start.files))

    Ends-more :
        (job job' : TransferJob) (b : FileTransferBlock)
        → read zstd true disk os job ≡ (block b, job')
        → Ends job'
        → Ends job
    Ends-more job job' b same (bs, end, reads, over) =
        (b ∷ bs, end, more os job job' end b bs same reads, over)

    -- One call, and what is left to do after it.
    Ends-step :
        (i : ℕ) (left : List ℕ) (job : TransferJob)
        → i < length start.files
        → At zstd works disk start contents job i left
        → ((job' : TransferJob)
            → 0 < length left
            → At zstd works disk start contents job' i (drop buf_size left)
            → Ends job')
        → ((job' : TransferJob) → Before zstd works disk start contents job' (i + 1) → Ends job')
        → Ends job
    Ends-step i left job lt at_i stay onward =
        let (e, entry) = get_elem?-some start.files i lt in
        let (c, at_c, has) = sources i e entry in
        let (b, job', same, step) =
          read-Step zstd works disk start contents os fine job i left at_i e c has
            (omega (arith, lt, few)) entry at_c in
        Ends-more job job' b same (by_step b job' step)
      where
        by_step :
            (b : FileTransferBlock) (job' : TransferJob)
            → Step zstd works disk start contents i left b job'
            → Ends job'
        by_step b job' (inl (_, _, before)) = onward job' before
        by_step b job' (inr (some_left, _, at')) = stay job' some_left at'

    -- From file `i`, with `n` files after it; `fuel` is above what it has to go.
    run :
        (n fuel i : ℕ) (left : List ℕ) (job : TransferJob)
        → length start.files ≡ i + 1 + n
        → length left < fuel
        → At zstd works disk start contents job i left
        → Ends job
    run n zero i left job len enough at_i = absurd (omega arith)
    run zero (suc fuel) i left job len enough at_i =
        Ends-step i left job (omega (arith, len)) at_i
          (λ job' some_left at'.
            run zero fuel i (drop buf_size left) job' len
              (omega (arith, some_left, length-drop buf_size left)) at')
          (λ job' before. ([], job', stop job', before.num ∙ ap pos (omega (arith, len))))
    run (suc n) (suc fuel) i left job len enough at_i =
        Ends-step i left job (omega (arith, len)) at_i
          (λ job' some_left at'.
            run (suc n) fuel i (drop buf_size left) job' len
              (omega (arith, some_left, length-drop buf_size left)) at')
          (λ job' before.
            let (e, entry) = get_elem?-some start.files (i + 1) (omega (arith, len)) in
            let (c, at_c, _) = sources (i + 1) e entry in
            run n (suc (length c)) (i + 1) c job' (omega (arith, len)) (omega arith) (
              Before-At zstd works disk start contents same_length few sources job' (i + 1) c at_c
                before))

    -- A job at its start with fewer than 2^31 files, all there, is read to the end of its list, every call
    -- giving a block, when the operating system opens each file and fails no read, however short its reads
    -- are, and zstd compresses every block.
    pub read-Ends : start.file ≡ none → start.file_num ≡ pos 0 → Ends start
    read-Ends closed at_start = by_length (length start.files) refl
      where
        by_length : (n : ℕ) → length start.files ≡ n → Ends start
        by_length zero len = ([], start, stop start, at_start ∙ ap pos (sym len))
        by_length (suc n) len =
            let (e, entry) = get_elem?-some start.files 0 (omega (arith, len)) in
            let (c, at_c, _) = sources 0 e entry in
            run n (suc (length c)) 0 c start (omega (arith, len)) (omega arith) (record {
              id = refl;
              path = refl;
              files = refl;
              num = at_start;
              source = inl (closed, at_c);
            })
