-- ===== src/Transfer/Writes.antt =====
-- The calls of `write` with the blocks of a whole transfer, one after another.
use mathlib.Core.Path.{subst}
use rustdesk_server_demo.Prelude.{
  ℕ, zero, suc, ◌+◌, ◌<◌, ◌≡◌, refl, sym, ap, ◌∙◌, true, false, not, ◌||◌, ◌⊎◌, inl, inr, Option,
  some, is_some, List, [], ◌∷◌, ◌++◌, append_assoc, ◌==◌, if◌then◌else◌, length, get_elem?,
  get_elem?-some, arith,
}
use rustdesk_server_demo.Prelude.Int.{pos, equal, equal_refl}
use rustdesk_server_demo.Compress.{Zstd}
use rustdesk_server_demo.Disk.{Disk}
use rustdesk_server_demo.Transfer.{FileEntry, FileTransferBlock, TransferJob, as_usize}
use rustdesk_server_demo.Transfer.Write.{
  WriteResult, written, wrong_id, wrong_file_number, sync_failed, create_failed, write_failed,
  modify_time, switch, payload, put, put_after, write_entry, write,
}
use rustdesk_server_demo.Transfer.Calls.{all_ok, if_written, write_all}
use rustdesk_server_demo.Transfer.Stream.{IsBlock, Stream, last, next, chunk}
use rustdesk_server_demo.Transfer.Receiver.{Apart, Got, GotResult, Ready, modify_time-Got}
use rustdesk_server_demo.Transfer.Received.{put-Got, switch-Got}

pub lt_of_get_elem? :
    {A : Type 0} (xs : List A) (i : ℕ) (x : A) → get_elem? xs i ≡ some x → i < length xs
lt_of_get_elem? [] i x e = absurd (ground arith)
lt_of_get_elem? (y ∷ xs) zero x e = omega arith
lt_of_get_elem? (y ∷ xs) (suc i) x e = omega (arith, lt_of_get_elem? xs i x e)

module _ (zstd : Zstd) (start : TransferJob) (contents : List (List ℕ)) (before : Disk)
    (apart : Apart start) where
  -- The next block is the first one of file `i`.
  abbrev pub Waiting : ℕ → TransferJob → Disk → Type 0
  Waiting i job disk =
      Ready start contents before i job (modify_time all_ok job disk)
      × ((not (i == as_usize job.file_num) || not (is_some job.file)) ≡ true)

  abbrev pub State : ℕ → List ℕ → TransferJob → Disk → Type 0
  State i got job disk =
      Got start contents before job disk i got ⊎ ((got ≡ []) × Waiting i job disk)

  module _ (i : ℕ) (e : FileEntry) (entry : get_elem? start.files i ≡ some e) where
    After : List ℕ → WriteResult × TransferJob × Disk → Type 0
    After got r = GotResult start contents before i got r

    put_after-Got :
        (piece : List ℕ) (b : FileTransferBlock) (r : WriteResult × TransferJob × Disk)
        → payload zstd true b ≡ piece
        → After [] r
        → After piece (put_after zstd true all_ok b r)
    unfolding After
    put_after-Got piece b (written, job, disk) same (_, got) =
        put-Got start contents before apart i e entry zstd job disk [] piece b got same
    put_after-Got piece b (wrong_id, job, disk) same (h, got) = absurd (ground arith)
    put_after-Got piece b (wrong_file_number, job, disk) same (h, got) = absurd (ground arith)
    put_after-Got piece b (sync_failed, job, disk) same (h, got) = absurd (ground arith)
    put_after-Got piece b (create_failed, job, disk) same (h, got) = absurd (ground arith)
    put_after-Got piece b (write_failed, job, disk) same (h, got) = absurd (ground arith)

    -- A block of file `i` passes the tests of `write`.
    write-known :
        (job : TransferJob) (disk : Disk) (b : FileTransferBlock)
        → job.id ≡ start.id
        → job.files ≡ start.files
        → b.id ≡ start.id
        → b.file_num ≡ pos i
        → write zstd true all_ok job disk b ≡ (
            if not (i == as_usize job.file_num) || not (is_some job.file)
            then put_after zstd true all_ok b (switch all_ok job disk b e)
            else put zstd true all_ok job disk b)
    unfolding write
    write-known job disk b id files same_id num =
        ap
          (λ t.
            if not t
            then (wrong_id, job, disk)
            else write_entry zstd true all_ok job disk b
                (get_elem? job.files (as_usize b.file_num)))
          (ap (equal b.id) (id ∙ sym same_id) ∙ equal_refl b.id)
        ∙ ap (write_entry zstd true all_ok job disk b) (
            ap (λ n. get_elem? job.files (as_usize n)) num
            ∙ ap (λ fs. get_elem? fs i) files
            ∙ entry)
        ∙ ap
            (λ n.
              if not (as_usize n == as_usize job.file_num) || not (is_some job.file)
              then put_after zstd true all_ok b (switch all_ok job disk b e)
              else put zstd true all_ok job disk b)
            num

    -- One `write` of a piece of file `i`.
    write-Got :
        (job : TransferJob) (disk : Disk) (got piece : List ℕ) (b : FileTransferBlock)
        → State i got job disk
        → IsBlock zstd start.id i piece b
        → After (got ++ piece) (write zstd true all_ok job disk b)
    unfolding After
    write-Got job disk got piece b (inl had) (id, num, same) =
        subst (After (got ++ piece)) (sym (write-known job disk b had.id had.files id num)) (
          rw stays
            (put-Got start contents before apart i e entry zstd job disk got piece b had same))
      where
        stays : (not (i == as_usize job.file_num) || not (is_some job.file)) ≡ false
        stays =
            let (f, open_f, _, _) = had.opened e entry in
            ap (λ n. not (i == as_usize n) || not (is_some job.file)) had.num
            ∙ ap (λ o. not (i == i) || not (is_some o)) open_f
            ∙ ground arith
    write-Got job disk got piece b (inr (empty, (ready, leaves))) (id, num, same) =
        subst (After (got ++ piece)) (sym (write-known job disk b ready.id ready.files id num)) (
          rw leaves (
            rw empty (
              put_after-Got piece b (switch all_ok job disk b e) same
                (switch-Got start contents before apart i e entry job disk b num ready))))

  -- All the writes are done, and file `k`, the last, has all its bytes.
  abbrev pub Complete : Option (TransferJob × Disk) → Type 0
  Complete r =
      (job : TransferJob) × (disk : Disk) × (k : ℕ) × (c : List ℕ) × (r ≡ some (job, disk))
      × (length contents ≡ k + 1)
      × (get_elem? contents k ≡ some c)
      × Got start contents before job disk k c

  module _ (same_length : length contents ≡ length start.files) where
    entry_of :
        (i : ℕ) (c : List ℕ)
        → get_elem? contents i ≡ some c
        → (e : FileEntry) × (get_elem? start.files i ≡ some e)
    entry_of i c at_c =
        get_elem?-some start.files i (omega (arith, lt_of_get_elem? contents i c at_c, same_length))

    first-Complete :
        (i : ℕ) (got : List ℕ) (bs : List FileTransferBlock) (r : WriteResult × TransferJob × Disk)
        → GotResult start contents before i got r
        → ((job : TransferJob) (disk : Disk)
            → Got start contents before job disk i got
            → Complete (write_all zstd job disk bs))
        → Complete (if_written r.0 (write_all zstd r.1 r.2 bs))
    first-Complete i got bs (result, job, disk) (ok, had) rest =
        subst (λ x. Complete (if_written x (write_all zstd job disk bs))) (sym ok)
          (rest job disk had)

    -- A finished file waits for the next one.
    waiting :
        (i : ℕ) (e : FileEntry)
        → get_elem? start.files i ≡ some e
        → (c : List ℕ) (job : TransferJob) (disk : Disk) → get_elem? contents i ≡ some c
        → Got start contents before job disk i c
        → Waiting (i + 1) job disk
    waiting i e entry c job disk at_c had = (
      modify_time-Got start contents before apart job disk i e c entry at_c had,
      ap (λ n. not (i + 1 == as_usize n) || not (is_some job.file)) had.num ∙ ground arith,
    )

    -- From the blocks of the rest of a transfer.
    pub write_all-Complete :
        (i : ℕ) (left : List ℕ) (bs : List FileTransferBlock)
        → Stream zstd start.id contents i left bs
        → (got : List ℕ) (job : TransferJob) (disk : Disk)
        → get_elem? contents i ≡ some (got ++ left)
        → State i got job disk
        → Complete (write_all zstd job disk bs)
    unfolding write_all After
    write_all-Complete i left _ (last _ _ b len empty is) got job disk at_c state =
        let (e, entry) = entry_of i (got ++ left) at_c in
        first-Complete i (got ++ []) [] (write zstd true all_ok job disk b)
          (write-Got i e entry job disk got [] b state is)
          (λ job' disk' had.
            (job', disk', i, got ++ [], refl, len, at_c ∙ ap (λ l. some (got ++ l)) empty, had))
    write_all-Complete i left _ (chunk _ _ piece rest b bs parts is stream) got job disk at_c
          state =
        let (e, entry) = entry_of i (got ++ left) at_c in
        first-Complete i (got ++ piece) bs (write zstd true all_ok job disk b)
          (write-Got i e entry job disk got piece b state is)
          (λ job' disk' had.
            write_all-Complete i rest bs stream (got ++ piece) job' disk'
              (at_c ∙ ap (λ l. some (got ++ l)) parts ∙ ap some (sym (append_assoc got piece rest)))
              (inl had))
    write_all-Complete i left _ (next _ _ c b bs at_next empty is stream) got job disk at_c state =
        let (e, entry) = entry_of i (got ++ left) at_c in
        first-Complete i (got ++ []) bs (write zstd true all_ok job disk b)
          (write-Got i e entry job disk got [] b state is)
          (λ job' disk' had. write_all-Complete (i + 1) c bs stream [] job' disk' at_next (
            inr (
              refl,
              waiting i e entry (got ++ []) job' disk' (at_c ∙ ap (λ l. some (got ++ l)) empty) had,
            )))
