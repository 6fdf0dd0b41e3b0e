-- ===== src/Transfer/JobRuns.antt =====
-- The calls that read for a job to its end, at the sample.
use rustdesk_server_demo.Prelude.{◌≡◌, refl, false, some, List, [], ◌∷◌, arith}
use rustdesk_server_demo.Prelude.Int.{pos}
use rustdesk_server_demo.Compress.Toy.{toy}
use rustdesk_server_demo.Transfer.{FileTransferBlock, TransferJob}
use rustdesk_server_demo.Transfer.Read
use rustdesk_server_demo.Transfer.Read.{read, fill, unread, after_fill, pack}
use rustdesk_server_demo.Transfer.Calls.{Reads}
use rustdesk_server_demo.Transfer.Read.{failed}
use rustdesk_server_demo.Transfer.Ends.{read-Ends}
use rustdesk_server_demo.Transfer.Gives.{Fine}
use rustdesk_server_demo.Transfer.Samples.{from_disk, sender, slow, works, sources}

slow-Fine : Fine slow
slow-Fine = record { opens = refl; reads = λ i. (0, refl) }

read-Ends_example :
    (bs : List FileTransferBlock) × (end : TransferJob) × Reads toy from_disk sender bs end
    × (end.file_num ≡ pos 2)
read-Ends_example =
    read-Ends toy works from_disk sender ((1 ∷ 2 ∷ []) ∷ (3 ∷ []) ∷ []) slow slow-Fine refl
      (omega arith) sources refl refl

-- The system opens no file.
abbrev refusing : Read.Os
refusing = record { open_ok = false; chunk = λ i. some 0; error = "denied" }

abbrev done_job : TransferJob
done_job = record sender { id = pos 6; file_num = pos 2 }
