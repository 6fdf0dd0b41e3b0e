-- ===== src/Transfer/JobsLaws.antt =====
-- `handle_read_jobs` on jobs of different ids.
use rustdesk_server_demo.Prelude.{ℕ, ◌+◌, ◌≡◌, Bool, false, none, List, [], ◌∷◌, if◌then◌else◌}
use rustdesk_server_demo.Prelude.Int.{ℤ, equal}
use rustdesk_server_demo.Compress.{Zstd}
use rustdesk_server_demo.Disk.{Disk}
use rustdesk_server_demo.Transfer.{TransferJob}
use rustdesk_server_demo.Transfer.Read.{Os, ReadResult, read}
use rustdesk_server_demo.Transfer.Messages.{Message}
use rustdesk_server_demo.Transfer.Jobs.{get_job, answer, is_finished}

-- No two jobs have one id.
unfoldable pub Distinct : List TransferJob → Type 0
Distinct [] = Unit
Distinct (x ∷ jobs) = (get_job x.id jobs ≡ none) × Distinct jobs

abbrev Absent : ℤ → List ℤ → Type 0
Absent id [] = Unit
Absent id (j ∷ ids) = (equal id j ≡ false) × Absent id ids

module _ (zstd : Zstd) (free : Bool) (disk : Disk) (os : ℕ → Os) where
  -- What the call does to the i-th job.
  abbrev one : ℕ → TransferJob → ReadResult × TransferJob
  one i job = read zstd free disk (os i) job

  -- Each job after its one `read`.
  after : ℕ → List TransferJob → List TransferJob
  after i [] = []
  after i (job ∷ jobs) = (one i job).1 ∷ after (i + 1) jobs

  finished_ids : ℕ → List TransferJob → List ℤ
  finished_ids i [] = []
  finished_ids i (job ∷ jobs) =
      let rest = finished_ids (i + 1) jobs in
      if is_finished (one i job).0 then (one i job).1.id ∷ rest else rest

  -- Those of them that have not ended.
  unfoldable pub unfinished : ℕ → List TransferJob → List TransferJob
  unfinished i [] = []
  unfinished i (job ∷ jobs) =
      let rest = unfinished (i + 1) jobs in
      if is_finished (one i job).0 then rest else (one i job).1 ∷ rest

  -- The answer to each.
  unfoldable pub answers : ℕ → List TransferJob → List Message
  answers i [] = []
  answers i (job ∷ jobs) = answer (os i) (one i job).0 (one i job).1 ∷ answers (i + 1) jobs
