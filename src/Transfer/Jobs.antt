-- ===== src/Transfer/Jobs.antt =====
-- The jobs that a connection reads for: `handle_read_jobs` and its neighbours.
use rustdesk_server_demo.Prelude.{
  ℕ, ◌+◌, Bool, true, false, not, Option, none, some, List, [], ◌∷◌, if◌then◌else◌,
}
use rustdesk_server_demo.Prelude.Int.{ℤ, equal}
use rustdesk_server_demo.Compress.{Zstd}
use rustdesk_server_demo.Disk.{Disk}
use rustdesk_server_demo.Transfer.{TransferJob}
use rustdesk_server_demo.Transfer.Read.{Os, ReadResult, block, finished, failed, stuck, read}
use rustdesk_server_demo.Transfer.Messages.{Message, new_error, new_block, new_done}

unfoldable pub remove_job : ℤ → List TransferJob → List TransferJob
remove_job id [] = []
remove_job id (x ∷ jobs) =
    let rest = remove_job id jobs in if not (equal x.id id) then x ∷ rest else rest

unfoldable pub get_job : ℤ → List TransferJob → Option TransferJob
get_job id [] = none
get_job id (x ∷ jobs) = if equal x.id id then some x else get_job id jobs

-- The message after a `read` that left the job so. `read` is never stuck.
abbrev pub answer : Os → ReadResult → TransferJob → Message
answer os failed job = new_error job.id os.error job.file_num
answer os (block b) job = new_block b
answer os finished job = new_done job.id job.file_num
answer os stuck job = new_error job.id os.error job.file_num

abbrev pub is_finished : ReadResult → Bool
is_finished finished = true
is_finished _ = false

abbrev pub push_if : Bool → ℤ → Option (List ℤ) → Option (List ℤ)
push_if b id none = none
push_if b id (some ids) = some (if b then id ∷ ids else ids)

unfoldable pub remove_jobs : List ℤ → List TransferJob → List TransferJob
unfolding remove_job
remove_jobs [] jobs = jobs
remove_jobs (id ∷ ids) jobs = remove_jobs ids (remove_job id jobs)

module _ (zstd : Zstd) (free : Bool) (disk : Disk) (os : ℕ → Os) (sends : ℕ → Bool) where
  -- The loop, from job `i` on: the finished ids, or `none` if a send fails, which ends it; the jobs after
  -- it; and what was sent.
  unfoldable pub visit : ℕ → List TransferJob → Option (List ℤ) × List TransferJob × List Message
  unfolding read
  visit i [] = (some [], [], [])
  visit i (job ∷ jobs) =
      let (result, self) = read zstd free disk (os i) job in
      let (ids, rest, sent) = visit (i + 1) jobs in
      if sends i
      then (push_if (is_finished result) self.id ids, self ∷ rest, answer (os i) result self ∷ sent)
      else (none, self ∷ jobs, [])

  abbrev pub remove_finished :
      Option (List ℤ) × List TransferJob × List Message → Bool × List TransferJob × List Message
  remove_finished (none, jobs, sent) = (false, jobs, sent)
  remove_finished (some ids, jobs, sent) = (true, remove_jobs ids jobs, sent)

  -- Whether it succeeds, the jobs that are left, and what was sent.
  unfoldable pub handle_read_jobs : List TransferJob → Bool × List TransferJob × List Message
  unfolding visit remove_jobs
  handle_read_jobs jobs = remove_finished (visit 0 jobs)
