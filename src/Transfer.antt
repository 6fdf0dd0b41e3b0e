-- ===== src/Transfer.antt =====
-- libs/hbb_common/src/fs.rs: the transfer of files. `TransferJob` and the messages of
-- libs/hbb_common/protos/message.proto that its blocks travel in.
pub mod Paths
pub mod Read
pub mod Write
pub mod Chunks
pub mod Stream
pub mod Calls
pub mod Packed
pub mod Sender
pub mod Sending
pub mod Gives
pub mod Ends
pub mod Receiver
pub mod Received
pub mod Writes
pub mod EndToEnd
pub mod ReadLaws
pub mod WriteLaws
pub mod FailedCreate
pub mod Messages
pub mod Jobs
pub mod Listing
pub mod Trees
pub mod TreeSteps
pub mod TreeFiles
pub mod Failures
pub mod JobsLaws
pub mod Samples
mod Runs
mod JobRuns
mod ListRuns
use rustdesk_server_demo.Prelude.{
  ℕ, ◌+◌, ◌-◌, ◌%◌, ◌^◌, Bool, true, false, Option, none, some, String, List, [], ◌∷◌, ◌==◌,
  if◌then◌else◌,
}
use rustdesk_server_demo.Prelude.Int.{ℤ, pos, negsuc}
use rustdesk_server_demo.Prelude.Strings.{is_empty}
use rustdesk_server_demo.Transfer.Paths.{path_join}

-- `unknown` is a number that the enum does not have.
pub data FileType : Type 0 where
  dir dir_link dir_drive file file_link unknown : FileType

pub record FileEntry : Type 0 where
  pub entry_type : FileType
  pub name : String
  pub is_hidden : Bool
  pub size : ℕ
  pub modified_time : ℕ

pub record FileTransferBlock : Type 0 where
  pub id : ℤ
  pub file_num : ℤ
  pub bytes : List ℕ
  pub compressed : Bool

-- An open file: its inode, and how many bytes were read or written.
pub record File : Type 0 where
  pub inode : ℕ
  pub offset : ℕ

-- The sizes are u64, `id` and `file_num` are i32.
pub record TransferJob : Type 0 where
  pub id : ℤ
  pub path : String
  pub files : List FileEntry
  pub file_num : ℤ
  pub file : Option File
  pub total_size : ℕ
  pub finished_size : ℕ
  pub transfered : ℕ

-- `+=` on u64, in a build that does not check for overflow.
abbrev pub add_u64 : ℕ → ℕ → ℕ
add_u64 a b = (a + b) % 2 ^ 64

-- `as usize` on i32.
abbrev pub as_usize : ℤ → ℕ
as_usize (pos n) = n
as_usize (negsuc n) = 2 ^ 64 - 1 - n

-- `+= 1` on i32, in a build that does not check for overflow.
abbrev pub next_num : ℤ → ℤ
next_num (pos n) = if n == 2 ^ 31 - 1 then negsuc (2 ^ 31 - 1) else pos (n + 1)
next_num (negsuc n) = if n == 0 then pos 0 else negsuc (n - 1)

unfoldable pub sum_sizes : List FileEntry → ℕ
sum_sizes [] = 0
sum_sizes (x ∷ files) = add_u64 x.size (sum_sizes files)

unfoldable pub new_write : ℤ → String → List FileEntry → TransferJob
unfolding sum_sizes
new_write id path files = record {
  id = id;
  path = path;
  files = files;
  file_num = pos 0;
  file = none;
  total_size = sum_sizes files;
  finished_size = 0;
  transfered = 0;
}

unfoldable pub set_files : TransferJob → List FileEntry → TransferJob
set_files self files = record self { files = files }

unfoldable pub join : TransferJob → String → String
unfolding path_join is_empty
join self name = if is_empty name then self.path else path_join self.path name
