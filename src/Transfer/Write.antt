-- ===== src/Transfer/Write.antt =====
-- `TransferJob::write` and what it calls: a block that was received is written to its file. What the
-- operating system answers is an argument.
use rustdesk_server_demo.Prelude.{
  ℕ, ◌+◌, Bool, true, false, not, ◌&&◌, ◌||◌, Option, none, some, is_some, String, ◌<>◌, List, [],
  ◌==◌, if◌then◌else◌, length, take, get_elem?,
}
use rustdesk_server_demo.Prelude.Int.{equal}
use rustdesk_server_demo.Compress.{Zstd, decompress}
use rustdesk_server_demo.Disk
use rustdesk_server_demo.Disk.{Disk}
use rustdesk_server_demo.Transfer.{
  FileEntry, FileTransferBlock, File, TransferJob, add_u64, as_usize, join,
}
use rustdesk_server_demo.Transfer.Paths.{get_string, parent}

-- Which calls succeed; `short` is how much of a write is done when it fails, `none` where it does not.
-- tokio's `write_all` may return before its bytes are written. They are shown at once here, since only
-- their effect on the time can be seen: `settled` is whether they were written when `modify_time` sets
-- the time of the file. That a write fails after `write_all` has returned is left out.
pub record Os : Type 0 where
  pub rename_ok : Bool
  pub mtime_ok : Bool
  pub remove_ok : Bool
  pub dirs_ok : Bool
  pub sync_ok : Bool
  pub create_ok : Bool
  pub short : Option ℕ
  pub settled : Bool

pub data WriteResult : Type 0 where
  written wrong_id wrong_file_number sync_failed create_failed write_failed : WriteResult

abbrev pub download_path : String → String
download_path path = get_string path <> ".download"

abbrev pub rename_if : Bool → Disk → String → Disk
rename_if true disk path = Disk.rename disk (download_path path) path
rename_if false disk path = disk

abbrev pub set_mtime_if : Bool → Disk → String → ℕ → Disk
set_mtime_if true disk path time = Disk.set_mtime disk path time
set_mtime_if false disk path time = disk

abbrev remove_if : Bool → Disk → String → Disk
remove_if true disk path = Disk.remove_name disk (download_path path)
remove_if false disk path = disk

abbrev pub create_dirs : Bool → Disk → Option String → Disk
create_dirs true disk (some p) = Disk.create_dir_all disk p
create_dirs true disk none = disk
create_dirs false disk p = disk

-- A write that was in flight is done now, which takes back the time that was set.
abbrev pub land : Bool → Disk → Option File → Disk
land true disk file = disk
land false disk none = disk
land false disk (some file) = Disk.append_to disk file.inode []

abbrev pub time_entry : Os → TransferJob → Disk → Option FileEntry → Disk
time_entry os self disk none = disk
time_entry os self disk (some entry) =
    let path = join self entry.name in
    let timed =
      set_mtime_if os.mtime_ok (rename_if os.rename_ok disk path) path entry.modified_time in
    land os.settled timed self.file

unfoldable pub modify_time : Os → TransferJob → Disk → Disk
modify_time os self disk = time_entry os self disk (get_elem? self.files (as_usize self.file_num))

abbrev remove_entry : Os → TransferJob → Disk → Option FileEntry → Disk
remove_entry os self disk none = disk
remove_entry os self disk (some entry) = remove_if os.remove_ok disk (join self entry.name)

unfoldable pub remove_download_file : Os → TransferJob → Disk → Disk
remove_download_file os self disk =
    remove_entry os self disk (get_elem? self.files (as_usize self.file_num))

-- The file of the block is created, after the file before it was finished. On an error the job keeps
-- the file that it had.
unfoldable pub switch :
    Os → TransferJob → Disk → FileTransferBlock → FileEntry → WriteResult × TransferJob × Disk
unfolding modify_time
switch os self disk block entry =
    let timed = modify_time os self disk in
    if is_some self.file && not os.sync_ok
    then (sync_failed, self, timed)
    else let path = join self entry.name in
      let ready = create_dirs os.dirs_ok timed (parent path) in
      let (inode, created) = Disk.create ready (download_path path) in
      if os.create_ok
      then (
        written,
        record self {
          file_num = block.file_num;
          file = some (record { inode = inode; offset = 0 });
        },
        created,
      )
      else (create_failed, record self { file_num = block.file_num }, ready)

module _ (zstd : Zstd) (free : Bool) where
  -- The bytes that the block stands for.
  unfoldable pub payload : FileTransferBlock → List ℕ
  payload block = if block.compressed then decompress zstd free block.bytes else block.bytes

  -- `write_all` to the open file, and the counters.
  abbrev pub put_short :
      TransferJob → Disk → FileTransferBlock → File → Option ℕ → WriteResult × TransferJob × Disk
  put_short self disk block file (some k) =
      let done = take k (payload block) in
      (
        write_failed,
        record self { file = some (record file { offset = file.offset + length done }) },
        Disk.append_to disk file.inode done,
      )
  put_short self disk block file none = (
    written,
    record self {
      file = some (record file { offset = file.offset + length (payload block) });
      finished_size = add_u64 self.finished_size (length (payload block));
      transfered = add_u64 self.transfered (length block.bytes);
    },
    Disk.append_to disk file.inode (payload block),
  )

  -- `self.file.as_mut().unwrap()`: there is a file whenever `write` comes here.
  abbrev pub put_file :
      Os → TransferJob → Disk → FileTransferBlock → Option File → WriteResult × TransferJob × Disk
  put_file os self disk block none = (write_failed, self, disk)
  put_file os self disk block (some file) = put_short self disk block file os.short

  unfoldable pub put :
      Os → TransferJob → Disk → FileTransferBlock → WriteResult × TransferJob × Disk
  unfolding payload
  put os self disk block = put_file os self disk block self.file

  abbrev pub put_after :
      Os → FileTransferBlock → WriteResult × TransferJob × Disk → WriteResult × TransferJob × Disk
  put_after os block (written, self, disk) = put os self disk block
  put_after os block (error, self, disk) = (error, self, disk)

  abbrev pub write_entry :
      Os
      → TransferJob
      → Disk
      → FileTransferBlock
      → Option FileEntry
      → WriteResult × TransferJob × Disk
  write_entry os self disk block none = (wrong_file_number, self, disk)
  write_entry os self disk block (some entry) =
      if not (as_usize block.file_num == as_usize self.file_num) || not (is_some self.file)
      then put_after os block (switch os self disk block entry)
      else put os self disk block

  unfoldable pub write :
      Os → TransferJob → Disk → FileTransferBlock → WriteResult × TransferJob × Disk
  unfolding switch put
  write os self disk block =
      if not (equal block.id self.id)
      then (wrong_id, self, disk)
      else write_entry os self disk block (get_elem? self.files (as_usize block.file_num))
