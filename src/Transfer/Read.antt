-- ===== src/Transfer/Read.antt =====
-- `TransferJob::read`: one block of the file that is sent now. What the operating system answers is an
-- argument.
use Prim.Native.Nat.{min}
use rustdesk_server_demo.Prelude.{
  ℕ, zero, suc, ◌+◌, ◌-◌, ◌*◌, Bool, true, false, not, ◌&&◌, ◌||◌, Option, none, some, String, List,
  [], ◌∷◌, ◌++◌, ltb, ◌==◌, if◌then◌else◌, length, take, drop, get_elem?,
}
use rustdesk_server_demo.Prelude.HashMap
use rustdesk_server_demo.Prelude.Int.{ℤ, pos}
use rustdesk_server_demo.Compress.{Zstd, compress}
use rustdesk_server_demo.Disk.{Disk, Inode}
use rustdesk_server_demo.Transfer.{
  FileEntry, FileTransferBlock, File, TransferJob, add_u64, as_usize, next_num, join,
}
use rustdesk_server_demo.Transfer.Paths.{is_compressed_file}

abbrev pub buf_size : ℕ
buf_size = 128 * 1024

-- `COMPRESS_LEVEL` of config.rs.
abbrev pub compress_level : ℤ
compress_level = pos 3

-- Whether a file that is there can be opened; of the i-th read of a call whether it fails (`none`) or
-- how many bytes beyond the first it gives at most; and the text of the error.
pub record Os : Type 0 where
  pub open_ok : Bool
  pub chunk : ℕ → Option ℕ
  pub error : String

pub data ReadResult : Type 0 where
  block : FileTransferBlock → ReadResult
  finished failed stuck : ReadResult

pub data Filled : Type 0 where
  filled : List ℕ → Filled
  read_failed out_of_fuel : Filled

-- The `loop` of `read`, on the bytes that it has and those that the file has left.
unfoldable pub fill : (ℕ → Option ℕ) → ℕ → ℕ → List ℕ → List ℕ → Filled
fill chunk zero i buf unread = out_of_fuel
fill chunk (suc fuel) i buf unread = elim (chunk i) [
  | none ↦ read_failed
  | some k ↦
      let n = min (k + 1) (min (buf_size - length buf) (length unread)) in
      let grown = buf ++ take n unread in
      let rest = fill chunk fuel (i + 1) grown (drop n unread) in
      if (n == 0) || (length grown == buf_size) then filled grown else rest
]

abbrev pub bytes_of : Option Inode → List ℕ
bytes_of none = []
bytes_of (some i) = i.bytes

-- What an open file has left.
unfoldable pub unread : Disk → File → List ℕ
unread disk file = drop file.offset (bytes_of (get_elem? disk.inodes file.inode))

module _ (zstd : Zstd) (free : Bool) where
  -- The bytes of the block, and whether they are compressed.
  unfoldable pub pack : String → List ℕ → List ℕ × Bool
  pack name buf =
      let tmp = compress zstd free buf compress_level in
      if not (is_compressed_file name) && ltb (length tmp) (length buf)
      then (tmp, true)
      else (buf, false)

  -- The end of `read`, after the loop. `file` is the open one.
  unfoldable pub after_fill : TransferJob → FileEntry → File → Filled → ReadResult × TransferJob
  after_fill self entry file out_of_fuel = (stuck, self)
  after_fill self entry file read_failed =
      (failed, record self { file_num = next_num self.file_num; file = none })
  after_fill self entry file (filled []) = (
    block (record { id = self.id; file_num = self.file_num; bytes = []; compressed = false }),
    record self { file_num = next_num self.file_num; file = none },
  )
  after_fill self entry file (filled (x ∷ xs)) =
      let (bytes, compressed) = pack entry.name (x ∷ xs) in
      (
        block (record {
          id = self.id;
          file_num = self.file_num;
          bytes = bytes;
          compressed = compressed;
        }),
        record self {
          file = some (record file { offset = file.offset + length (x ∷ xs) });
          finished_size = add_u64 self.finished_size (length (x ∷ xs));
          transfered = add_u64 self.transfered (length bytes);
        },
      )

  -- From the loop on.
  unfoldable pub read_open : Disk → Os → TransferJob → FileEntry → File → ReadResult × TransferJob
  unfolding fill unread after_fill
  read_open disk os self entry file =
      after_fill self entry file (fill os.chunk (buf_size + 1) 0 [] (unread disk file))

  abbrev pub opened : Disk → Os → TransferJob → FileEntry → Option ℕ → ReadResult × TransferJob
  opened disk os self entry none = (failed, record self { file_num = next_num self.file_num })
  opened disk os self entry (some h) =
      if os.open_ok
      then read_open disk os self entry (record { inode = h; offset = 0 })
      else (failed, record self { file_num = next_num self.file_num })

  abbrev pub read_entry :
      Disk → Os → TransferJob → FileEntry → Option File → ReadResult × TransferJob
  read_entry disk os self entry (some file) = read_open disk os self entry file
  read_entry disk os self entry none =
      opened disk os self entry (HashMap.get disk.names (join self entry.name))

  abbrev pub read_at : Disk → Os → TransferJob → Option FileEntry → ReadResult × TransferJob
  read_at disk os self none = (finished, record self { file = none })
  read_at disk os self (some entry) = read_entry disk os self entry self.file

  unfoldable pub read : Disk → Os → TransferJob → ReadResult × TransferJob
  unfolding read_open
  read disk os self = read_at disk os self (get_elem? self.files (as_usize self.file_num))
