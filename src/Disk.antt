-- ===== src/Disk.antt =====
-- The files that std::fs and tokio::fs show to libs/hbb_common/src/fs.rs: names for inodes, as on Unix,
-- so that an open file is not lost by a rename. A path is a text; two spellings are two names. Whether
-- the operating system refuses an operation is an argument of the code that calls it.
pub mod Laws
pub mod Keeps
pub mod Moved
pub mod Copies
use mathlib.Core.Option
use rustdesk_server_demo.Prelude.{
  ℕ, zero, suc, ◌<◌, ◌≡◌, Option, none, some, String, List, [], ◌∷◌, ◌++◌, length, take, get_elem?,
}
use rustdesk_server_demo.Prelude.HashMap
use rustdesk_server_demo.Prelude.HashMap.{HashMap}

-- `mtime` is the time that was set since the last write; the clock's own times are not kept.
pub record Inode : Type 0 where
  pub bytes : List ℕ
  pub mtime : Option ℕ

pub record Disk : Type 0 where
  pub names : HashMap ℕ
  pub inodes : List Inode
  pub dirs : List String

abbrev pub new_file : Inode
new_file = record { bytes = []; mtime = none }

unfoldable pub modify : List Inode → ℕ → (Inode → Inode) → List Inode
modify [] h f = []
modify (i ∷ is) zero f = f i ∷ is
modify (i ∷ is) (suc h) f = i ∷ modify is h f

abbrev pub inode_of : Disk → Option ℕ → Option Inode
inode_of d none = none
inode_of d (some h) = get_elem? d.inodes h

-- What stands under a name.
unfoldable pub lookup : Disk → String → Option Inode
lookup d p = inode_of d (HashMap.get d.names p)

-- An open file is its inode's number. `create` empties a file that is there.
abbrev pub create_at : Disk → String → Option ℕ → ℕ × Disk
create_at d p none = (
  length d.inodes,
  record d {
    names = HashMap.insert d.names p (length d.inodes);
    inodes = d.inodes ++ new_file ∷ [];
  },
)
create_at d p (some h) = (h, record d { inodes = modify d.inodes h (λ i. new_file) })

unfoldable pub create : Disk → String → ℕ × Disk
unfolding modify
create d p = create_at d p (HashMap.get d.names p)

abbrev pub extended : List ℕ → Inode → Inode
extended bytes i = record { bytes = i.bytes ++ bytes; mtime = none }

unfoldable pub append_to : Disk → ℕ → List ℕ → Disk
unfolding modify
append_to d h bytes = record d { inodes = modify d.inodes h (extended bytes) }

abbrev pub rename_at : Disk → String → String → Option ℕ → Disk
rename_at d from to none = d
rename_at d from to (some h) = record d {
  names = HashMap.insert (HashMap.remove d.names from) to h;
}

-- A file under the new name is replaced; without a file under the old one nothing happens.
unfoldable pub rename : Disk → String → String → Disk
rename d from to = rename_at d from to (HashMap.get d.names from)

abbrev pub dated : ℕ → Inode → Inode
dated t i = record i { mtime = some t }

abbrev pub set_mtime_at : Disk → ℕ → Option ℕ → Disk
set_mtime_at d t none = d
set_mtime_at d t (some h) = record d { inodes = modify d.inodes h (dated t) }

unfoldable pub set_mtime : Disk → String → ℕ → Disk
unfolding modify
set_mtime d p t = set_mtime_at d t (HashMap.get d.names p)

unfoldable pub remove_name : Disk → String → Disk
remove_name d p = record d { names = HashMap.remove d.names p }

-- How a copy goes: all of it, nothing, or so many bytes before it fails.
pub data Copying : Type 0 where
  whole refused : Copying
  partial : ℕ → Copying

abbrev pub part : Copying → List ℕ → List ℕ
part whole bytes = bytes
part refused bytes = []
part (partial n) bytes = take n bytes

abbrev pub content : Option Inode → List ℕ
content none = []
content (some i) = i.bytes

-- The file under the first name is open before the other is emptied.
abbrev pub copy_to : Copying → Disk → ℕ → ℕ × Disk → Disk
copy_to how d from (to, created) =
    append_to created to (part how (content (get_elem? created.inodes from)))

abbrev pub copy_opened : Copying → Disk → Option ℕ → String → Disk
copy_opened how d none to = d
copy_opened refused d (some from) to = d
copy_opened whole d (some from) to = copy_to whole d from (create d to)
copy_opened (partial n) d (some from) to = copy_to (partial n) d from (create d to)

-- `std::fs::copy`; nothing without a file under the first name.
unfoldable pub copy : Copying → Disk → String → String → Disk
unfolding create append_to
copy how d from to = copy_opened how d (HashMap.get d.names from) to

unfoldable pub create_dir_all : Disk → String → Disk
create_dir_all d p = record d { dirs = p ∷ d.dirs }

-- Every name has an inode, and none has two names.
pub record Tidy (d : Disk) : Type 0 where
  pub in_range : (p : String) (h : ℕ) → HashMap.get d.names p ≡ some h → h < length d.inodes
  pub one_name :
      (p q : String) (h : ℕ)
      → HashMap.get d.names p ≡ some h
      → HashMap.get d.names q ≡ some h
      → p ≡ q
