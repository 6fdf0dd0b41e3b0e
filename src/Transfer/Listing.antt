-- ===== src/Transfer/Listing.antt =====
-- fs.rs: the lists of files. What std::fs answers about the files that are there is the record `Os`.
use Prim.Native.String.{[] as empty, ◌∷◌ as cons}
use rustdesk_server_demo.Prelude.{
  ℕ, zero, suc, Bool, true, false, not, ◌&&◌, Option, none, some, String, List, [], ◌∷◌, ◌++◌,
  if◌then◌else◌,
}
use rustdesk_server_demo.Prelude.Int.{ℤ, pos, negsuc}
use rustdesk_server_demo.Prelude.Strings.{is_empty, char_eq, dot}
use rustdesk_server_demo.Transfer.{
  FileType, dir, dir_link, dir_drive, file, file_link, unknown, FileEntry, TransferJob, sum_sizes,
}
use rustdesk_server_demo.Transfer.Messages.{FileDirectory}
use rustdesk_server_demo.Transfer.Paths.{get_string, get_path, path_join}

-- `modified` is in seconds since the epoch, `none` if the system does not say it.
pub record Metadata : Type 0 where
  pub is_symlink : Bool
  pub len : ℕ
  pub modified : Option ℤ

-- `entries`: `none` if the directory cannot be read; of an entry in it, `none` on an error, and
-- `some none` if its name is not UTF-8. `is_dir`, `is_file` and `metadata` follow links.
pub record Os : Type 0 where
  pub entries : String → Option (List (Option (Option String)))
  pub is_dir : String → Bool
  pub is_file : String → Bool
  pub symlink_metadata : String → Option Metadata
  pub metadata : String → Option Metadata

-- 0 for a time before the epoch, or if there is none.
abbrev pub as_secs : Option ℤ → ℕ
as_secs none = 0
as_secs (some (pos n)) = n
as_secs (some (negsuc n)) = 0

abbrev pub entry_type : Bool → Bool → FileType
entry_type true true = dir_link
entry_type true false = dir
entry_type false true = file_link
entry_type false false = file

abbrev pub entry_size : Bool → Metadata → ℕ
entry_size is_dir meta = if is_dir then 0 else if meta.is_symlink then 0 else meta.len

-- Not on Windows.
unfoldable pub is_hidden : String → Bool
is_hidden empty = false
is_hidden (cons c s) = char_eq c dot

-- `none` where the loop goes on to the next entry.
abbrev pub described : Bool → Bool → String → Option Metadata → Option FileEntry
described include_hidden is_dir name none = none
described include_hidden is_dir name (some meta) =
    if is_hidden name && not include_hidden
    then none
    else some (record {
      entry_type = entry_type is_dir meta.is_symlink;
      name = name;
      is_hidden = is_hidden name;
      size = entry_size is_dir meta;
      modified_time = as_secs meta.modified;
    })

abbrev pub entry_of : Os → String → Bool → Option (Option String) → Option FileEntry
entry_of os path include_hidden none = none
entry_of os path include_hidden (some none) = none
entry_of os path include_hidden (some (some name)) =
    let p = path_join path name in
    if is_empty name
    then none
    else described include_hidden (os.is_dir p) name (os.symlink_metadata p)

abbrev pub push : Option FileEntry → List FileEntry → List FileEntry
push none es = es
push (some e) es = e ∷ es

unfoldable pub entries_of : Os → String → Bool → List (Option (Option String)) → List FileEntry
unfolding is_hidden
entries_of os path include_hidden [] = []
entries_of os path include_hidden (x ∷ xs) =
    push (entry_of os path include_hidden x) (entries_of os path include_hidden xs)

abbrev pub directory :
    Os → String → Bool → Option (List (Option (Option String))) → Option FileDirectory
directory os path include_hidden none = none
directory os path include_hidden (some xs) =
    some (record {
      id = pos 0;
      path = get_string path;
      entries = entries_of os path include_hidden xs;
    })

unfoldable pub read_dir : Os → String → Bool → Option FileDirectory
unfolding entries_of
read_dir os path include_hidden = directory os path include_hidden (os.entries path)

abbrev pub or_none : Option (List FileEntry) → List FileEntry
or_none none = []
or_none (some files) = files

-- The `for` of `read_dir_recursive`; `inner` is the recursive call.
unfoldable pub collect :
    (String → String → Option (List FileEntry)) → String → String → List FileEntry → List FileEntry
collect inner path prefix [] = []
collect inner path prefix (entry ∷ es) =
    let rest = collect inner path prefix es in
    elim entry.entry_type [
      | file ↦ record entry { name = get_string (path_join prefix entry.name) } ∷ rest
      | dir ↦ or_none (inner (path_join path entry.name) (path_join prefix entry.name)) ++ rest
      | dir_link ↦ rest
      | dir_drive ↦ rest
      | file_link ↦ rest
      | unknown ↦ rest
    ]

abbrev pub collected :
    (String → String → Option (List FileEntry))
    → String
    → String
    → Option FileDirectory
    → Option (List FileEntry)
collected inner path prefix none = none
collected inner path prefix (some fd) = some (collect inner path prefix fd.entries)

abbrev pub single : Option Metadata → FileEntry
single none = record {
  entry_type = file;
  name = "";
  is_hidden = false;
  size = 0;
  modified_time = 0;
}
single (some meta) = record {
  entry_type = file;
  name = "";
  is_hidden = false;
  size = meta.len;
  modified_time = as_secs meta.modified;
}

-- `none` is an error, and what it gives without fuel.
unfoldable pub read_dir_recursive : Os → Bool → ℕ → String → String → Option (List FileEntry)
unfolding read_dir collect
read_dir_recursive os include_hidden zero path prefix = none
read_dir_recursive os include_hidden (suc fuel) path prefix =
    let inner = read_dir_recursive os include_hidden fuel in
    if os.is_dir path
    then collected inner path prefix (read_dir os path include_hidden)
    else if os.is_file path
    then some (single (os.metadata path) ∷ [])
    else none

unfoldable pub get_recursive_files : Os → ℕ → String → Bool → Option (List FileEntry)
unfolding read_dir_recursive
get_recursive_files os fuel path include_hidden =
    read_dir_recursive os include_hidden fuel (get_path path) (get_path "")

abbrev reading : ℤ → String → Option (List FileEntry) → Option TransferJob
reading id path none = none
reading id path (some files) = some (record {
  id = id;
  path = get_path path;
  files = files;
  file_num = pos 0;
  file = none;
  total_size = sum_sizes files;
  finished_size = 0;
  transfered = 0;
})

unfoldable pub new_read : Os → ℕ → ℤ → String → Bool → Option TransferJob
unfolding get_recursive_files sum_sizes
new_read os fuel id path include_hidden =
    reading id path (get_recursive_files os fuel path include_hidden)

-- What `remove_all_empty_dir` asks of the system. The removals change nothing that it still reads.
pub data Removal : Type 0 where
  remove_file remove_dir : String → Removal

unfoldable pub remove_entries :
    (String → Bool × List Removal) → String → List FileEntry → List Removal
remove_entries inner path [] = []
remove_entries inner path (entry ∷ es) =
    let rest = remove_entries inner path es in
    elim entry.entry_type [
      | file ↦ rest
      | dir ↦ (inner (path_join path entry.name)).1 ++ rest
      | dir_link ↦ remove_file (path_join path entry.name) ∷ rest
      | dir_drive ↦ rest
      | file_link ↦ remove_file (path_join path entry.name) ∷ rest
      | unknown ↦ rest
    ]

abbrev removed :
    (String → Bool × List Removal) → String → Option FileDirectory → Bool × List Removal
removed inner path none = (false, [])
removed inner path (some fd) = (true, remove_entries inner path fd.entries ++ remove_dir path ∷ [])

-- Whether it succeeds, and the removals in their order; an error without fuel.
unfoldable pub remove_all_empty_dir : Os → ℕ → String → Bool × List Removal
unfolding read_dir remove_entries
remove_all_empty_dir os zero path = (false, [])
remove_all_empty_dir os (suc fuel) path =
    removed (remove_all_empty_dir os fuel) path (read_dir os path true)
