-- ===== src/Transfer/Trees.antt =====
-- A tree of directories, the answers that std::fs gives about it, and the files in it.
use Prim.Native.Nat.{max}
use rustdesk_server_demo.Prelude.{
  ℕ, ◌+◌, ◌≡◌, Bool, true, false, not, ◌&&◌, Option, none, some, String, List, [], ◌∷◌, ◌++◌,
  if◌then◌else◌,
}
use rustdesk_server_demo.Prelude.Strings.{is_empty}
use rustdesk_server_demo.Transfer.{file, FileEntry}
use rustdesk_server_demo.Transfer.Paths.{path_join}
use rustdesk_server_demo.Transfer.Listing.{Metadata, Os, as_secs, is_hidden}

-- A file; a link, and whether a directory is behind it; a directory that can be read; one that
-- cannot. A child whose name is not UTF-8 has the name `none`.
mutual
  pub data Node : Type 0 where
    plain : Metadata → Node
    link : Bool → Metadata → Node
    folder : Metadata → Children → Node
    locked : Metadata → Node

  pub data Children : Type 0 where
    nil : Children
    child : Option String → Node → Children → Children

unfoldable pub names : Children → List (Option (Option String))
names nil = []
names (child name node cs) = some name ∷ names cs

-- What the system says of the path of a node.
unfoldable mutual
  pub Shows : Os → String → Node → Type 0
  Shows os p (plain m) =
      (os.is_dir p ≡ false) × (os.symlink_metadata p ≡ some m) × (m.is_symlink ≡ false)
  Shows os p (link to_dir m) =
      (os.is_dir p ≡ to_dir) × (os.symlink_metadata p ≡ some m) × (m.is_symlink ≡ true)
  Shows os p (folder m cs) =
      (os.is_dir p ≡ true)
      × (os.symlink_metadata p ≡ some m)
      × (m.is_symlink ≡ false)
      × (os.entries p ≡ some (names cs))
      × ShowsAll os p cs
  Shows os p (locked m) =
      (os.is_dir p ≡ true)
      × (os.symlink_metadata p ≡ some m)
      × (m.is_symlink ≡ false)
      × (os.entries p ≡ none)

  pub ShowsAll : Os → String → Children → Type 0
  ShowsAll os p nil = Unit
  ShowsAll os p (child none node cs) = ShowsAll os p cs
  ShowsAll os p (child (some name) node cs) =
      (is_empty name ≡ false) × Shows os (path_join p name) node × ShowsAll os p cs

-- How deep directories stand in one another.
unfoldable pub depth : Children → ℕ
depth nil = 0
depth (child none node cs) = depth cs
depth (child (some name) (plain m) cs) = depth cs
depth (child (some name) (link to_dir m) cs) = depth cs
depth (child (some name) (folder m sub) cs) = max (depth sub + 1) (depth cs)
depth (child (some name) (locked m) cs) = depth cs

abbrev pub the_file : String → String → Metadata → FileEntry
the_file path name m = record {
  entry_type = file;
  name = path;
  is_hidden = is_hidden name;
  size = m.len;
  modified_time = as_secs m.modified;
}

-- The files under the children, by their names from the top, in the order of the directories.
unfoldable pub files_of : Bool → String → Children → List FileEntry
unfolding is_hidden path_join
files_of include_hidden prefix nil = []
files_of include_hidden prefix (child none node cs) = files_of include_hidden prefix cs
files_of include_hidden prefix (child (some name) (plain m) cs) =
    let rest = files_of include_hidden prefix cs in
    if is_hidden name && not include_hidden
    then rest
    else the_file (path_join prefix name) name m ∷ rest
files_of include_hidden prefix (child (some name) (folder m sub) cs) =
    let inside = files_of include_hidden (path_join prefix name) sub in
    let rest = files_of include_hidden prefix cs in
    if is_hidden name && not include_hidden then rest else inside ++ rest
files_of include_hidden prefix (child (some name) (link to_dir m) cs) =
    files_of include_hidden prefix cs
files_of include_hidden prefix (child (some name) (locked m) cs) = files_of include_hidden prefix cs
