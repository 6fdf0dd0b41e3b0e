-- ===== src/Transfer/TreeFiles.antt =====
-- `get_recursive_files` lists the files of a tree.
use rustdesk_server_demo.Prelude.{
  ℕ, zero, suc, ◌≤◌, ◌<◌, ◌≡◌, refl, ap, ◌∙◌, Bool, true, false, not, ◌&&◌, none, some, String,
  if◌then◌else◌, arith,
}
use rustdesk_server_demo.Transfer.Paths.{path_join}
use rustdesk_server_demo.Transfer.Listing.{
  Os, is_hidden, entries_of, push, collect, read_dir_recursive, get_recursive_files,
}
use rustdesk_server_demo.Transfer.Trees.{
  plain, link, folder, locked, Children, nil, child, names, ShowsAll, depth, files_of,
}
use rustdesk_server_demo.Transfer.TreeSteps.{
  entry_of-Shows, read_dir_recursive-folder, read_dir_recursive-locked, collect-file, collect-link,
  collect-dir,
}

if_same : {A : Type 0} (b : Bool) (x : A) → (if b then x else x) ≡ x
if_same true x = refl
if_same false x = refl

module _ (os : Os) (include_hidden : Bool) where
  -- `collect` over the entries of a directory, with the fuel that the directories in it need.
  collect-tree :
      (cs : Children) (fuel : ℕ) (path prefix : String)
      → depth cs ≤ fuel
      → ShowsAll os path cs
      → collect
          (read_dir_recursive os include_hidden fuel)
          path
          prefix
          (entries_of os path include_hidden (names cs))
        ≡ files_of include_hidden prefix cs
  unfolding collect entries_of names files_of ShowsAll depth
  collect-tree nil fuel path prefix deep shows = refl
  collect-tree (child none node cs) fuel path prefix deep shows =
      collect-tree cs fuel path prefix deep shows
  collect-tree (child (some name) (plain m) cs) fuel path prefix deep
        (named, (is_d, meta, is_s), shows) =
      ap
        (λ o.
          collect (read_dir_recursive os include_hidden fuel) path prefix
            (push o (entries_of os path include_hidden (names cs))))
        (entry_of-Shows os include_hidden path name false false m named is_d meta is_s)
      ∙ collect-file (read_dir_recursive os include_hidden fuel) path prefix name m _ _
          (collect-tree cs fuel path prefix deep shows) (is_hidden name && not include_hidden)
  collect-tree (child (some name) (link d m) cs) fuel path prefix deep
        (named, (is_d, meta, is_s), shows) =
      ap
        (λ o.
          collect (read_dir_recursive os include_hidden fuel) path prefix
            (push o (entries_of os path include_hidden (names cs))))
        (entry_of-Shows os include_hidden path name d true m named is_d meta is_s)
      ∙ collect-link (read_dir_recursive os include_hidden fuel) path prefix name m _ _
          (collect-tree cs fuel path prefix deep shows) (is_hidden name && not include_hidden) d
  collect-tree (child (some name) (locked m) cs) fuel path prefix deep
        (named, (is_d, meta, is_s, gone), shows) =
      ap
        (λ o.
          collect (read_dir_recursive os include_hidden fuel) path prefix
            (push o (entries_of os path include_hidden (names cs))))
        (entry_of-Shows os include_hidden path name true false m named is_d meta is_s)
      ∙ collect-dir (read_dir_recursive os include_hidden fuel) path prefix name m _ _
          (collect-tree cs fuel path prefix deep shows) (is_hidden name && not include_hidden) none
          (read_dir_recursive-locked os include_hidden fuel (path_join path name)
            (path_join prefix name) is_d gone)
      ∙ if_same (is_hidden name && not include_hidden) (files_of include_hidden prefix cs)
  collect-tree (child (some name) (folder m sub) cs) zero path prefix deep
        (named, (is_d, meta, is_s, there, inside), shows) =
      absurd (omega arith)
  collect-tree (child (some name) (folder m sub) cs) (suc fuel) path prefix deep
        (named, (is_d, meta, is_s, there, inside), shows) =
      ap
        (λ o.
          collect (read_dir_recursive os include_hidden (suc fuel)) path prefix
            (push o (entries_of os path include_hidden (names cs))))
        (entry_of-Shows os include_hidden path name true false m named is_d meta is_s)
      ∙ collect-dir (read_dir_recursive os include_hidden (suc fuel)) path prefix name m _ _
          (collect-tree cs (suc fuel) path prefix (omega arith) shows)
          (is_hidden name && not include_hidden)
          (some (files_of include_hidden (path_join prefix name) sub))
          (read_dir_recursive-folder os include_hidden fuel (path_join path name)
              (path_join prefix name) (names sub) is_d there
            ∙ ap some (
                collect-tree sub fuel (path_join path name) (path_join prefix name) (omega arith)
                  inside))

  -- `get_recursive_files` on a directory that can be read lists the files of its tree, in its order and
  -- with their paths from it; without `include_hidden` it leaves out those whose name starts with a dot
  -- and all that is in such a directory. Links, directories that cannot be read and names that are not
  -- UTF-8 are left out with no error. Fuel above the depth of the tree is enough.
  pub get_recursive_files-tree :
      (cs : Children) (fuel : ℕ) (path : String)
      → depth cs < fuel
      → os.is_dir path ≡ true
      → os.entries path ≡ some (names cs)
      → ShowsAll os path cs
      → get_recursive_files os fuel path include_hidden ≡ some (files_of include_hidden "" cs)
  unfolding get_recursive_files
  get_recursive_files-tree cs zero path deep is_d there shows = absurd (omega arith)
  get_recursive_files-tree cs (suc fuel) path deep is_d there shows =
      read_dir_recursive-folder os include_hidden fuel path "" (names cs) is_d there
      ∙ ap some (collect-tree cs fuel path "" (omega arith) shows)
