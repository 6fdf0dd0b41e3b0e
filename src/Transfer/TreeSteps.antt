-- ===== src/Transfer/TreeSteps.antt =====
-- What the listing does with one entry of a tree, and with one directory.
use rustdesk_server_demo.Prelude.{
  ℕ, zero, suc, ◌≡◌, refl, ap, ◌∙◌, Bool, true, false, not, ◌&&◌, Option, none, some, String, List,
  [], ◌∷◌, ◌++◌, if◌then◌else◌,
}
use rustdesk_server_demo.Prelude.Strings.{is_empty}
use rustdesk_server_demo.Transfer.{FileEntry}
use rustdesk_server_demo.Transfer.Paths.{path_join}
use rustdesk_server_demo.Transfer.Listing.{
  directory, single, entry_type, Metadata, Os, as_secs, is_hidden, described, entry_of, entries_of,
  push, read_dir, collect, collected, or_none, read_dir_recursive,
}
use rustdesk_server_demo.Transfer.Trees.{the_file}

-- What `read_dir` makes of a name, from what the system says of it.
abbrev pub found : Bool → Bool → String → Metadata → FileEntry
found is_dir is_symlink name m = record {
  entry_type = entry_type is_dir is_symlink;
  name = name;
  is_hidden = is_hidden name;
  size = if is_dir then 0 else if is_symlink then 0 else m.len;
  modified_time = as_secs m.modified;
}

abbrev pub shown : Bool → String → FileEntry → Option FileEntry
shown include_hidden name e = if is_hidden name && not include_hidden then none else some e

module _ (os : Os) (include_hidden : Bool) where
  pub entry_of-Shows :
      (path name : String) (d s : Bool) (m : Metadata)
      → is_empty name ≡ false
      → os.is_dir (path_join path name) ≡ d
      → os.symlink_metadata (path_join path name) ≡ some m
      → m.is_symlink ≡ s
      → entry_of os path include_hidden (some (some name))
        ≡ shown include_hidden name (found d s name m)
  entry_of-Shows path name d s m named is_d meta is_s =
      ap
        (λ b.
          if b
          then none
          else described include_hidden (os.is_dir (path_join path name)) name
              (os.symlink_metadata (path_join path name)))
        named
      ∙ ap (λ b. described include_hidden b name (os.symlink_metadata (path_join path name))) is_d
      ∙ ap (described include_hidden d name) meta
      ∙ ap (λ b. shown include_hidden name (found d b name m)) is_s

  -- With the directory's own answers.
  pub read_dir_recursive-folder :
      (fuel : ℕ) (path prefix : String) (xs : List (Option (Option String)))
      → os.is_dir path ≡ true
      → os.entries path ≡ some xs
      → read_dir_recursive os include_hidden (suc fuel) path prefix
        ≡ some (
            collect
              (read_dir_recursive os include_hidden fuel)
              path
              prefix
              (entries_of os path include_hidden xs))
  unfolding read_dir_recursive read_dir
  read_dir_recursive-folder fuel path prefix xs is_d there =
      ap
        (λ b.
          if b
          then collected (read_dir_recursive os include_hidden fuel) path prefix
              (read_dir os path include_hidden)
          else if os.is_file path
          then some (single (os.metadata path) ∷ [])
          else none)
        is_d
      ∙ ap
          (λ o.
            collected (read_dir_recursive os include_hidden fuel) path prefix
              (directory os path include_hidden o))
          there

  pub read_dir_recursive-locked :
      (fuel : ℕ) (path prefix : String)
      → os.is_dir path ≡ true
      → os.entries path ≡ none
      → read_dir_recursive os include_hidden fuel path prefix ≡ none
  unfolding read_dir_recursive read_dir
  read_dir_recursive-locked zero path prefix is_d gone = refl
  read_dir_recursive-locked (suc fuel) path prefix is_d gone =
      ap
        (λ b.
          if b
          then collected (read_dir_recursive os include_hidden fuel) path prefix
              (read_dir os path include_hidden)
          else if os.is_file path
          then some (single (os.metadata path) ∷ [])
          else none)
        is_d
      ∙ ap
          (λ o.
            collected (read_dir_recursive os include_hidden fuel) path prefix
              (directory os path include_hidden o))
          gone

module _ (inner : String → String → Option (List FileEntry)) (path prefix name : String)
    (m : Metadata) (rest : List FileEntry) where
  module _ (files : List FileEntry) (ih : collect inner path prefix rest ≡ files) where
    pub collect-file :
        (b : Bool)
        → collect inner path prefix
            (push (if b then none else some (found false false name m)) rest)
          ≡ (if b then files else the_file (path_join prefix name) name m ∷ files)
    unfolding collect
    collect-file true = ih
    collect-file false = ap (λ l. the_file (path_join prefix name) name m ∷ l) ih

    pub collect-link :
        (b d : Bool)
        → collect inner path prefix (push (if b then none else some (found d true name m)) rest)
          ≡ files
    unfolding collect
    collect-link true d = ih
    collect-link false true = ih
    collect-link false false = ih

    pub collect-dir :
        (b : Bool) (o : Option (List FileEntry))
        → inner (path_join path name) (path_join prefix name) ≡ o
        → collect inner path prefix (push (if b then none else some (found true false name m)) rest)
          ≡ (if b then files else or_none o ++ files)
    unfolding collect
    collect-dir true o same = ih
    collect-dir false o same =
        ap (λ l. or_none (inner (path_join path name) (path_join prefix name)) ++ l) ih
        ∙ ap (λ r. or_none r ++ files) same
