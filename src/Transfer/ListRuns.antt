-- ===== src/Transfer/ListRuns.antt =====
-- The listing of a small tree.
use rustdesk_server_demo.Prelude.{
  ◌≡◌, refl, Bool, true, false, ◌||◌, none, some, [], ◌∷◌, if◌then◌else◌, arith,
}
use rustdesk_server_demo.Prelude.Int.{negsuc}
use text.Mathlib.Text.{◌==◌}
use rustdesk_server_demo.Prelude.Strings.{is_empty}
use rustdesk_server_demo.Transfer.{file}
use rustdesk_server_demo.Transfer.Paths.{path_join}
use rustdesk_server_demo.Transfer.Listing.{Metadata, Os, get_recursive_files}
use rustdesk_server_demo.Transfer.Trees.{
  plain, link, folder, locked, Children, nil, child, names, Shows, ShowsAll, depth, files_of,
}
use rustdesk_server_demo.Transfer.TreeFiles.{get_recursive_files-tree}

abbrev meta : Bool → Metadata
meta is_symlink = record { is_symlink = is_symlink; len = 3; modified = some (negsuc 4) }

abbrev inside : Children
inside = child (some "b") (plain (meta false)) nil

abbrev tree : Children
tree = child (some ".h") (plain (meta false)) (
    child (some "s") (folder (meta false) inside) (
      child (some "l") (link true (meta true))
        (child (some "k") (locked (meta false)) (child none (plain (meta false)) nil))))

abbrev os : Os
os = record {
  entries = λ p.
      if p == "/d" then some (names tree) else if p == "/d/s" then some (names inside) else none;
  is_dir = λ p. (p == "/d") || (p == "/d/s") || (p == "/d/l") || (p == "/d/k");
  is_file = λ p. false;
  symlink_metadata = λ p. some (meta (p == "/d/l"));
  metadata = λ p. none;
}

shows : ShowsAll os "/d" tree
unfolding Shows names path_join is_empty
shows = (
  refl,
  (refl, refl, refl),
  (
    refl,
    (refl, refl, refl, refl, (refl, (refl, refl, refl), tt)),
    (refl, (refl, refl, refl), (refl, (refl, refl, refl, refl), tt)),
  ),
)

get_recursive_files-tree_example :
    get_recursive_files os 2 "/d" false
    ≡ some (
        record { entry_type = file; name = "s/b"; is_hidden = false; size = 3; modified_time = 0 }
        ∷ [])
unfolding files_of depth
get_recursive_files-tree_example =
    get_recursive_files-tree os false tree 2 "/d" (omega arith) refl refl shows
