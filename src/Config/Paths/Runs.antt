-- ===== src/Config/Paths/Runs.antt =====
-- The paths of two users, and a configuration that goes from one to the other.
use rustdesk_server_demo.Prelude.{
  ◌≡◌, refl, true, false, ◌⊎◌, none, some, String, [], ◌∷◌, eq_iff, arith,
}
use rustdesk_server_demo.Prelude.HashMap
use rustdesk_server_demo.Prelude.Strings.{is_empty}
use rustdesk_server_demo.Transfer.Paths.{ends_in_slash}
use rustdesk_server_demo.Config.Paths.Texts.{contains_toml}
use rustdesk_server_demo.Disk
use rustdesk_server_demo.Disk.{Inode, Disk, lookup, whole, Tidy}
use rustdesk_server_demo.Disk.Keeps.{create-Tidy}
use rustdesk_server_demo.Disk.Moved.{create_other}
use rustdesk_server_demo.Config.Paths.{User, file, file_, get_home, patch, starts_with, save_tmp}
use rustdesk_server_demo.Config.Paths.Dirs.{IsAt, main}
use rustdesk_server_demo.Config.Paths.Chain.{Touches, copy_of}
use rustdesk_server_demo.Config.Paths.Restore.{imported, is_written, import-save_tmp}

abbrev ann : User
ann = record {
  home_dir = some "/home/ann";
  current_dir = none;
  temp_dir = "/tmp";
  whoami = some "ann";
  config_dir = some "/home/ann/.config/rustdesk";
}

abbrev root : User
root = record {
  home_dir = some "/root";
  current_dir = none;
  temp_dir = "/tmp";
  whoami = some "ann";
  config_dir = some "/root";
}

get_home-root : get_home root ≡ "/home/ann"
unfolding get_home patch
get_home-root = refl

abbrev first : Inode
first = record { bytes = 1 ∷ 2 ∷ []; mtime = none }

abbrev second : Inode
second = record { bytes = 3 ∷ []; mtime = some 5 }

abbrev disk : Disk
disk = record {
  names =
      ("/home/ann/.config/rustdesk/RustDesk.toml", 0)
      ∷ ("/home/ann/.config/rustdesk/RustDesk2.toml", 1)
      ∷ [];
  inodes = first ∷ second ∷ [];
  dirs = [];
}

disk-Tidy : Tidy disk
unfolding HashMap.get
disk-Tidy = record {
  in_range = λ p h e. ground arith;
  one_name = λ p q h e e'. ground (
    arith,
    eq_iff "/home/ann/.config/rustdesk/RustDesk.toml" p,
    eq_iff "/home/ann/.config/rustdesk/RustDesk.toml" q,
    eq_iff "/home/ann/.config/rustdesk/RustDesk2.toml" p,
    eq_iff "/home/ann/.config/rustdesk/RustDesk2.toml" q,
  );
}

ann-IsAt : IsAt ann "/home/ann/.config/rustdesk"
unfolding patch is_empty ends_in_slash
ann-IsAt = record {
  found = "/home/ann/.config/rustdesk";
  config_dir = refl;
  patched = refl;
  ends_in_name = refl;
}

root-IsAt : IsAt root "/home/ann"
unfolding patch is_empty ends_in_slash
root-IsAt = record { found = "/root"; config_dir = refl; patched = refl; ends_in_name = refl }

abbrev touch : Disk → Disk
touch d = (Disk.create d (main "/home/ann")).1

touches : Touches touch (main "/home/ann")
touches = record {
  tidy = λ d t. create-Tidy d t (main "/home/ann");
  other = λ d t q apart. create_other d t (main "/home/ann") q apart;
}

plain : contains_toml "/home/ann/.config/rustdesk" ≡ false
unfolding contains_toml starts_with
plain = refl

there : lookup disk "/home/ann/.config/rustdesk/RustDesk.toml" ≡ some first
unfolding lookup HashMap.get
there = refl

there2 : lookup disk "/home/ann/.config/rustdesk/RustDesk2.toml" ≡ some second
unfolding lookup HashMap.get
there2 = refl

abbrev end : Disk
end = imported root touch (save_tmp ann whole whole disk)

import-save_tmp_example :
    (lookup end (file root) ≡ some (copy_of first))
    × (lookup end (file_ root "2") ≡ some (copy_of second))
    × ((q : String)
        → (lookup end q ≡ lookup disk q)
          ⊎ (is_written "/home/ann/.config/rustdesk" "/home/ann" q ≡ true))
import-save_tmp_example =
    import-save_tmp ann root "/home/ann/.config/rustdesk" "/home/ann" ann-IsAt root-IsAt plain touch
      touches disk disk-Tidy first second there there2
