-- ===== src/Config/Paths.antt =====
-- The paths of libs/hbb_common/src/config.rs on Linux, and the operations on the files of the
-- configuration as such. What the system says of the user is the record `User`.
pub mod Texts
pub mod Dirs
pub mod Chain
pub mod Restore
mod Runs
use Prim.Native.String.{[] as empty, ◌∷◌ as cons}
use rustdesk_server_demo.Prelude.{
  ℕ, zero, suc, Bool, true, false, not, ◌&&◌, ◌||◌, Option, none, some, String, ◌<>◌, str_eq,
  if◌then◌else◌,
}
use rustdesk_server_demo.Prelude.Strings.{is_empty, char_eq}
use rustdesk_server_demo.Disk
use rustdesk_server_demo.Disk.{Disk, Copying}
use rustdesk_server_demo.Config.Peers.Names.{with_toml}
use rustdesk_server_demo.Transfer.Paths.{slash, path_join, last_slash}

-- `whoami` is the trimmed output of the command; `config_dir` that of `ProjectDirs`; `none` where a call
-- fails.
pub record User : Type 0 where
  pub home_dir : Option String
  pub current_dir : Option String
  pub temp_dir : String
  pub whoami : Option String
  pub config_dir : Option String

abbrev pub app_name : String
app_name = "RustDesk"

abbrev pub home_of : String → Option String → String
home_of path none = path
home_of path (some user) = if str_eq user "root" then path else "/home/" <> user

unfoldable pub patch : User → String → String
patch user path = if str_eq path "/root" then home_of path user.whoami else path

abbrev pub path_in : User → String → Option String → String
path_in user p none = ""
path_in user p (some dir) = path_join (patch user dir) p

unfoldable pub path : User → String → String
unfolding patch path_join
path user p = path_in user p user.config_dir

abbrev pub after_slash : Bool → String → Option String → Option String
after_slash b s (some name) = some name
after_slash b s none = if b then some s else none

-- The text after the last slash.
unfoldable pub after_last_slash : String → Option String
after_last_slash empty = none
after_last_slash (cons c s) = after_slash (char_eq c slash) s (after_last_slash s)

abbrev pub extended : String → Option String → Option String → String
extended path (some head) (some name) =
    if is_empty name then path else head <> ("/" <> with_toml name)
extended path head name = if is_empty path then path else with_toml path

-- `with_extension("toml")` of a path that does not end in a slash or in dots.
unfoldable pub with_extension : String → String
unfolding after_last_slash last_slash is_empty
with_extension path = extended path (last_slash path) (after_last_slash path)

unfoldable pub file_ : User → String → String
unfolding path with_extension
file_ user suffix = with_extension (path user (app_name <> suffix))

unfoldable pub file : User → String
unfolding file_
file user = file_ user ""

abbrev pub home_or : User → Option String → String
home_or user none = user.temp_dir
home_or user (some dir) = dir

abbrev pub home_in : User → Option String → String
home_in user (some dir) = patch user dir
home_in user none = home_or user user.current_dir

unfoldable pub get_home : User → String
unfolding patch
get_home user = home_in user user.home_dir

-- The directory is made if the system does not refuse it.
unfoldable pub log_path : User → Bool → Disk → String × Disk
unfolding get_home path_join
log_path user ok disk =
    let path = path_join (get_home user) (".local/share/logs/" <> app_name) in
    (path, if ok then Disk.create_dir_all disk path else disk)

-- `ok`: the one directory could be made. Its permissions are not kept.
unfoldable pub ipc_path : String → Bool → Disk → String × Disk
unfolding path_join
ipc_path postfix ok disk =
    let dir = "/tmp/" <> app_name in
    (path_join dir ("ipc" <> postfix), if ok then Disk.create_dir_all disk dir else disk)

unfoldable pub icon_path : User → Bool → Disk → String × Disk
unfolding path
icon_path user ok disk =
    let p = path user "icons" in
    if ok then (p, Disk.create_dir_all disk p) else (user.temp_dir, disk)

-- Whether the text begins with the pattern.
unfoldable pub starts_with : String → String → Bool
starts_with empty s = true
starts_with (cons d p) empty = false
starts_with (cons d p) (cons c s) = char_eq c d && starts_with p s

abbrev pub toml : String
toml = ".toml"

-- `replace(".toml", "2.toml")`; the number is how many characters of a replaced text are left.
unfoldable pub replace_toml : ℕ → String → String
unfolding starts_with
replace_toml n empty = ""
replace_toml (suc n) (cons c s) = replace_toml n s
replace_toml zero (cons c s) =
    let rest = replace_toml (if starts_with toml (cons c s) then 4 else 0) s in
    if starts_with toml (cons c s) then "2.toml" <> rest else cons c rest

unfoldable pub save_tmp : User → Copying → Copying → Disk → String × Disk
unfolding file_
save_tmp user how2 how disk =
    let path = file_ user "2" in
    let copied = Disk.copy how2 disk path (path <> "_tmp") in
    let path' = file_ user "" in
    let path2 = path' <> "_tmp" in (path2, Disk.copy how copied path' path2)

-- `touch` is what the load of the configuration does to the files: it makes the file if it is not there.
unfoldable pub import : User → (Disk → Disk) → Copying → Copying → String → Disk → Disk
unfolding file file_ replace_toml
import user touch how how2 from disk =
    let copied = Disk.copy how (touch disk) from (file user) in
    Disk.copy how2 copied (replace_toml 0 from) (file_ user "2")
