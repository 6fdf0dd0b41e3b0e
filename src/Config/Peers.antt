-- ===== src/Config/Peers.antt =====
-- `PeerConfig` of libs/hbb_common/src/config.rs: a file for each peer in the directory `peers`. The
-- directory is a map from the names in it to the files; confy is a parameter.
pub mod Names
pub mod Stores
pub mod Sweep
pub mod Forgets
mod Runs
use rustdesk_server_demo.Prelude.{
  ℕ, ◌≡◌, Bool, true, false, not, ◌&&◌, ◌⊎◌, Option, none, some, is_some, String, List, [], ◌∷◌,
  str_eq, map, if◌then◌else◌,
}
use rustdesk_server_demo.Prelude.HashMap
use rustdesk_server_demo.Prelude.HashMap.{HashMap}
use rustdesk_server_demo.Prelude.Int.{ℤ, pos}
use rustdesk_server_demo.Prelude.Strings.{is_empty}
use rustdesk_server_demo.Config.{Size, load_or}
use rustdesk_server_demo.Config.Peers.Names.{file_stem, is_toml, with_toml}

pub record PeerInfoSerde : Type 0 where
  pub username : String
  pub hostname : String
  pub platform : String

pub record PeerConfig : Type 0 where
  pub password : List ℕ
  pub size : Size
  pub size_ft : Size
  pub size_pf : Size
  pub view_style : String
  pub image_quality : String
  pub custom_image_quality : List ℤ
  pub show_remote_cursor : Bool
  pub lock_after_session_end : Bool
  pub privacy_mode : Bool
  pub port_forwards : List (ℤ × String × ℤ)
  pub direct_failures : ℤ
  pub disable_audio : Bool
  pub disable_clipboard : Bool
  pub options : HashMap String
  pub info : PeerInfoSerde

abbrev pub no_size : Size
no_size = (pos 0, pos 0, pos 0, pos 0)

abbrev pub default_peer : PeerConfig
default_peer = record {
  password = [];
  size = no_size;
  size_ft = no_size;
  size_pf = no_size;
  view_style = "";
  image_quality = "";
  custom_image_quality = [];
  show_remote_cursor = false;
  lock_after_session_end = false;
  privacy_mode = false;
  port_forwards = [];
  direct_failures = pos 0;
  disable_audio = false;
  disable_clipboard = false;
  options = [];
  info = record { username = ""; hostname = ""; platform = "" };
}

-- The contract of confy: a configuration whose store succeeds is what a load reads, and a load where no
-- file is gives the default, if it does not fail, and leaves a file or none.
pub record ConfyPath (File : Type 0) : Type 0 where
  pub load_path : File → Option PeerConfig
  pub load_missing : Option PeerConfig × Option File
  pub store_path : PeerConfig → Option File → Option File × Bool
  pub load-store :
      (cfg : PeerConfig) (old : Option File)
      → (store_path cfg old).1 ≡ true
      → (file : File) × ((store_path cfg old).0 ≡ some file) × (load_path file ≡ some cfg)
  pub load_missing_default : (load_missing.0 ≡ none) ⊎ (load_missing.0 ≡ some default_peer)

pub record Saved (File : Type 0) : Type 0 where
  pub content : File
  pub modified : ℕ

abbrev pub Dir : Type 0 → Type 0
Dir File = HashMap (Saved File)

-- Of an id that is a name: not empty, `.` or `..`, and without a slash.
unfoldable pub path : String → String
unfolding file_stem
path id = with_toml id

abbrev pub Peer : Type 0
Peer = String × ℕ × PeerInfoSerde

abbrev pub keep : Bool → Peer → List Peer → List Peer
keep b peer peers = if b && not (is_empty peer.2.platform) then peer ∷ peers else peers

module _ {File : Type 0} where
  abbrev pub put : Dir File → String → ℕ → Option File → Dir File
  put dir p now none = dir
  put dir p now (some file) = HashMap.insert dir p (record { content = file; modified = now })

  abbrev pub content_of : Option (Saved File) → Option File
  content_of none = none
  content_of (some s) = some s.content

  -- 0 is the epoch.
  abbrev pub modified_of : Option (Saved File) → ℕ
  modified_of none = 0
  modified_of (some s) = s.modified

  -- `fs::remove_file`, whose error is dropped: whether the system removes the file.
  abbrev pub remove_file : Bool → Dir File → String → Dir File
  remove_file ok dir p = if ok then HashMap.remove dir p else dir

  unfoldable pub remove : Bool → Dir File → String → Dir File
  remove ok dir id = remove_file ok dir (path id)

  abbrev pub is_listed : Dir File → String → Bool
  is_listed dir p = is_some (HashMap.get dir p) && is_toml p

  -- A file whose peer has no platform is removed, if the system removes it.
  abbrev pub swept : Bool → String → PeerConfig × Dir File → Dir File
  swept ok p (config, dir) = if is_empty config.info.platform then remove_file ok dir p else dir

  abbrev pub names : Dir File → List String
  names dir = map (λ e. e.0) dir

module _ {File : Type 0} (confy : ConfyPath File) where
  abbrev pub loaded : Dir File → String → ℕ → Option (Saved File) → PeerConfig × Dir File
  loaded dir p now (some s) = (load_or default_peer (confy.load_path s.content), dir)
  loaded dir p now none =
      (load_or default_peer confy.load_missing.0, put dir p now confy.load_missing.1)

  unfoldable pub load : Dir File → ℕ → String → PeerConfig × Dir File
  unfolding path load_or
  load dir now id = loaded dir (path id) now (HashMap.get dir (path id))

  unfoldable pub store : Dir File → ℕ → PeerConfig → String → Dir File
  unfolding path
  store dir now self id =
      put dir (path id) now (confy.store_path self (content_of (HashMap.get dir (path id)))).0

  -- One file after another: its test, its `map` and the second `filter`.
  unfoldable pub visit : (String → Bool) → Dir File → ℕ → List String → List Peer × Dir File
  unfolding load file_stem is_toml
  visit removes dir now [] = ([], dir)
  visit removes dir now (p ∷ ps) =
      let listed = is_listed dir p in
      let id = file_stem p in
      let t = modified_of (HashMap.get dir p) in
      let (rest, end) =
        visit removes (if listed then swept (removes p) p (load dir now id) else dir) now ps in
      (keep listed (id, t, (load dir now id).0.info) rest, end)

  -- `removes`: which files the system removes. `readable`: the directory and all its entries could be read. `sort` is `sort_unstable_by` with the
  -- times, the latest first.
  unfoldable pub peers :
      (String → Bool) → (List Peer → List Peer) → Bool → Dir File → ℕ → List Peer × Dir File
  unfolding visit
  peers removes sort readable dir now =
      let (found, end) = visit removes dir now (names dir) in
      if readable then (sort found, end) else ([], dir)
