-- ===== src/Config.antt =====
-- libs/hbb_common/src/config.rs: the two configurations, their copies in memory, `CONFIG` and
-- `CONFIG2`, and their files. An operation is a function on the state: calls are taken one after
-- another, not interleaved. confy, which writes and reads the files, is a parameter.
pub mod Setters
pub mod Generate
pub mod Servers
pub mod Calls
pub mod Laws
pub mod Restart
pub mod Reload
pub mod Stable
pub mod Latency
pub mod Listing
pub mod Peers
pub mod Race
pub mod Paths
mod Runs
use rustdesk_server_demo.Prelude.{
  ℕ, ◌+◌, ◌≡◌, Bool, true, false, Option, none, some, String, List, [], if◌then◌else◌,
}
use rustdesk_server_demo.Prelude.HashMap.{HashMap}
use rustdesk_server_demo.Prelude.Int.{ℤ, pos}

abbrev pub Size : Type 0
Size = ℤ × ℤ × ℤ × ℤ

pub record Config : Type 0 where
  pub id : String
  pub password : String
  pub salt : String
  pub key_pair : List ℕ × List ℕ
  pub key_confirmed : Bool
  pub keys_confirmed : HashMap Bool

pub record Config2 : Type 0 where
  pub remote_id : String
  pub size : Size
  pub rendezvous_server : String
  pub nat_type : ℤ
  pub serial : ℤ
  pub options : HashMap String

abbrev pub default_config : Config
default_config = record {
  id = "";
  password = "";
  salt = "";
  key_pair = ([], []);
  key_confirmed = false;
  keys_confirmed = [];
}

abbrev pub default_config2 : Config2
default_config2 = record {
  remote_id = "";
  size = (pos 0, pos 0, pos 0, pos 0);
  rendezvous_server = "";
  nat_type = pos 0;
  serial = pos 0;
  options = [];
}

-- The contract of confy on one file: a configuration whose store succeeds is what a load reads. A load
-- makes the file where it is missing, with the default; `load_file` is the file that it leaves, and
-- another load reads the same from that.
pub record Confy (T File : Type 0) : Type 0 where
  pub load_path : File → Option T
  pub load_file : File → File
  pub load-load : (file : File) → load_path (load_file file) ≡ load_path file
  pub store_path : T → File → File × Bool
  pub load-store :
      (cfg : T) (file : File)
      → (store_path cfg file).1 ≡ true
      → load_path (store_path cfg file).0 ≡ some cfg

-- `errors` counts the stores that failed.
pub record State (File : Type 0) : Type 0 where
  pub config : Config
  pub config2 : Config2
  pub online : HashMap ℤ
  pub file : File
  pub file2 : File
  pub errors : ℕ

-- `load_`: a file that cannot be read gives the default.
unfoldable pub load_or : {T : Type 0} → T → Option T → T
load_or default none = default
load_or default (some config) = config

abbrev pub count_error : Bool → ℕ → ℕ
count_error true n = n
count_error false n = n + 1

module _ {File : Type 0} (confy : Confy Config File) (confy2 : Confy Config2 File) where
  -- The state in which the process starts, on its two files.
  unfoldable pub start : File → File → State File
  unfolding load_or
  start file file2 = record {
    config = load_or default_config (confy.load_path file);
    config2 = load_or default_config2 (confy2.load_path file2);
    online = [];
    file = confy.load_file file;
    file2 = confy2.load_file file2;
    errors = 0;
  }

module _ {File : Type 0} (confy : Confy Config File) where
  -- `config.store()` under the lock: the new configuration in memory, and `store_` of it.
  unfoldable pub store : State File → Config → State File
  store self config = record self {
    config = config;
    file = (confy.store_path config self.file).0;
    errors = count_error (confy.store_path config self.file).1 self.errors;
  }

module _ {File : Type 0} (confy2 : Confy Config2 File) where
  unfoldable pub store2 : State File → Config2 → State File
  store2 self config = record self {
    config2 = config;
    file2 = (confy2.store_path config self.file2).0;
    errors = count_error (confy2.store_path config self.file2).1 self.errors;
  }
