-- ===== src/Config/Calls.antt =====
-- The calls of `Config` that can change its state, and sequences of them. `import` is not one of them: it
-- leaves the state alone and changes the files, and stands in Config/Paths.
use rustdesk_server_demo.Prelude.{ℕ, Bool, Option, String, List, [], ◌∷◌}
use rustdesk_server_demo.Prelude.HashMap.{HashMap}
use rustdesk_server_demo.Prelude.Int.{ℤ}
use rustdesk_server_demo.Config.{Config, Config2, Confy, State}
use rustdesk_server_demo.Config.Setters.{
  set_id, set_nat_type, set_serial, set_key_confirmed, set_host_key_confirmed, set_key_pair,
  set_options, set_option, set_password, set_salt, set_size, set_remote_id,
}
use rustdesk_server_demo.Config.Generate.{get_key_pair, get_id, update_id, get_password, get_salt}
use rustdesk_server_demo.Config.Servers.{reset_online, update_latency}

pub data Call : Type 0 where
  to_set_id to_set_password to_set_salt to_set_remote_id : String → Call
  to_set_nat_type to_set_serial : ℤ → Call
  to_set_key_confirmed : Bool → Call
  to_set_host_key_confirmed : String → Bool → Call
  to_set_key_pair to_get_key_pair : List ℕ × List ℕ → Call
  to_get_id : Option (List ℕ) → Call
  to_update_id : Option (List ℕ) → ℕ → Call
  to_set_options : HashMap String → Call
  to_set_option : String → String → Call
  to_get_password to_get_salt : (ℕ → ℕ) → Call
  to_set_size : ℤ → ℤ → ℤ → ℤ → Call
  to_reset_online : Call
  to_update_latency : String → ℤ → Call

module _ {File : Type 0} (confy : Confy Config File) (confy2 : Confy Config2 File) where
  unfoldable pub call : State File → Call → State File
  call self (to_set_id id) = set_id confy self id
  call self (to_set_password password) = set_password confy self password
  call self (to_set_salt salt) = set_salt confy self salt
  call self (to_set_remote_id remote_id) = set_remote_id confy2 self remote_id
  call self (to_set_nat_type nat_type) = set_nat_type confy2 self nat_type
  call self (to_set_serial serial) = set_serial confy2 self serial
  call self (to_set_key_confirmed v) = set_key_confirmed confy self v
  call self (to_set_host_key_confirmed host v) = set_host_key_confirmed confy self host v
  call self (to_set_key_pair pair) = set_key_pair confy self pair
  call self (to_get_key_pair pair) = (get_key_pair confy self pair).1
  call self (to_get_id mac) = (get_id confy self mac).1
  call self (to_update_id mac new) = update_id confy self mac new
  call self (to_set_options v) = set_options confy2 self v
  call self (to_set_option k v) = set_option confy2 self k v
  call self (to_get_password draw) = (get_password confy self draw).1
  call self (to_get_salt draw) = (get_salt confy self draw).1
  call self (to_set_size x y w h) = set_size confy2 self x y w h
  call self to_reset_online = reset_online self
  call self (to_update_latency host latency) = update_latency confy2 self host latency

  unfoldable pub calls : State File → List Call → State File
  calls self [] = self
  calls self (c ∷ cs) = calls (call self c) cs
