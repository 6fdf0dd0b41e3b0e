-- ===== src/Config/Setters.antt =====
-- The getters and setters of `Config`; a setter that changes nothing returns before its store.
use rustdesk_server_demo.Prelude.{
  ℕ, Bool, true, false, not, ◌&&◌, ◌||◌, Option, none, some, String, List, [], str_eq,
  if◌then◌else◌,
}
use rustdesk_server_demo.Prelude.HashMap
use rustdesk_server_demo.Prelude.HashMap.{HashMap}
use rustdesk_server_demo.Prelude.Int.{ℤ, pos, less, equal}
use rustdesk_server_demo.Prelude.Strings.{is_empty}
use rustdesk_server_demo.Config.{Config, Config2, Size, Confy, State, store, store2}

abbrev pub bool_eq : Bool → Bool → Bool
bool_eq true b = b
bool_eq false b = not b

abbrev pub size_eq : Size → Size → Bool
size_eq (x, y, w, h) (x', y', w', h') = equal x x' && equal y y' && equal w w' && equal h h'

-- `const SERIAL`.
abbrev pub serial_const : ℤ
serial_const = pos 0

abbrev pub is_true : Option Bool → Bool
is_true (some true) = true
is_true _ = false

abbrev pub or_empty : Option String → String
or_empty none = ""
or_empty (some v) = v

abbrev pub non_empty : String → Option String
non_empty v = if is_empty v then none else some v

abbrev pub option_eq : Option String → Option String → Bool
option_eq none none = true
option_eq none (some w) = false
option_eq (some v) none = false
option_eq (some v) (some w) = str_eq v w

abbrev pub with_option : HashMap String → String → Option String → HashMap String
with_option options k none = HashMap.remove options k
with_option options k (some v) = HashMap.insert options k v

abbrev pub server_key : String
server_key = "custom-rendezvous-server"

module _ {File : Type 0} where
  unfoldable pub get_nat_type : State File → ℤ
  get_nat_type self = self.config2.nat_type

  unfoldable pub get_serial : State File → ℤ
  get_serial self =
      if less self.config2.serial serial_const then serial_const else self.config2.serial

  unfoldable pub get_key_confirmed : State File → Bool
  get_key_confirmed self = self.config.key_confirmed

  unfoldable pub get_host_key_confirmed : State File → String → Bool
  get_host_key_confirmed self host = is_true (HashMap.get self.config.keys_confirmed host)

  unfoldable pub get_options : State File → HashMap String
  get_options self = self.config2.options

  unfoldable pub get_option : State File → String → String
  get_option self k = or_empty (HashMap.get self.config2.options k)

  unfoldable pub get_size : State File → Size
  get_size self = self.config2.size

  unfoldable pub get_remote_id : State File → String
  get_remote_id self = self.config2.remote_id

module _ {File : Type 0} (confy : Confy Config File) where
  unfoldable pub set_id : State File → String → State File
  set_id self id =
      if str_eq id self.config.id then self else store confy self (record self.config { id = id })

  unfoldable pub set_key_confirmed : State File → Bool → State File
  set_key_confirmed self v =
      if bool_eq self.config.key_confirmed v
      then self
      else store confy self (record self.config {
        key_confirmed = v;
        keys_confirmed = if not v then [] else self.config.keys_confirmed;
      })

  unfoldable pub set_host_key_confirmed : State File → String → Bool → State File
  set_host_key_confirmed self host v =
      if bool_eq (get_host_key_confirmed self host) v
      then self
      else store confy self
          (record self.config { keys_confirmed = HashMap.insert self.config.keys_confirmed host v })

  unfoldable pub set_key_pair : State File → List ℕ × List ℕ → State File
  set_key_pair self pair = store confy self (record self.config { key_pair = pair })

  unfoldable pub set_password : State File → String → State File
  set_password self password =
      if str_eq password self.config.password
      then self
      else store confy self (record self.config { password = password })

  unfoldable pub set_salt : State File → String → State File
  set_salt self salt =
      if str_eq salt self.config.salt
      then self
      else store confy self (record self.config { salt = salt })

-- The first `if` of `set_option`, which is not followed by a store of its own.
unfoldable pub forget_server : Config2 → String → Config2
forget_server config k =
    if str_eq k server_key then record config { rendezvous_server = "" } else config

module _ {File : Type 0} (confy2 : Confy Config2 File) where
  unfoldable pub set_nat_type : State File → ℤ → State File
  set_nat_type self nat_type =
      if equal nat_type self.config2.nat_type
      then self
      else store2 confy2 self (record self.config2 { nat_type = nat_type })

  unfoldable pub set_serial : State File → ℤ → State File
  set_serial self serial =
      if equal serial self.config2.serial
      then self
      else store2 confy2 self (record self.config2 { serial = serial })

  unfoldable pub set_options : State File → HashMap String → State File
  set_options self v = store2 confy2 self (record self.config2 { options = v })

  unfoldable pub set_option : State File → String → String → State File
  unfolding forget_server
  set_option self k v =
      let config = forget_server self.config2 k in
      let v2 = non_empty v in
      if option_eq v2 (HashMap.get config.options k)
      then record self { config2 = config }
      else store2 confy2 self (record config { options = with_option config.options k v2 })

  unfoldable pub set_size : State File → ℤ → ℤ → ℤ → ℤ → State File
  set_size self x y w h =
      if size_eq (x, y, w, h) self.config2.size || less w (pos 300) || less h (pos 300)
      then self
      else store2 confy2 self (record self.config2 { size = (x, y, w, h) })

  unfoldable pub set_remote_id : State File → String → State File
  set_remote_id self remote_id =
      if str_eq remote_id self.config2.remote_id
      then self
      else store2 confy2 self (record self.config2 { remote_id = remote_id })
