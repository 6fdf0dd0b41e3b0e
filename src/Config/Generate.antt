-- ===== src/Config/Generate.antt =====
-- The values of `Config` that are made when they are first asked for: id, password, salt and keys. The
-- random numbers, the MAC address and the new keys are arguments.
use rustdesk_server_demo.Prelude.{
  ℕ, zero, suc, ◌+◌, ◌%◌, Bool, true, false, Option, none, some, String, List, [], ◌∷◌, bit_and,
  bit_or, drop, if◌then◌else◌,
}
use rustdesk_server_demo.Prelude.Bits.{shl}
use rustdesk_server_demo.Prelude.Strings.{is_empty, nth, push_front, to_string}
use rustdesk_server_demo.Config.{Config, Confy, State, store}
use rustdesk_server_demo.Config.Setters.{set_id, set_password, set_salt}

-- `CHARS`: no 0, 1, l or o.
abbrev pub chars : String
chars = "23456789abcdefghijkmnpqrstuvwxyz"

abbrev pub chars_len : ℕ
chars_len = 32

-- The characters for the `n` draws from the `i`-th on.
unfoldable pub draw_chars : (ℕ → ℕ) → ℕ → ℕ → String
draw_chars draw i zero = ""
draw_chars draw i (suc n) = push_front (nth chars (draw i % chars_len)) (draw_chars draw (i + 1) n)

unfoldable pub get_auto_password : (ℕ → ℕ) → String
unfolding draw_chars
get_auto_password draw = draw_chars draw 0 6

-- The `for` over the bytes of the address, on the u32 `id`.
unfoldable pub mac_id : ℕ → List ℕ → ℕ
mac_id id [] = id
mac_id id (x ∷ xs) = mac_id (bit_or (shl 32 id 8) x) xs

unfoldable pub auto_number : List ℕ → ℕ
unfolding mac_id
auto_number bytes = bit_and (mac_id 0 (drop 2 bytes)) 0x1FFFFFFF

-- On a desktop; the argument is the MAC address, `none` when there is none.
unfoldable pub get_auto_id : Option (List ℕ) → Option String
unfolding auto_number
get_auto_id none = none
get_auto_id (some bytes) = some (to_string (auto_number bytes))

abbrev pub key_missing : List ℕ × List ℕ → Bool
key_missing ([], pk) = true
key_missing (_ ∷ _, pk) = false

module _ {File : Type 0} (confy : Confy Config File) where
  -- `pk` and `sk` are what `gen_keypair` gives if it is called.
  unfoldable pub get_key_pair : State File → List ℕ × List ℕ → (List ℕ × List ℕ) × State File
  get_key_pair self (pk, sk) =
      if key_missing self.config.key_pair
      then ((sk, pk), store confy self (record self.config { key_pair = (sk, pk) }))
      else (self.config.key_pair, self)

  abbrev pub set_auto_id : State File → Option String → String × State File
  set_auto_id self none = ("", self)
  set_auto_id self (some tmp) = (tmp, set_id confy self tmp)

  unfoldable pub get_id : State File → Option (List ℕ) → String × State File
  unfolding get_auto_id
  get_id self mac =
      if is_empty self.config.id then set_auto_id self (get_auto_id mac) else (self.config.id, self)

  -- `new` is the draw from `gen_range(1_000_000_000, 2_000_000_000)`.
  unfoldable pub update_id : State File → Option (List ℕ) → ℕ → State File
  unfolding get_id
  update_id self mac new = set_id confy (get_id self mac).1 (to_string new)

  unfoldable pub get_password : State File → (ℕ → ℕ) → String × State File
  get_password self draw =
      if is_empty self.config.password
      then (get_auto_password draw, set_password confy self (get_auto_password draw))
      else (self.config.password, self)

  unfoldable pub get_salt : State File → (ℕ → ℕ) → String × State File
  get_salt self draw =
      if is_empty self.config.salt
      then (get_auto_password draw, set_salt confy self (get_auto_password draw))
      else (self.config.salt, self)
