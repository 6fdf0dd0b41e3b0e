-- ===== src/Config/Stable.antt =====
-- The generated values: made once, and of the form that the code means.
use rustdesk_server_demo.Prelude.{
  ℕ, ◌+◌, ◌*◌, ◌%◌, ◌^◌, ◌<◌, ◌≡◌, refl, ap, ◌∙◌, Bool, true, false, Option, some, String, List, [],
  ◌∷◌, eq_iff, bit_or, arith,
}
use rustdesk_server_demo.Prelude.Bits.{shl, bit_or-disjoint, bit_and-mask}
use rustdesk_server_demo.Prelude.Words.{IsByte}
use rustdesk_server_demo.Prelude.Strings.{is_empty, to_string, is_empty-to_string}
use rustdesk_server_demo.Config.{Config, Confy, State, store}
use rustdesk_server_demo.Config.Setters.{set_id, set_password, set_salt}
use rustdesk_server_demo.Config.Generate.{
  draw_chars, get_auto_password, mac_id, auto_number, get_auto_id, key_missing, get_key_pair,
  get_id, get_password, get_salt,
}

pub is_empty-get_auto_password : (draw : ℕ → ℕ) → is_empty (get_auto_password draw) ≡ false
unfolding is_empty get_auto_password draw_chars
is_empty-get_auto_password draw = refl

module _ {File : Type 0} (confy : Confy Config File) where
  id-set_id : (s : State File) (v : String) → (set_id confy s v).config.id ≡ v
  unfolding set_id store
  id-set_id s v = ground (arith, eq_iff v s.config.id)

  pub password-set_password :
      (s : State File) (v : String) → (set_password confy s v).config.password ≡ v
  unfolding set_password store
  password-set_password s v = ground (arith, eq_iff v s.config.password)

  salt-set_salt : (s : State File) (v : String) → (set_salt confy s v).config.salt ≡ v
  unfolding set_salt store
  salt-set_salt s v = ground (arith, eq_iff v s.config.salt)

  password_kept :
      (s : State File) (draw draw' : ℕ → ℕ) (b : Bool)
      → is_empty s.config.password ≡ b
      → get_password confy (get_password confy s draw).1 draw' ≡ get_password confy s draw
  unfolding get_password
  password_kept s draw draw' true h = rw h (
      rw (password-set_password s (get_auto_password draw))
        (rw (is_empty-get_auto_password draw) refl))
  password_kept s draw draw' false h = rw h (rw h refl)

  salt_kept :
      (s : State File) (draw draw' : ℕ → ℕ) (b : Bool)
      → is_empty s.config.salt ≡ b
      → get_salt confy (get_salt confy s draw).1 draw' ≡ get_salt confy s draw
  unfolding get_salt
  salt_kept s draw draw' true h =
      rw h
        (rw (salt-set_salt s (get_auto_password draw)) (rw (is_empty-get_auto_password draw) refl))
  salt_kept s draw draw' false h = rw h (rw h refl)

  id_kept :
      (s : State File) (bytes : List ℕ) (mac : Option (List ℕ)) (b : Bool)
      → is_empty s.config.id ≡ b
      → get_id confy (get_id confy s (some bytes)).1 mac ≡ get_id confy s (some bytes)
  unfolding get_id get_auto_id
  id_kept s bytes mac true h = rw h (
      rw (id-set_id s (to_string (auto_number bytes)))
        (rw (is_empty-to_string (auto_number bytes)) refl))
  id_kept s bytes mac false h = rw h (rw h refl)

  key_pair_kept :
      (s : State File) (sk pk : List ℕ) (pair : List ℕ × List ℕ) (b : Bool)
      → key_missing (sk, pk) ≡ false
      → key_missing s.config.key_pair ≡ b
      → get_key_pair confy (get_key_pair confy s (pk, sk)).1 pair ≡ get_key_pair confy s (pk, sk)
  unfolding get_key_pair store
  key_pair_kept s sk pk pair true made h = rw h (rw made refl)
  key_pair_kept s sk pk pair false made h = rw h (rw h refl)

  -- The id (on a machine with a MAC address), the password, the salt and the key pair (where a new secret
  -- key is not empty) are made at most once: a second call of each getter, whatever numbers, address
  -- and keys it would draw, gives the first call's value and changes nothing.
  pub generated_once :
      (s : State File) (bytes sk pk : List ℕ) (draw draw' : ℕ → ℕ) (mac : Option (List ℕ))
      → (pair : List ℕ × List ℕ) → key_missing (sk, pk) ≡ false
      → (get_id confy (get_id confy s (some bytes)).1 mac ≡ get_id confy s (some bytes))
        × (get_password confy (get_password confy s draw).1 draw' ≡ get_password confy s draw)
        × (get_salt confy (get_salt confy s draw).1 draw' ≡ get_salt confy s draw)
        × (get_key_pair confy (get_key_pair confy s (pk, sk)).1 pair
            ≡ get_key_pair confy s (pk, sk))
  generated_once s bytes sk pk draw draw' mac pair made = (
    id_kept s bytes mac _ refl,
    password_kept s draw draw' _ refl,
    salt_kept s draw draw' _ refl,
    key_pair_kept s sk pk pair _ made refl,
  )

-- One byte of the address: the u32 is shifted by 8 bits and takes the byte below.
mac_step : (x y : ℕ) → x < 2 ^ 24 → IsByte y → bit_or (shl 32 x 8) y ≡ x * 256 + y
mac_step x y small byte = ap (λ t. bit_or t y) (omega arith) ∙ bit_or-disjoint 8 x y (omega arith)

-- The id of a machine is the last four bytes of its six-byte MAC address, the highest first, modulo
-- 2^29, in decimal.
pub get_auto_id_lem :
    (a b c d e f : ℕ)
    → IsByte c × IsByte d × IsByte e × IsByte f
    → get_auto_id (some (a ∷ b ∷ c ∷ d ∷ e ∷ f ∷ []))
      ≡ some (to_string ((((c * 256 + d) * 256 + e) * 256 + f) % 2 ^ 29))
unfolding get_auto_id auto_number mac_id
get_auto_id_lem a b c d e f (hc, hd, he, hf) = rw (mac_step 0 c (omega arith) hc) (
    rw (mac_step (0 * 256 + c) d (omega arith) hd) (
      rw (mac_step ((0 * 256 + c) * 256 + d) e (omega arith) he) (
        rw (mac_step (((0 * 256 + c) * 256 + d) * 256 + e) f (omega arith) hf)
          (ap (λ n. some (to_string n)) (bit_and-mask 29 _ ∙ omega arith)))))
