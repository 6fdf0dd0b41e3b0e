-- ===== src/AddrMangle.antt =====
-- `AddrMangle` of libs/hbb_common/src/lib.rs: an IPv4 address and port, mangled with the time.
-- The clock is an argument, `none` when it stands before 1970; the byte order of the machine and
-- whether the build checks for overflow are arguments too.
pub mod Bytes
pub mod RoundTrip
pub mod Panics
mod Runs
use mathlib.Core.List.{reverse}
use rustdesk_server_demo.Prelude.{
  ℕ, suc, ◌+◌, ◌-◌, ◌^◌, ◌%◌, Bool, true, false, Option, none, some, List, [], ◌∷◌, ◌++◌, ltb, ◌==◌,
  if◌then◌else◌, length, take, replicate, bit_and, bit_or,
}
use rustdesk_server_demo.Prelude.Bits.{shl, shr}
use rustdesk_server_demo.Prelude.Endian.{Endian, to_ne_bytes, from_ne_bytes}

-- The octets of the address, and the port.
pub data SocketAddr : Type 0 where
  v4 v6 : List ℕ → ℕ → SocketAddr

pub data Outcome {ℓ} (A : Type ℓ) : Type ℓ where
  done : A → Outcome A
  panics : Outcome A

infixl 5 ◌>>=◌
abbrev pub ◌>>=◌ {ℓ κ} : {A : Type ℓ} {B : Type κ} → Outcome A → (A → Outcome B) → Outcome B
done a >>= f = f a
panics >>= f = panics

-- The `for` over the reversed bytes, up to its `break`.
unfoldable pub count_padding : List ℕ → ℕ
count_padding [] = 0
count_padding (i ∷ rest) = if i == 0 then suc (count_padding rest) else 0

-- The number that is written, from the time's low 32 bits.
unfoldable pub mangled : ℕ → ℕ → ℕ → ℕ
mangled tm ip port =
    bit_or (bit_or (shl 128 (ip + tm) 49) (shl 128 tm 17)) (port + bit_and tm 0xFFFF)

unfoldable pub strip : List ℕ → List ℕ
unfolding count_padding
strip bytes = take (16 - count_padding (reverse bytes)) bytes

unfoldable pub encode : Endian → Option ℕ → SocketAddr → Outcome (List ℕ)
unfolding to_ne_bytes from_ne_bytes mangled strip
encode e now (v6 ip port) = panics
encode e none (v4 ip port) = panics
encode e (some micros) (v4 octets port) =
    let tm = micros % 2 ^ 32 in
    done (strip (to_ne_bytes e 16 (mangled tm (from_ne_bytes e octets) port)))

-- `a - b` on u128: checked builds panic where it is negative, others wrap.
unfoldable pub sub_u128 : Bool → ℕ → ℕ → Outcome ℕ
sub_u128 checked a b =
    if ltb a b then (if checked then panics else done (a + 2 ^ 128 - b)) else done (a - b)

unfoldable pub pad : List ℕ → Outcome (List ℕ)
pad bytes =
    if ltb 16 (length bytes) then panics else done (bytes ++ replicate (16 - length bytes) 0)

unfoldable pub decode : Endian → Bool → List ℕ → Outcome SocketAddr
unfolding to_ne_bytes from_ne_bytes sub_u128 pad
decode e checked bytes = do
  padded ← pad bytes
  let number = from_ne_bytes e padded
  let tm = bit_and (shr number 17) (2 ^ 32 - 1)
  ip ← sub_u128 checked (shr number 49) tm
  port ← sub_u128 checked (bit_and number 0xFFFFFF) (bit_and tm 0xFFFF)
  done (v4 (to_ne_bytes e 4 (ip % 2 ^ 32)) (port % 2 ^ 16))
