-- ===== src/AddrMangle/Panics.antt =====
-- When `decode` panics: on too many bytes, and in checked builds on fields that do not fit together.
use mathlib.Core.Path.{subst}
use rustdesk_server_demo.Prelude.{
  ℕ, ◌+◌, ◌-◌, ◌/◌, ◌%◌, ◌^◌, ◌≤◌, ◌<◌, ◌≡◌, ◌∙◌, ◌↔◌, ◌⊎◌, inl, inr, refl, true, false, List, ◌++◌,
  replicate, length, arith, ltb, le→ltb, lt→ltb, Bool, Bool-cases, ltb→lt,
}
use rustdesk_server_demo.Prelude.Bits.{bit_and-mask}
use rustdesk_server_demo.AddrMangle.{
  SocketAddr, v4, Outcome, done, panics, ◌>>=◌, sub_u128, pad, decode,
}
use rustdesk_server_demo.Prelude.Endian.{
  Endian, to_ne_bytes, from_ne_bytes, length-to_ne_bytes, to_ne_bytes-IsByte,
}
use rustdesk_server_demo.AddrMangle.RoundTrip.{IsAddr}

-- The number that at most sixteen bytes stand for, and the time that it holds.
pub number_of : Endian → List ℕ → ℕ
number_of e bytes = from_ne_bytes e (bytes ++ replicate (16 - length bytes) 0)

pub time_of : ℕ → ℕ
time_of number = number / 2 ^ 17 % 2 ^ 32

-- `decode` behind its padding.
fields : Endian → Bool → ℕ → Outcome SocketAddr
fields e checked number = do
  ip ← sub_u128 checked (number / 2 ^ 49) (time_of number)
  port ← sub_u128 checked (number % 2 ^ 24) (time_of number % 2 ^ 16)
  done (v4 (to_ne_bytes e 4 (ip % 2 ^ 32)) (port % 2 ^ 16))

decode-fields :
    (e : Endian) (checked : Bool) (bytes : List ℕ)
    → length bytes ≤ 16
    → decode e checked bytes ≡ fields e checked (number_of e bytes)
unfolding decode pad number_of fields time_of
decode-fields e checked bytes h =
    let n = from_ne_bytes e (bytes ++ replicate (16 - length bytes) 0) in
    let tm = bit_and-mask 32 (n / 2 ^ 17) in
    rw (le→ltb 16 (length bytes) h, tm, bit_and-mask 24 n, bit_and-mask 16 (n / 2 ^ 17 % 2 ^ 32))
      refl

decode-too_long :
    (e : Endian) (checked : Bool) (bytes : List ℕ)
    → 16 < length bytes
    → decode e checked bytes ≡ panics
unfolding decode pad
decode-too_long e checked bytes h = rw (lt→ltb 16 (length bytes) h)

-- A checked build panics exactly on more than sixteen bytes, and where the address or the port field
-- is smaller than what the time says was added to it. No error is returned to the caller.
pub decode_checked :
    (e : Endian) (bytes : List ℕ)
    → (decode e true bytes ≡ panics) ↔ (
        (16 < length bytes)
        ⊎ (number_of e bytes / 2 ^ 49 < time_of (number_of e bytes))
        ⊎ (number_of e bytes % 2 ^ 24 < time_of (number_of e bytes) % 2 ^ 16))
unfolding fields sub_u128
decode_checked e bytes = elim (Bool-cases (ltb 16 (length bytes))) [
  | inl long ↦ (
    λ _. inl (ltb→lt 16 (length bytes) long),
    λ _. decode-too_long e true bytes (ltb→lt 16 (length bytes) long),
  )
  | inr short ↦
      rw (decode-fields e true bytes (ground arith)) (λ h. ground arith, λ h. ground arith)
]

sub_wraps : (a b : ℕ) → (c : ℕ) × (sub_u128 false a b ≡ done c)
unfolding sub_u128
sub_wraps a b = elim (Bool-cases (ltb a b)) [
  | inl less ↦ (a + 2 ^ 128 - b, rw less)
  | inr more ↦ (a - b, rw more)
]

fields-IsAddr :
    (e : Endian) (number : ℕ)
    → (addr : SocketAddr) × (fields e false number ≡ done addr) × IsAddr addr
unfolding fields
fields-IsAddr e number =
    let (ip, ip_of) = sub_wraps (number / 2 ^ 49) (time_of number) in
    let (port, port_of) = sub_wraps (number % 2 ^ 24) (time_of number % 2 ^ 16) in
    (
      v4 (to_ne_bytes e 4 (ip % 2 ^ 32)) (port % 2 ^ 16),
      rw (ip_of, port_of),
      (length-to_ne_bytes e 4 _, to_ne_bytes-IsByte e 4 _, omega arith),
    )

-- An unchecked build panics exactly on more than sixteen bytes, and what it returns otherwise is a
-- well-formed IPv4 address.
pub decode_unchecked :
    (e : Endian) (bytes : List ℕ)
    → ((decode e false bytes ≡ panics) ↔ (16 < length bytes))
      × ((addr : SocketAddr) → decode e false bytes ≡ done addr → IsAddr addr)
decode_unchecked e bytes = elim (Bool-cases (ltb 16 (length bytes))) [
  | inl long ↦
      let h = ltb→lt 16 (length bytes) long in
      let stops = decode-too_long e false bytes h in ((λ _. h, λ _. stops), λ addr q. cc)
  | inr short ↦
      let (addr, returned, valid) = fields-IsAddr e (number_of e bytes) in
      let result = decode-fields e false bytes (ground arith) ∙ returned in
      (
        (λ q. cc, λ q. absurd (ground arith)),
        λ other q. let same : addr ≡ other = cc in subst IsAddr same valid,
      )
]
