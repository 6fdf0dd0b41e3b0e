-- ===== src/AddrMangle/RoundTrip.antt =====
-- The mangled number as a sum of fields, and the round trip of an address.
use mathlib.Core.Bool.{Bool}
use native.Mathlib.Nat.{mod-eq_of_lt}
use rustdesk_server_demo.Prelude.{
  ℕ, ◌+◌, ◌-◌, ◌*◌, ◌/◌, ◌%◌, ◌^◌, ◌≤◌, ◌<◌, ◌≡◌, ◌∙◌, refl, ap, some, List, length, All, arith,
  bit_and, bit_or, le→ltb,
}
use rustdesk_server_demo.Prelude.Bits.{shl, shr, bit_or-disjoint, bit_and-mask}
use rustdesk_server_demo.Prelude.Words.{IsByte}
use rustdesk_server_demo.AddrMangle.{SocketAddr, v4, done, mangled, strip, encode, sub_u128, decode}
use rustdesk_server_demo.Prelude.Endian.{
  Endian, to_ne_bytes, from_ne_bytes, from-to_ne_bytes, length-to_ne_bytes, to-from_ne_bytes,
  from_ne_bytes-lt,
}
use rustdesk_server_demo.AddrMangle.Bytes.{length-strip, pad-strip}

-- An IPv4 address has four octets, and a port 16 bits.
abbrev pub IsAddr : SocketAddr → Type 0
IsAddr (v4 octets port) = (length octets ≡ 4) × All IsByte octets × (port < 2 ^ 16)
IsAddr _ = ⊥

module _ (tm ip port : ℕ) (small_tm : tm < 2 ^ 32) (small_ip : ip < 2 ^ 32)
    (small_port : port < 2 ^ 16) where
  mangled_fields : mangled tm ip port ≡ (ip + tm) * 2 ^ 49 + tm * 2 ^ 17 + (port + tm % 2 ^ 16)
  unfolding mangled
  mangled_fields =
      let mask : bit_and tm 0xFFFF ≡ tm % 2 ^ 16 = bit_and-mask 16 tm in
      let high : shl 128 (ip + tm) 49 ≡ (ip + tm) * 2 ^ 49 = mod-eq_of_lt (omega arith) in
      let mid : shl 128 tm 17 ≡ tm * 2 ^ 17 = mod-eq_of_lt (omega arith) in
      let upper : bit_or ((ip + tm) * 2 ^ 49) (tm * 2 ^ 17) ≡ ((ip + tm) * 2 ^ 32 + tm) * 2 ^ 17 =
        bit_or-disjoint 49 (ip + tm) (tm * 2 ^ 17) (omega arith) ∙ omega arith in
      rw (mask, high, mid, upper)
        (bit_or-disjoint 17 ((ip + tm) * 2 ^ 32 + tm) (port + tm % 2 ^ 16) (omega arith)
          ∙ omega arith)

  mangled-lt : mangled tm ip port < 2 ^ 82
  mangled-lt = rw mangled_fields (omega arith)

  -- The fields that `decode` cuts out of the number.
  time_field : bit_and (shr (mangled tm ip port) 17) (2 ^ 32 - 1) ≡ tm
  time_field =
      rw
        (
          mangled_fields,
          bit_and-mask 32 (((ip + tm) * 2 ^ 49 + tm * 2 ^ 17 + (port + tm % 2 ^ 16)) / 2 ^ 17),
        )
        (omega arith)

  ip_field : (checked : Bool) → sub_u128 checked (shr (mangled tm ip port) 49) tm ≡ done ip
  unfolding sub_u128
  ip_field checked =
      let top : shr (mangled tm ip port) 49 ≡ ip + tm = rw mangled_fields (omega arith) in
      let back : ip + tm - tm ≡ ip = omega arith in
      rw (top, le→ltb (ip + tm) tm (omega arith), back)

  -- The mask takes 24 bits, seven more than the field has; the cast to 16 bits drops them.
  port_field :
      (checked : Bool)
      → (wide : ℕ) × (sub_u128 checked (bit_and (mangled tm ip port) 0xFFFFFF) (bit_and tm 0xFFFF)
          ≡ done wide)
        × (wide % 2 ^ 16 ≡ port)
  unfolding sub_u128
  port_field checked =
      let mask : bit_and tm 0xFFFF ≡ tm % 2 ^ 16 = bit_and-mask 16 tm in
      let low : bit_and (mangled tm ip port) 0xFFFFFF ≡ tm % 2 ^ 7 * 2 ^ 17 + (port + tm % 2 ^ 16) =
        bit_and-mask 24 (mangled tm ip port) ∙ rw mangled_fields (omega arith) in
      (
        tm % 2 ^ 7 * 2 ^ 17 + port,
        rw
            (
              mask,
              low,
              le→ltb (tm % 2 ^ 7 * 2 ^ 17 + (port + tm % 2 ^ 16)) (tm % 2 ^ 16) (omega arith),
            )
            (ap done (omega arith)),
        omega arith,
      )

  decode-mangled :
      (e : Endian) (checked : Bool)
      → decode e checked (strip (to_ne_bytes e 16 (mangled tm ip port)))
        ≡ done (v4 (to_ne_bytes e 4 (ip % 2 ^ 32)) port)
  unfolding decode
  decode-mangled e checked =
      let bytes = to_ne_bytes e 16 (mangled tm ip port) in
      let number = from-to_ne_bytes e 16 (mangled tm ip port) (omega (arith, mangled-lt)) in
      let (wide, subtracted, cut) = port_field checked in
      rw (
        pad-strip bytes (length-to_ne_bytes e 16 _),
        number,
        time_field,
        ip_field checked,
        subtracted,
        cut,
      )

-- On either byte order, in checked and unchecked builds and at every time: what `encode` makes of an
-- IPv4 address is at most sixteen bytes, and `decode` gives the address and the port back.
pub decode-encode_addr :
    (e : Endian) (checked : Bool) (micros : ℕ) (octets : List ℕ) (port : ℕ)
    → IsAddr (v4 octets port)
    → (bytes : List ℕ) × (encode e (some micros) (v4 octets port) ≡ done bytes)
      × (length bytes ≤ 16)
      × (decode e checked bytes ≡ done (v4 octets port))
unfolding encode
decode-encode_addr e checked micros octets port (four, octets_IsByte, small_port) =
    let tm = micros % 2 ^ 32 in
    let ip = from_ne_bytes e octets in
    let small_ip : ip < 2 ^ 32 = rw four at (from_ne_bytes-lt e octets octets_IsByte) in
    let whole : ip % 2 ^ 32 ≡ ip = mod-eq_of_lt small_ip in
    let back : to_ne_bytes e 4 ip ≡ octets = rw four at (to-from_ne_bytes e octets octets_IsByte) in
    (
      strip (to_ne_bytes e 16 (mangled tm ip port)),
      refl,
      length-strip _ (length-to_ne_bytes e 16 _),
      decode-mangled tm ip port (omega arith) small_ip small_port e checked ∙ rw (whole, back),
    )
