-- ===== src/AddrMangle/Runs.antt =====
-- The test of `AddrMangle`, and the theorems at concrete inputs.
use rustdesk_server_demo.Prelude.{
  ℕ, ◌/◌, ◌%◌, ◌^◌, ◌≤◌, ◌<◌, ◌≡◌, ◌↔◌, ◌⊎◌, refl, true, some, List, [], ◌∷◌, length, arith,
}
use rustdesk_server_demo.Prelude.Endian.{little, big}
use rustdesk_server_demo.AddrMangle.{v4, done, panics, encode, decode}
use rustdesk_server_demo.AddrMangle.RoundTrip.{decode-encode_addr}
use rustdesk_server_demo.AddrMangle.Panics.{number_of, time_of, decode_checked}

abbrev octets : List ℕ
octets = 192 ∷ 168 ∷ 16 ∷ 32 ∷ []

decode-encode_addr_example :
    (bytes : List ℕ) × (encode big (some 1_600_000_000_000_000) (v4 octets 21116) ≡ done bytes)
    × (length bytes ≤ 16)
    × (decode big true bytes ≡ done (v4 octets 21116))
decode-encode_addr_example =
    decode-encode_addr big true 1_600_000_000_000_000 octets 21116 (omega arith)

decode_checked_example : (decode little true (0 ∷ 0 ∷ 2 ∷ []) ≡ panics) ↔ (
    (16 < 3)
    ⊎ (number_of little (0 ∷ 0 ∷ 2 ∷ []) / 2 ^ 49 < time_of (number_of little (0 ∷ 0 ∷ 2 ∷ [])))
    ⊎ (number_of little (0 ∷ 0 ∷ 2 ∷ []) % 2 ^ 24
        < time_of (number_of little (0 ∷ 0 ∷ 2 ∷ [])) % 2 ^ 16))
decode_checked_example = decode_checked little (0 ∷ 0 ∷ 2 ∷ [])

-- Three bytes that no `encode` writes stop a checked build.
malformed : decode little true (0 ∷ 0 ∷ 2 ∷ []) ≡ panics
unfolding decode
malformed = refl
