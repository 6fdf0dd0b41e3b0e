-- ===== src/Codec.antt =====
-- libs/hbb_common/src/bytes_codec.rs: frames of bytes behind a header of one to four bytes.
-- A buffer (`BytesMut`) is a list of numbers below 256, `usize` has 64 bits. Reserving capacity
-- has no effect on contents and is left out.
pub mod Header
pub mod Frame
pub mod Resume
pub mod Stream
pub mod RoundTrip
pub mod Errors
mod Runs
use rustdesk_server_demo.Prelude.{
  ℕ, ◌+◌, ◌-◌, ◌^◌, Bool, true, false, Option, none, some, List, [], ◌∷◌, ◌++◌, ltb, leb,
  if◌then◌else◌, length, get_or, take, drop, bit_and, bit_or,
}
use rustdesk_server_demo.Prelude.Bits.{shl, shr}
use rustdesk_server_demo.Prelude.Words.{to_le_bytes}

-- `Data(n)`: a header that announced `n` bytes has been read.
pub data DecodeState : Type 0 where
  head : DecodeState
  body : ℕ → DecodeState

pub record BytesCodec : Type 0 where
  pub state : DecodeState
  pub raw : Bool
  pub max_packet_length : ℕ

-- The two kinds of `io::Error` that the codec makes.
pub data Error : Type 0 where
  invalid_data invalid_input : Error

pub data Result {ℓ} (A : Type ℓ) : Type ℓ where
  ok : A → Result A
  err : Error → Result A

abbrev pub usize_max : ℕ
usize_max = 2 ^ 64 - 1

unfoldable pub new : BytesCodec
new = record { state = head; raw = false; max_packet_length = usize_max }

unfoldable pub set_raw : BytesCodec → BytesCodec
set_raw self = record self { raw = true }

unfoldable pub set_max_packet_length : BytesCodec → ℕ → BytesCodec
set_max_packet_length self n = record self { max_packet_length = n }

-- `src[i]`; every use stands behind a test of the length.
abbrev pub at : List ℕ → ℕ → ℕ
at src i = get_or src i 0

unfoldable pub head_len_of : List ℕ → ℕ
head_len_of src = bit_and (at src 0) 0x3 + 1

-- The bytes of the header put together, still with the two low bits.
unfoldable pub header_word : ℕ → List ℕ → ℕ
header_word head_len src =
    let n0 = at src 0 in
    let n1 = if ltb 1 head_len then bit_or n0 (shl 64 (at src 1) 8) else n0 in
    let n2 = if ltb 2 head_len then bit_or n1 (shl 64 (at src 2) 16) else n1 in
    if ltb 3 head_len then bit_or n2 (shl 64 (at src 3) 24) else n2

-- The result and what is left of `src`.
unfoldable pub decode_head : BytesCodec → List ℕ → Result (Option ℕ) × List ℕ
decode_head self [] = (ok none, [])
decode_head self (b ∷ bs) =
    let src : List ℕ = b ∷ bs in
    let head_len = head_len_of src in
    if ltb (length src) head_len
    then (ok none, src)
    else (let n = shr (header_word head_len src) 2 in
        if ltb self.max_packet_length n
        then (err invalid_data, src)
        else (ok (some n), drop head_len src))

unfoldable pub decode_data : BytesCodec → ℕ → List ℕ → Result (Option (List ℕ)) × List ℕ
decode_data self n src =
    if ltb (length src) n then (ok none, src) else (ok (some (take n src)), drop n src)

-- What a call of `decode` returns, and the codec and the buffer that it leaves.
pub record Decoded : Type 0 where
  pub result : Result (Option (List ℕ))
  pub codec : BytesCodec
  pub buffer : List ℕ

-- The second `match` of `decode`.
unfoldable pub finish : BytesCodec → Result (Option (List ℕ)) × List ℕ → Decoded
finish self (ok (some data'), src) = record {
  result = ok (some data');
  codec = record self { state = head };
  buffer = src;
}
finish self (ok none, src) = record { result = ok none; codec = self; buffer = src }
finish self (err e, src) = record { result = err e; codec = self; buffer = src }

-- The first `match` of `decode`, on a codec that is at a header, and what follows it.
unfoldable pub after_head : BytesCodec → Result (Option ℕ) × List ℕ → Decoded
unfolding finish decode_data
after_head self (ok (some n), src) =
    let self' = record self { state = body n } in finish self' (decode_data self' n src)
after_head self (ok none, src) = record { result = ok none; codec = self; buffer = src }
after_head self (err e, src) = record { result = err e; codec = self; buffer = src }

unfoldable pub decode_framed : BytesCodec → DecodeState → List ℕ → Decoded
unfolding finish decode_data after_head decode_head
decode_framed self head src = after_head self (decode_head self src)
decode_framed self (body n) src = finish self (decode_data self n src)

unfoldable pub decode_raw : BytesCodec → List ℕ → Decoded
decode_raw self [] = record { result = ok none; codec = self; buffer = [] }
decode_raw self (b ∷ bs) =
    let src : List ℕ = b ∷ bs in
    record {
      result = ok (some (take (length src) src));
      codec = self;
      buffer = drop (length src) src;
    }

unfoldable pub decode : BytesCodec → List ℕ → Decoded
unfolding decode_framed decode_raw
decode self src = if self.raw then decode_raw self src else decode_framed self self.state src

-- `put_u8`, `put_u16_le` and `put_u32_le` behind `buf`.
abbrev pub put_le : ℕ → List ℕ → ℕ → List ℕ
put_le w buf n = buf ++ to_le_bytes w n

-- `data.len() << 2`, cut to `w` bits by the cast.
abbrev pub tagged : ℕ → List ℕ → ℕ
tagged w xs = shl w (length xs) 2

unfoldable pub encode : BytesCodec → List ℕ → List ℕ → Result (Unit {0}) × List ℕ
encode self xs buf =
    if self.raw
    then (ok tt, buf ++ xs)
    else if leb (length xs) 0x3F
    then (ok tt, put_le 1 buf (tagged 8 xs) ++ xs)
    else if leb (length xs) 0x3FFF
    then (ok tt, put_le 2 buf (bit_or (tagged 16 xs) 0x1) ++ xs)
    else if leb (length xs) 0x3FFFFF
    then (let h = bit_or (tagged 32 xs) 0x2 in
        (ok tt, put_le 1 (put_le 2 buf (bit_and h 0xFFFF)) (shr h 16) ++ xs))
    else if leb (length xs) 0x3FFFFFFF
    then (ok tt, put_le 4 buf (bit_or (tagged 32 xs) 0x3) ++ xs)
    else (err invalid_input, buf)
