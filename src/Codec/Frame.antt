-- ===== src/Codec/Frame.antt =====
-- What `encode` writes, and that `decode` takes exactly that off a buffer.
use native.Mathlib.Nat.{mod-eq_of_lt}
use rustdesk_server_demo.Prelude.{
  ℕ, suc, ◌+◌, ◌*◌, ◌^◌, ◌≤◌, ◌<◌, ◌≡◌, ◌∙◌, ap, false, some, List, ◌++◌, append_assoc, length,
  length-append, take-length_append, drop-length_append, arith, leb, le→ltb, le→leb, lt→ltb,
  Bool-cases, inl, inr, ◌/◌, ◌%◌, if◌then◌else◌, bit_or, bit_and,
}
use rustdesk_server_demo.Prelude.Bits.{shl, shr, bit_or-disjoint, bit_and-mask}
use rustdesk_server_demo.Prelude.Words.{to_le_bytes, length-to_le_bytes}
use rustdesk_server_demo.Codec.{
  BytesCodec, head, body, Result, ok, err, invalid_data, invalid_input, decode_head, decode_data,
  decode, encode, tagged,
}
use rustdesk_server_demo.Codec.Header.{header, Fits, announced, decode_head-header}

-- The longest data that has a frame.
abbrev pub max_length : ℕ
max_length = 0x3FFFFFFF

-- How many bytes a header for `n` bytes of data has behind its first.
pub extra : ℕ → ℕ
extra n = if leb n 0x3F then 0 else if leb n 0x3FFF then 1 else if leb n 0x3FFFFF then 2 else 3

pub frame : List ℕ → List ℕ
frame xs = header (extra (length xs)) (length xs) ++ xs

pub extra-Fits : (n : ℕ) → n ≤ max_length → Fits (extra n) n
unfolding extra
extra-Fits n h = record { high = ground arith; room = ground arith }

-- The tag bits of the header in the low two bits.
tag : (w n t : ℕ) → t < 4 → 4 * n < 2 ^ w → bit_or (shl w n 2) t ≡ 4 * n + t
tag w n t ht hn =
    let fits : shl w n 2 ≡ n * 2 ^ 2 = mod-eq_of_lt (omega arith) in
    rw fits (omega (arith, bit_or-disjoint 2 n t ht))

-- The three byte header is written as two bytes and one.
three_bytes :
    (w : ℕ) → to_le_bytes 2 (bit_and w 0xFFFF) ++ to_le_bytes 1 (shr w 16) ≡ to_le_bytes 3 w
three_bytes w =
    let low : bit_and w 0xFFFF ≡ w % 2 ^ 16 = bit_and-mask 16 w in
    let first : w % 2 ^ 16 % 256 ≡ w % 256 = omega arith in
    let second : w % 2 ^ 16 / 256 % 256 ≡ w / 256 % 256 = omega arith in
    let third : w / 2 ^ 16 % 256 ≡ w / 256 / 256 % 256 = omega arith in
    rw (low, first, second, third)

-- A frame is one to four bytes longer than its data.
pub length-frame :
    (xs : List ℕ) → (length xs + 1 ≤ length (frame xs)) × (length (frame xs) ≤ length xs + 4)
unfolding frame extra
length-frame xs =
    let j = extra (length xs) in
    let parts : length (frame xs) ≡ suc j + length xs =
      length-append (header j (length xs)) xs
      ∙ ap (λ (t : ℕ). t + length xs) (length-to_le_bytes (suc j) (4 * length xs + j)) in
    let bound : j ≤ 3 = ground arith in rw parts (omega arith, omega arith)

module _ (self : BytesCodec) (xs buf : List ℕ) (framed : self.raw ≡ false) where
  -- `buf`, a header word of `j + 1` bytes and the data, as a result of `encode`.
  put : ℕ → ℕ → Result (Unit {0}) × List ℕ
  put j w = (ok tt, buf ++ to_le_bytes (suc j) w ++ xs)

  put-header :
      (j w : ℕ) → w ≡ 4 * length xs + j → put j w ≡ (ok tt, buf ++ (header j (length xs) ++ xs))
  unfolding put
  put-header j w e =
      ap (λ (l : List ℕ). (ok tt, l))
        (append_assoc buf (to_le_bytes (suc j) w) xs
          ∙ ap (λ (t : ℕ). buf ++ (to_le_bytes (suc j) t ++ xs)) e)

  put_three :
      (w : ℕ)
      → ◌≡◌ {A = Result (Unit {0}) × List ℕ}
          (ok tt, buf ++ to_le_bytes 2 (bit_and w 0xFFFF) ++ to_le_bytes 1 (shr w 16) ++ xs)
          (put 2 w)
  unfolding put
  put_three w =
      ap (λ (l : List ℕ). (ok tt, l ++ xs))
        (append_assoc buf _ _ ∙ ap (λ (l : List ℕ). buf ++ l) (three_bytes w))

  -- `encode` appends the frame of its data.
  pub encode-frame : length xs ≤ max_length → encode self xs buf ≡ (ok tt, buf ++ frame xs)
  unfolding encode frame extra put
  encode-frame h = elim (Bool-cases (leb (length xs) 0x3F)) [
    | inl a ↦ rw (framed, a) (put-header 0 (tagged 8 xs) (ground arith))
    | inr a ↦ elim (Bool-cases (leb (length xs) 0x3FFF)) [
      | inl b ↦
          rw (framed, a, b)
            (put-header 1 (bit_or (tagged 16 xs) 0x1)
              (tag 16 (length xs) 1 (omega arith) (ground arith)))
      | inr b ↦ elim (Bool-cases (leb (length xs) 0x3FFFFF)) [
        | inl c ↦
            rw (framed, a, b, c)
              (put_three (bit_or (tagged 32 xs) 0x2)
                ∙ put-header 2 (bit_or (tagged 32 xs) 0x2)
                    (tag 32 (length xs) 2 (omega arith) (ground arith)))
        | inr c ↦
            rw (framed, a, b, c, le→leb (length xs) max_length h)
              (put-header 3 (bit_or (tagged 32 xs) 0x3)
                (tag 32 (length xs) 3 (omega arith) (ground arith)))
      ]
    ]
  ]

  -- Longer data is refused, and the buffer is left alone.
  pub encode-too_long : max_length < length xs → encode self xs buf ≡ (err invalid_input, buf)
  unfolding encode
  encode-too_long h = ground arith

pub decode_data-all :
    (self : BytesCodec) (xs rest : List ℕ)
    → decode_data self (length xs) (xs ++ rest) ≡ (ok (some xs), rest)
unfolding decode_data
decode_data-all self xs rest = rw (
  le→ltb (length (xs ++ rest)) (length xs) (omega (arith, length-append xs rest)),
  take-length_append,
  drop-length_append,
)

module _ (self : BytesCodec) (xs rest : List ℕ) (framed : self.raw ≡ false)
    (at_head : self.state ≡ head) where
  frame_split : frame xs ++ rest ≡ header (extra (length xs)) (length xs) ++ (xs ++ rest)
  unfolding frame
  frame_split = append_assoc (header (extra (length xs)) (length xs)) xs rest

  head_of_frame :
      length xs ≤ max_length
      → decode_head self (frame xs ++ rest)
        ≡ announced self (length xs) (frame xs ++ rest) (xs ++ rest)
  head_of_frame h = rw frame_split (
      decode_head-header self (length xs) (xs ++ rest) (extra (length xs))
        (extra-Fits (length xs) h))

  -- Of a frame that fits the limit `decode` returns the data and leaves what follows.
  pub decode-frame :
      length xs ≤ max_length
      → length xs ≤ self.max_packet_length
      → decode self (frame xs ++ rest)
        ≡ record { result = ok (some xs); codec = self; buffer = rest }
  unfolding decode
  decode-frame h fits = rw (
    framed,
    at_head,
    head_of_frame h,
    le→ltb self.max_packet_length (length xs) fits,
    decode_data-all (record self { state = body (length xs) }) xs rest,
  )

  -- A longer one is an error, and stays in the buffer.
  pub decode-too_big :
      length xs ≤ max_length
      → self.max_packet_length < length xs
      → decode self (frame xs ++ rest)
        ≡ record { result = err invalid_data; codec = self; buffer = frame xs ++ rest }
  unfolding decode
  decode-too_big h big =
      rw (framed, at_head, head_of_frame h, lt→ltb self.max_packet_length (length xs) big)

-- Behind a header that has been read, `decode` returns the announced bytes.
pub decode-body :
    (self : BytesCodec) (xs rest : List ℕ)
    → self.raw ≡ false
    → self.state ≡ body (length xs)
    → decode self (xs ++ rest)
      ≡ record { result = ok (some xs); codec = record self { state = head }; buffer = rest }
unfolding decode
decode-body self xs rest framed at_body = rw (framed, at_body, decode_data-all self xs rest)
