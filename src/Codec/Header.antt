-- ===== src/Codec/Header.antt =====
-- The header as arithmetic: the word whose two low bits count the bytes behind the first, and
-- whose other bits are the length of the data, lowest byte first.
use rustdesk_server_demo.Prelude.{
  ℕ, suc, ◌+◌, ◌*◌, ◌%◌, ◌^◌, ◌≤◌, ◌<◌, ◌≡◌, ◌∙◌, refl, ap, zero, Option, some, List, [], ◌∷◌, ◌++◌,
  length, drop, bit_and, bit_or, arith, ltb, le→ltb, length-append, if◌then◌else◌,
}
use native.Mathlib.Nat.{mod-eq_of_lt}
use rustdesk_server_demo.Prelude.Bits.{shl, shr, bit_or-disjoint_left, bit_and-mask}
use rustdesk_server_demo.Prelude.Words.{to_le_bytes, length-to_le_bytes}
use rustdesk_server_demo.Codec.{
  BytesCodec, Result, ok, err, invalid_data, head_len_of, header_word, decode_head,
}

low_two_bits : (a : ℕ) → bit_and a 0x3 ≡ a % 4
low_two_bits a = bit_and-mask 2 a

pub head_len-bounds : (src : List ℕ) → (1 ≤ head_len_of src) × (head_len_of src ≤ 4)
unfolding head_len_of
head_len-bounds [] = omega (arith, low_two_bits 0)
head_len-bounds (b ∷ bs) = omega (arith, low_two_bits b)

-- One more byte above the first `k` bits.
or_byte : (k a b : ℕ) → a < 2 ^ k → b * 2 ^ k < 2 ^ 64 → bit_or a (shl 64 b k) ≡ a + b * 2 ^ k
or_byte k a b ha hb =
    let fits : shl 64 b k ≡ b * 2 ^ k = mod-eq_of_lt hb in
    rw fits (omega (arith, bit_or-disjoint_left k b a ha))

header_word_one : (b : ℕ) (rest : List ℕ) → header_word 1 (b ∷ rest) ≡ b
unfolding header_word
header_word_one b rest = refl

header_word_two :
    (b c : ℕ) (rest : List ℕ) → b < 256 → c < 256 → header_word 2 (b ∷ c ∷ rest) ≡ b + 256 * c
unfolding header_word
header_word_two b c rest hb hc = omega (arith, or_byte 8 b c hb (omega arith))

header_word_three :
    (b c d : ℕ) (rest : List ℕ)
    → b < 256
    → c < 256
    → d < 256
    → header_word 3 (b ∷ c ∷ d ∷ rest) ≡ b + 256 * (c + 256 * d)
unfolding header_word
header_word_three b c d rest hb hc hd =
    rw (or_byte 8 b c hb (omega arith))
      (omega (arith, or_byte 16 (b + c * 2 ^ 8) d (omega arith) (omega arith)))

header_word_four :
    (b c d e : ℕ) (rest : List ℕ)
    → b < 256
    → c < 256
    → d < 256
    → e < 256
    → header_word 4 (b ∷ c ∷ d ∷ e ∷ rest) ≡ b + 256 * (c + 256 * (d + 256 * e))
unfolding header_word
header_word_four b c d e rest hb hc hd he =
    rw (or_byte 8 b c hb (omega arith), or_byte 16 (b + c * 2 ^ 8) d (omega arith) (omega arith))
      (omega (arith, or_byte 24 (b + c * 2 ^ 8 + d * 2 ^ 16) e (omega arith) (omega arith)))

-- A header of `j + 1` bytes for `n` bytes of data.
abbrev pub header : ℕ → ℕ → List ℕ
header j n = to_le_bytes (suc j) (4 * n + j)

-- The header has at most four bytes, and they hold the length.
pub record Fits (j n : ℕ) : Type 0 where
  pub high : j ≤ 3
  pub room : 4 * n + j < 256 ^ suc j

head_len-header : (j n : ℕ) (rest : List ℕ) → j ≤ 3 → head_len_of (header j n ++ rest) ≡ suc j
unfolding head_len_of
head_len-header j n rest h = omega (arith, low_two_bits ((4 * n + j) % 256))

-- What `decode_head` makes of a length `n` in front of `rest`, when the buffer was `src`: a length
-- above the limit is refused before anything is taken.
abbrev pub announced : BytesCodec → ℕ → List ℕ → List ℕ → Result (Option ℕ) × List ℕ
announced self n src rest =
    if ltb self.max_packet_length n then (err invalid_data, src) else (ok (some n), rest)

pub decode_head_complete :
    (self : BytesCodec) (src : List ℕ) (k n : ℕ)
    → head_len_of src ≡ k
    → k ≤ length src
    → shr (header_word k src) 2 ≡ n
    → decode_head self src ≡ announced self n src (drop k src)
unfolding decode_head
decode_head_complete self [] k n e h w = absurd (omega (arith, head_len-bounds []))
decode_head_complete self (b ∷ bs) k n e h w = rw (e, le→ltb (suc (length bs)) k h, w)

-- The codec reads back the length that a header holds.
module _ (self : BytesCodec) (n : ℕ) (rest : List ℕ) where
  abbrev Reads : ℕ → Type 0
  Reads j = decode_head self (header j n ++ rest) ≡ announced self n (header j n ++ rest) rest

  header_word-Reads :
      (j : ℕ)
      → j ≤ 3
      → header_word (suc j) (header j n ++ rest) ≡ 4 * n + j
      → drop (suc j) (header j n ++ rest) ≡ rest
      → Reads j
  header_word-Reads j h w d =
      let src = header j n ++ rest in
      let long : length src ≡ suc j + length rest =
        length-append (header j n) rest
        ∙ ap (λ (t : ℕ). t + length rest) (length-to_le_bytes (suc j) (4 * n + j)) in
      decode_head_complete self src (suc j) n (head_len-header j n rest h) (omega arith)
        (rw w (omega arith))
      ∙ rw d

  pub decode_head-header : (j : ℕ) → Fits j n → Reads j
  decode_head-header zero f = header_word-Reads 0 f.high (header_word_one _ rest ∙ omega arith) refl
  decode_head-header (suc zero) f =
      header_word-Reads 1 f.high
        (header_word_two _ _ rest (omega arith) (omega arith) ∙ omega arith) refl
  decode_head-header (suc (suc zero)) f =
      header_word-Reads 2 f.high
        (header_word_three _ _ _ rest (omega arith) (omega arith) (omega arith) ∙ omega arith) refl
  decode_head-header (suc (suc (suc zero))) f =
      header_word-Reads 3 f.high
        (header_word_four _ _ _ _ rest (omega arith) (omega arith) (omega arith) (omega arith)
          ∙ omega arith)
        refl
  decode_head-header (suc (suc (suc (suc j)))) f = absurd (omega arith)
