-- ===== src/Codec/Resume.antt =====
-- `decode` on a buffer that arrives in pieces.
use rustdesk_server_demo.Prelude.{
  ℕ, ◌≤◌, ◌≡◌, ◌∙◌, refl, sym, false, inl, inr, none, some, List, [], ◌∷◌, ◌++◌, length, drop,
  length-append, take-append, drop-append, get_or-append, arith, ltb, le→ltb, Bool-cases,
}
use rustdesk_server_demo.Prelude.Bits.{shr}
use rustdesk_server_demo.Codec.{
  BytesCodec, DecodeState, head, body, ok, err, Decoded, head_len_of, header_word, decode_head,
  decode_data, finish, after_head, decode,
}
use rustdesk_server_demo.Codec.Header.{announced, decode_head_complete, head_len-bounds}

head_len-append : (b : ℕ) (bs more : List ℕ) → head_len_of ((b ∷ bs) ++ more) ≡ head_len_of (b ∷ bs)
unfolding head_len_of
head_len-append b bs more = refl

header_word-append :
    (k : ℕ) (src more : List ℕ)
    → 1 ≤ k
    → k ≤ length src
    → header_word k (src ++ more) ≡ header_word k src
unfolding header_word
header_word-append k src more low h = ground (
  arith,
  get_or-append src more 0 0,
  get_or-append src more 1 0,
  get_or-append src more 2 0,
  get_or-append src more 3 0,
)

-- What a decoder that has more bytes to come goes on with: a wait is a call on the longer buffer,
-- anything else stands.
abbrev pub resume : Decoded → List ℕ → Decoded
resume d more = elim d.result [
  | ok o ↦ elim o [
    | none ↦ decode d.codec (d.buffer ++ more)
    | some xs ↦ record d { buffer = d.buffer ++ more }
  ]
  | err e ↦ record d { buffer = d.buffer ++ more }
]

decode-head :
    (self : BytesCodec) (src : List ℕ)
    → self.raw ≡ false
    → self.state ≡ head
    → decode self src ≡ after_head self (decode_head self src)
unfolding decode
decode-head self src framed at_head = rw (framed, at_head)

-- The codec when it waits for `n` bytes.
abbrev at_body : BytesCodec → ℕ → BytesCodec
at_body self n = record self { state = body n }

module _ (self : BytesCodec) (framed : self.raw ≡ false) (more : List ℕ) where
  resume-body :
      (n : ℕ) (src : List ℕ)
      → finish (at_body self n) (decode_data (at_body self n) n (src ++ more))
        ≡ resume (finish (at_body self n) (decode_data (at_body self n) n src)) more
  unfolding decode decode_data
  resume-body n src = elim (Bool-cases (ltb (length src) n)) [
    | inl short ↦ rw (short, framed)
    | inr long ↦ rw (
      long,
      le→ltb (length (src ++ more)) n (ground (arith, length-append src more)),
      take-append n src more (ground arith),
      drop-append n src more (ground arith),
    )
  ]

  -- At a header that is complete both calls read the same length.
  resume_complete :
      (src : List ℕ) (n : ℕ)
      → decode_head self src ≡ announced self n src (drop (head_len_of src) src)
      → decode_head self (src ++ more)
        ≡ announced self n (src ++ more) (drop (head_len_of src) src ++ more)
      → after_head self (decode_head self (src ++ more))
        ≡ resume (after_head self (decode_head self src)) more
  unfolding after_head
  resume_complete src n e e' = elim (Bool-cases (ltb self.max_packet_length n)) [
    | inl big ↦ rw (e, e', big)
    | inr fits ↦ rw (e, e', fits) (resume-body n (drop (head_len_of src) src))
  ]

  -- In a buffer that ends inside the header nothing has been taken.
  resume-wait :
      (src : List ℕ)
      → self.state ≡ head
      → decode_head self src ≡ (ok none, src)
      → after_head self (decode_head self (src ++ more))
        ≡ resume (after_head self (decode_head self src)) more
  unfolding after_head
  resume-wait src at_head e = rw e (sym (decode-head self (src ++ more) framed at_head))

  resume-head :
      (src : List ℕ)
      → self.state ≡ head
      → after_head self (decode_head self (src ++ more))
        ≡ resume (after_head self (decode_head self src)) more
  resume-head [] at_head = resume-wait [] at_head (unfold decode_head in refl)
  resume-head (b ∷ bs) at_head =
      let src : List ℕ = b ∷ bs in
      let k = head_len_of src in
      let n = shr (header_word k src) 2 in
      elim (Bool-cases (ltb (length src) k)) [
        | inl short ↦ resume-wait src at_head (unfold decode_head in rw short)
        | inr long ↦
            resume_complete src n (decode_head_complete self src k n refl (ground arith) refl) (
              decode_head_complete self (src ++ more) k n (head_len-append b bs more)
                (ground (arith, length-append bs more))
                (rw (header_word-append k src more (head_len-bounds src).0 (ground arith)) refl)
              ∙ rw (drop-append k src more (ground arith)))
      ]

decode-at_body :
    (self : BytesCodec) (n : ℕ) (src : List ℕ)
    → self.raw ≡ false
    → self.state ≡ body n
    → decode self src ≡ finish (at_body self n) (decode_data (at_body self n) n src)
unfolding decode
decode-at_body self n src framed e = rw (framed, e)

-- Outside raw mode, whether the bytes come at once or in two pieces, a call of `decode` on the whole is
-- the call on the first piece, resumed with the second.
pub decode-append :
    (self : BytesCodec) (src more : List ℕ)
    → self.raw ≡ false
    → decode self (src ++ more) ≡ resume (decode self src) more
unfolding decode
decode-append self src more framed = by_state self.state refl
  where
    by_state :
        (st : DecodeState)
        → self.state ≡ st
        → decode self (src ++ more) ≡ resume (decode self src) more
    by_state head e =
        rw (decode-head self src framed e, decode-head self (src ++ more) framed e)
          (resume-head self framed more src e)
    by_state (body n) e =
        rw (decode-at_body self n src framed e, decode-at_body self n (src ++ more) framed e)
          (resume-body self framed more n src)
