-- ===== src/Codec/RoundTrip.antt =====
-- What one codec encodes, another decodes: one frame, and a stream of frames in any pieces.
use rustdesk_server_demo.Prelude.{
  ℕ, ◌+◌, ◌≤◌, ◌≡◌, ◌≢◌, ◌∙◌, refl, sym, ap, false, inl, inr, none, some, List, [], ◌∷◌, ◌++◌,
  append_assoc, append-nil, length, All, arith, leb, Bool-cases, leb→le,
}
use rustdesk_server_demo.Codec.{BytesCodec, Result, ok, err, Error, decode, encode}
use rustdesk_server_demo.Codec.Frame.{
  frame, max_length, length-frame, encode-frame, encode-too_long, decode-frame,
}
use rustdesk_server_demo.Codec.Stream.{
  Reader, InStep, InStep-no_error, InStep-done, frames, IsFresh, Sendable, Reader-InStep,
}

-- Data of at most 2^30 - 1 bytes, both codecs outside raw mode: `encode` appends a frame of one to four
-- bytes more, and `decode` at a header takes exactly that frame off and returns the data, if its limit
-- admits it.
pub decode-encode :
    (self peer : BytesCodec) (xs buf rest : List ℕ)
    → self.raw ≡ false
    → IsFresh peer
    → length xs ≤ max_length
    → length xs ≤ peer.max_packet_length
    → (written : List ℕ) × (encode self xs buf ≡ (ok tt, buf ++ written))
      × (length xs + 1 ≤ length written)
      × (length written ≤ length xs + 4)
      × (decode peer (written ++ rest)
          ≡ record { result = ok (some xs); codec = peer; buffer = rest })
decode-encode self peer xs buf rest framed fresh h fits =
    let (longer, bound) = length-frame xs in
    (
      frame xs,
      encode-frame self xs buf framed h,
      longer,
      bound,
      decode-frame peer xs rest fresh.0 fresh.1 h fits,
    )

abbrev go_on :
    Result (Unit {0}) × List ℕ → (List ℕ → Result (Unit {0}) × List ℕ) → Result (Unit {0}) × List ℕ
go_on (ok _, buf) k = k buf
go_on (err e, buf) k = (err e, buf)

-- Calls of `encode` on one buffer, up to the first error.
unfoldable pub encode_all : BytesCodec → List (List ℕ) → List ℕ → Result (Unit {0}) × List ℕ
unfolding encode
encode_all self [] buf = (ok tt, buf)
encode_all self (xs ∷ rest) buf = go_on (encode self xs buf) (encode_all self rest)

pub encode_all-nil : (self : BytesCodec) (buf : List ℕ) → encode_all self [] buf ≡ (ok tt, buf)
unfolding encode_all
encode_all-nil self buf = refl

module _ (self : BytesCodec) (xs : List ℕ) (rest : List (List ℕ)) (buf buf' : List ℕ) where
  pub encode_all-ok :
      encode self xs buf ≡ (ok tt, buf')
      → encode_all self (xs ∷ rest) buf ≡ encode_all self rest buf'
  unfolding encode_all
  encode_all-ok e = ap (λ o. go_on o (encode_all self rest)) e

  encode_all-err :
      (x : Error)
      → encode self xs buf ≡ (err x, buf')
      → encode_all self (xs ∷ rest) buf ≡ (err x, buf')
  unfolding encode_all
  encode_all-err x e = ap (λ o. go_on o (encode_all self rest)) e

encode_all-frames :
    (self : BytesCodec) (sent : List (List ℕ)) (buf out : List ℕ)
    → self.raw ≡ false
    → encode_all self sent buf ≡ (ok tt, out)
    → (out ≡ buf ++ frames sent) × All (λ xs. length xs ≤ max_length) sent
unfolding encode_all
encode_all-frames self [] buf out framed e =
    let same : buf ≡ out = ap (λ (p : Result (Unit {0}) × List ℕ). p.1) e in
    (sym same ∙ sym (append-nil buf), tt)
encode_all-frames self (xs ∷ rest) buf out framed e =
    elim (Bool-cases (leb (length xs) max_length)) [
      | inl fits ↦
          let h = leb→le (length xs) max_length fits in
          let (written, ok_rest) =
            encode_all-frames self rest (buf ++ frame xs) out framed
              (sym (encode_all-ok self xs rest buf _ (encode-frame self xs buf framed h)) ∙ e) in
          (written ∙ append_assoc buf (frame xs) (frames rest), (h, ok_rest))
      | inr long ↦
          let refused = encode-too_long self xs buf framed (ground arith) in
          cc (sym (encode_all-err self xs rest buf buf _ refused) ∙ e)
    ]

All-Sendable :
    (c : BytesCodec) (sent : List (List ℕ))
    → All (λ xs. length xs ≤ max_length) sent
    → All (λ xs. length xs ≤ c.max_packet_length) sent
    → All (Sendable c) sent
All-Sendable c [] h k = tt
All-Sendable c (xs ∷ rest) (h, hs) (k, ks) = ((h, k), All-Sendable c rest hs ks)

module _ (self first : BytesCodec) (sent : List (List ℕ)) (framed : self.raw ≡ false)
    (fresh : IsFresh first) (admitted : All (λ xs. length xs ≤ first.max_packet_length) sent)
    {c : BytesCodec} {b r : List ℕ} {fs : List (List ℕ)} (run : Reader first c b r fs) where
  in_step :
      (future : List ℕ)
      → encode_all self sent [] ≡ (ok tt, r ++ future)
      → InStep first fresh c b future fs sent
  in_step future e =
      let (written, short) = encode_all-frames self sent [] (r ++ future) framed e in
      Reader-InStep first fresh future sent run (All-Sendable first sent short admitted) written

-- Let `encode` write messages outside raw mode, without an error, and let a reader start with a codec
-- outside raw mode that is at a header and whose max_packet_length admits every one of them. However
-- the bytes arrive and whenever `decode` is called, it has delivered the first of the messages in
-- their order, and its next `decode` is no error.
pub Reader-in_order :
    (self first : BytesCodec) (sent : List (List ℕ))
    → self.raw ≡ false
    → IsFresh first
    → All (λ xs. length xs ≤ first.max_packet_length) sent
    → {c : BytesCodec} {b r : List ℕ} {fs : List (List ℕ)} → Reader first c b r fs
    → (future : List ℕ) → encode_all self sent [] ≡ (ok tt, r ++ future)
    → (rest : List (List ℕ)) × (fs ++ rest ≡ sent) × ((e : Error) → (decode c b).result ≢ err e)
Reader-in_order self first sent framed fresh admitted {c} {b} {fs = fs} run future e =
    let (rest, same_raw, split, hs, p) =
      in_step self first sent framed fresh admitted run future e in
    (rest, split, InStep-no_error first fresh c b future fs sent (rest, same_raw, split, hs, p))

-- With the same codecs, both outside raw mode, the reader's at a header and with a limit that admits
-- every message: when all bytes have arrived and `decode` asks for more, every sent message has been
-- delivered.
pub Reader-complete :
    (self first : BytesCodec) (sent : List (List ℕ))
    → self.raw ≡ false
    → IsFresh first
    → All (λ xs. length xs ≤ first.max_packet_length) sent
    → {c : BytesCodec} {b r : List ℕ} {fs : List (List ℕ)} → Reader first c b r fs
    → encode_all self sent [] ≡ (ok tt, r)
    → (decode c b).result ≡ ok none
    → fs ≡ sent
Reader-complete self first sent framed fresh admitted {c} {b} {r} {fs} run e waits =
    InStep-done first fresh c b fs sent
      (in_step self first sent framed fresh admitted run []
        (e ∙ ap (λ (l : List ℕ). (ok tt, l)) (sym (append-nil r))))
      waits
