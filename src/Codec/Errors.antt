-- ===== src/Codec/Errors.antt =====
-- The error paths of the codec, and the raw mode.
use mathlib.Core.Path.{subst}
use rustdesk_server_demo.Prelude.{
  ℕ, ◌<◌, ◌≡◌, ◌≢◌, ◌∙◌, ◌≤◌, ◌⊎◌, inl, inr, refl, sym, ap, true, false, leb, leb→le, Bool-cases,
  if◌then◌else◌, Option, none, some, List, [], ◌∷◌, ◌++◌, length, take, drop, arith,
}
use rustdesk_server_demo.Codec.{
  BytesCodec, DecodeState, head, body, Result, ok, err, Error, invalid_data, invalid_input, Decoded,
  decode, decode_framed, decode_head, decode_data, after_head, finish, encode, set_raw,
}
use rustdesk_server_demo.Codec.Frame.{max_length, frame, encode-frame, encode-too_long}
use rustdesk_server_demo.Codec.Resume.{resume, decode-append}
use rustdesk_server_demo.Codec.Stream.{if_raw}

-- What `encode` may come to.
abbrev pub Encoded : BytesCodec → List ℕ → List ℕ → Result (Unit {0}) × List ℕ → Type 0
Encoded self xs buf (ok _, out) =
    ((self.raw ≡ true) ⊎ (length xs ≤ max_length))
    × (out ≡ (if self.raw then buf ++ xs else buf ++ frame xs))
Encoded self xs buf (err x, out) =
    (self.raw ≡ false) × (max_length < length xs) × (x ≡ invalid_input) × (out ≡ buf)

encode-raw :
    (self : BytesCodec) (xs buf : List ℕ)
    → self.raw ≡ true
    → encode self xs buf ≡ (ok tt, buf ++ xs)
unfolding encode
encode-raw self xs buf raw = rw raw refl

-- Whatever the codec, the data and the buffer: where `encode` fails, it is outside raw mode and the data has
-- 2^30 bytes or more, the error is `InvalidInput` and the buffer is left as it was; where it succeeds, it
-- is in raw mode, with the data put behind the buffer, or the data is shorter, with its frame put there.
pub encode_error : (self : BytesCodec) (xs buf : List ℕ) → Encoded self xs buf (encode self xs buf)
encode_error self xs buf = elim (Bool-cases self.raw) [
  | inl raw ↦
      subst (Encoded self xs buf) (sym (encode-raw self xs buf raw))
        (inl raw, ap (λ b. if b then buf ++ xs else buf ++ frame xs) (sym raw))
  | inr framed ↦ elim (Bool-cases (leb (length xs) max_length)) [
    | inl fits ↦
        let h = leb→le (length xs) max_length fits in
        subst (Encoded self xs buf) (sym (encode-frame self xs buf framed h))
          (inr h, ap (λ b. if b then buf ++ xs else buf ++ frame xs) (sym framed))
    | inr long ↦
        let h : max_length < length xs = ground arith in
        subst (Encoded self xs buf) (sym (encode-too_long self xs buf framed h))
          (framed, h, refl, refl)
  ]
]

decode_head_error :
    (self : BytesCodec) (src left : List ℕ) (e : Error)
    → decode_head self src ≡ (err e, left)
    → (left ≡ src) × (e ≡ invalid_data)
unfolding decode_head
decode_head_error self [] left e h = cc
decode_head_error self (b ∷ bs) left e h = ground arith

decode_data_fine :
    (self : BytesCodec) (n : ℕ) (src : List ℕ) (e : Error)
    → (finish self (decode_data self n src)).result ≢ err e
unfolding finish decode_data
decode_data_fine self n src e h = ground arith

abbrev Unmoved : BytesCodec → List ℕ → Error → Decoded → Type 0
Unmoved self src e d = (d.codec ≡ self) × (d.buffer ≡ src) × (e ≡ invalid_data)

after_head_error :
    (self : BytesCodec) (src : List ℕ) (o : Result (Option ℕ) × List ℕ) (e : Error)
    → decode_head self src ≡ o
    → (after_head self o).result ≡ err e
    → Unmoved self src e (after_head self o)
unfolding after_head
after_head_error self src (ok (some n), left) e q h =
    absurd (decode_data_fine (record self { state = body n }) n left e h)
after_head_error self src (ok none, left) e q h = cc
after_head_error self src (err x, left) e q h =
    let (same, kind) = decode_head_error self src left x q in (refl, same, cc)

decode_framed_error :
    (self : BytesCodec) (st : DecodeState) (src : List ℕ) (e : Error)
    → (decode_framed self st src).result ≡ err e
    → Unmoved self src e (decode_framed self st src)
unfolding decode_framed
decode_framed_error self head src e h = after_head_error self src (decode_head self src) e refl h
decode_framed_error self (body n) src e h = absurd (decode_data_fine self n src e h)

resume_error :
    (d : Decoded) (e : Error) (more : List ℕ)
    → d.result ≡ err e
    → resume d more ≡ record { result = err e; codec = d.codec; buffer = d.buffer ++ more }
resume_error d e more h = by_result d.result h
  where
    by_result :
        (r : Result (Option (List ℕ)))
        → r ≡ err e
        → resume (record d { result = r }) more
          ≡ record { result = err e; codec = d.codec; buffer = d.buffer ++ more }
    by_result (ok o) q = cc
    by_result (err x) q =
        ap
          (λ (r : Result (Option (List ℕ))). record {
            result = r;
            codec = d.codec;
            buffer = d.buffer ++ more;
          })
          q

-- An error of `decode` outside raw mode is `InvalidData`, takes nothing off the buffer and leaves the codec as it was;
-- and no further input mends it.
pub decode_error :
    (self : BytesCodec) (src : List ℕ) (e : Error)
    → self.raw ≡ false
    → (decode self src).result ≡ err e
    → ((decode self src).codec ≡ self)
      × ((decode self src).buffer ≡ src)
      × (e ≡ invalid_data)
      × ((more : List ℕ)
          → decode self (src ++ more)
            ≡ record { result = err e; codec = self; buffer = src ++ more })
decode_error self src e framed h =
    let plain = if_raw self src framed in
    let unmoved : Unmoved self src e (decode self src) =
      rw plain (decode_framed_error self self.state src e (rw plain at h)) in
    (
      unmoved.0,
      unmoved.1,
      unmoved.2,
      λ more.
          decode-append self src more framed
          ∙ resume_error (decode self src) e more h
          ∙ rw (unmoved.0, unmoved.1),
    )

-- After `set_raw` the codec is transparent: `encode` appends the data as it is, and `decode` hands
-- out all that the buffer holds, or waits if that is nothing.
pub raw_transparent :
    (self : BytesCodec) (x : ℕ) (xs buf : List ℕ)
    → (encode (set_raw self) (x ∷ xs) buf ≡ (ok tt, buf ++ x ∷ xs))
      × (decode (set_raw self) (x ∷ xs)
          ≡ record { result = ok (some (x ∷ xs)); codec = set_raw self; buffer = [] })
      × (decode (set_raw self) [] ≡ record { result = ok none; codec = set_raw self; buffer = [] })
unfolding encode decode set_raw
raw_transparent self x xs buf = (refl, rw (take-all xs, drop-all xs) refl, refl)
  where
    take-all : (l : List ℕ) → take (length l) l ≡ l
    take-all [] = refl
    take-all (y ∷ l) = rw (take-all l)

    drop-all : (l : List ℕ) → drop (length l) l ≡ []
    drop-all [] = refl
    drop-all (y ∷ l) = drop-all l
