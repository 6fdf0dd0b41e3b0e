-- ===== src/Codec/Stream.antt =====
-- A reader in front of a byte stream: bytes come in pieces of any size, and between two pieces
-- `decode` is called any number of times, as `Framed` of tokio_util does with a decoder.
use rustdesk_server_demo.Prelude.{
  ℕ, ◌≤◌, ◌≡◌, ◌≢◌, ◌∙◌, refl, sym, ap, Bool, false, Option, none, some, List, [], ◌∷◌, ◌++◌,
  append_assoc, append-nil, length, All, if◌then◌else◌,
}
use rustdesk_server_demo.Codec.{
  BytesCodec, DecodeState, head, body, Result, ok, err, Error, Decoded, decode, decode_head,
  decode_framed, decode_raw, after_head, finish, decode_data,
}
use rustdesk_server_demo.Codec.Frame.{frame, max_length, decode-frame}
use rustdesk_server_demo.Codec.Resume.{resume, decode-append}

abbrev pub delivered : List (List ℕ) → Result (Option (List ℕ)) → List (List ℕ)
delivered fs (ok (some xs)) = fs ++ xs ∷ []
delivered fs (ok none) = fs
delivered fs (err e) = fs

-- `Reader first c b r fs`: from the codec `first` and an empty buffer, having received the bytes
-- `r`, the reader has delivered the frames `fs` and holds the codec `c` and the buffer `b`.
pub data Reader (first : BytesCodec) : BytesCodec → List ℕ → List ℕ → List (List ℕ) → Type 0 where
  start : Reader first first [] [] []
  receive :
      {c : BytesCodec} {b r : List ℕ} {fs : List (List ℕ)}
      → Reader first c b r fs
      → (piece : List ℕ) → Reader first c (b ++ piece) (r ++ piece) fs
  poll :
      {c : BytesCodec} {b r : List ℕ} {fs : List (List ℕ)}
      → Reader first c b r fs
      → Reader first (decode c b).codec (decode c b).buffer r (delivered fs (decode c b).result)

-- The bytes of a sequence of frames.
abbrev pub frames : List (List ℕ) → List ℕ
frames [] = []
frames (xs ∷ rest) = frame xs ++ frames rest

-- Data that the codec has a frame for and accepts.
abbrev pub Sendable : BytesCodec → List ℕ → Type 0
Sendable c xs = (length xs ≤ max_length) × (length xs ≤ c.max_packet_length)

abbrev pub IsFresh : BytesCodec → Type 0
IsFresh c = (c.raw ≡ false) × (c.state ≡ head)

raw-finish :
    (c : BytesCodec) (o : Result (Option (List ℕ)) × List ℕ) → (finish c o).codec.raw ≡ c.raw
unfolding finish
raw-finish c (ok (some xs), src) = refl
raw-finish c (ok none, src) = refl
raw-finish c (err e, src) = refl

raw-after_head :
    (c : BytesCodec) (o : Result (Option ℕ) × List ℕ) → (after_head c o).codec.raw ≡ c.raw
unfolding after_head
raw-after_head c (ok (some n), src) =
    raw-finish (record c { state = body n }) (decode_data (record c { state = body n }) n src)
raw-after_head c (ok none, src) = refl
raw-after_head c (err e, src) = refl

raw-decode_framed :
    (c : BytesCodec) (st : DecodeState) (b : List ℕ) → (decode_framed c st b).codec.raw ≡ c.raw
unfolding decode_framed
raw-decode_framed c head b = raw-after_head c (decode_head c b)
raw-decode_framed c (body n) b = raw-finish c (decode_data c n b)

decode-empty :
    (c : BytesCodec)
    → c.raw ≡ false
    → c.state ≡ head
    → decode c [] ≡ record { result = ok none; codec = c; buffer = [] }
unfolding decode
decode-empty c framed at_head = rw (framed, at_head)

pub if_raw : (c : BytesCodec) (b : List ℕ) → c.raw ≡ false → decode c b ≡ decode_framed c c.state b
unfolding decode
if_raw c b framed =
    ap (λ (t : Bool). if t then decode_raw c b else decode_framed c c.state b) framed

raw-decode : (c : BytesCodec) (b : List ℕ) → c.raw ≡ false → (decode c b).codec.raw ≡ false
unfolding decode
raw-decode c b framed = rw (if_raw c b framed) (raw-decode_framed c c.state b ∙ framed)

-- What is still to come, seen from the codec: `s` are the bytes that are left.
abbrev pub Pending : BytesCodec → BytesCodec → List ℕ → List (List ℕ) → Type 0
Pending first c s [] = (c ≡ first) × (s ≡ [])
Pending first c s (xs ∷ rest) =
    decode c s ≡ record { result = ok (some xs); codec = first; buffer = frames rest }

module _ (first : BytesCodec) (fresh : IsFresh first) where
  Pending-frames :
      (rest : List (List ℕ)) → All (Sendable first) rest → Pending first first (frames rest) rest
  Pending-frames [] h = (refl, refl)
  Pending-frames (xs ∷ rest) (h, hs) = decode-frame first xs (frames rest) fresh.0 fresh.1 h.0 h.1

  -- A call of `decode` on what has come keeps what is to come, or delivers the next frame.
  abbrev Polled : Decoded → List ℕ → List (List ℕ) → Type 0
  Polled d future rest = elim d.result [
    | ok o ↦ elim o [
      | none ↦ Pending first d.codec (d.buffer ++ future) rest
      | some xs ↦
          (rest' : List (List ℕ)) × (rest ≡ xs ∷ rest')
          × Pending first d.codec (d.buffer ++ future) rest'
    ]
    | err e ↦ ⊥
  ]

  split_resumed :
      (r : Result (Option (List ℕ))) (c : BytesCodec) (b future xs : List ℕ) (rest : List (List ℕ))
      → All (Sendable first) rest
      → resume (record { result = r; codec = c; buffer = b }) future
        ≡ record { result = ok (some xs); codec = first; buffer = frames rest }
      → Polled (record { result = r; codec = c; buffer = b }) future (xs ∷ rest)
  split_resumed (ok none) c b future xs rest hs e = e
  split_resumed (ok (some ys)) c b future xs rest hs e =
      let same : ◌≡◌ {A = Result (Option (List ℕ))} (ok (some ys)) (ok (some xs)) =
        ap (λ (d : Decoded). d.result) e in
      let codec : c ≡ first = ap (λ (d : Decoded). d.codec) e in
      let buffer : b ++ future ≡ frames rest = ap (λ (d : Decoded). d.buffer) e in
      (rest, cc, rw (codec, buffer) (Pending-frames rest hs))
  split_resumed (err x) c b future xs rest hs e =
      let same : ◌≡◌ {A = Result (Option (List ℕ))} (err x) (ok (some xs)) =
        ap (λ (d : Decoded). d.result) e in
      cc

  poll-Pending :
      (c : BytesCodec) (b future : List ℕ) (rest : List (List ℕ))
      → c.raw ≡ false
      → All (Sendable first) rest
      → Pending first c (b ++ future) rest
      → Polled (decode c b) future rest
  poll-Pending c [] future [] framed h (same, p) =
      rw (decode-empty c (rw same fresh.0) (rw same fresh.1)) (same, p)
  poll-Pending c (x ∷ b) future [] framed h (same, p) = cc
  poll-Pending c b future (xs ∷ rest) framed (h, hs) p =
      split_resumed (decode c b).result (decode c b).codec (decode c b).buffer future xs rest hs
        (sym (decode-append c b future framed) ∙ p)

  -- Along a run the delivered frames and those to come are the ones that were sent.
  abbrev pub InStep : BytesCodec → List ℕ → List ℕ → List (List ℕ) → List (List ℕ) → Type 0
  InStep c b future fs sent =
      (rest : List (List ℕ)) × (c.raw ≡ false)
      × (fs ++ rest ≡ sent)
      × All (Sendable first) rest
      × Pending first c (b ++ future) rest

  poll-InStep :
      (c : BytesCodec) (b future : List ℕ) (fs sent : List (List ℕ))
      → InStep c b future fs sent
      → InStep (decode c b).codec (decode c b).buffer future (delivered fs (decode c b).result) sent
  poll-InStep c b future fs sent (rest, framed, e, hs, p) =
      by_result (decode c b).result (decode c b).codec (decode c b).buffer (raw-decode c b framed)
        (poll-Pending c b future rest framed hs p)
    where
      by_result :
          (r : Result (Option (List ℕ))) (c' : BytesCodec) (b' : List ℕ)
          → c'.raw ≡ false
          → Polled (record { result = r; codec = c'; buffer = b' }) future rest
          → InStep c' b' future (delivered fs r) sent
      by_result (ok none) c' b' f q = (rest, f, e, hs, q)
      by_result (ok (some xs)) c' b' f (rest', split, q) =
          let sendable : All (Sendable first) (xs ∷ rest') = rw split at hs in
          (rest', f, rw append_assoc (rw (← split) e), sendable.1, q)
      by_result (err x) c' b' f q = absurd q

  pub Reader-InStep :
      {c : BytesCodec} {b r : List ℕ} {fs : List (List ℕ)} (future : List ℕ) (sent : List (List ℕ))
      → Reader first c b r fs
      → All (Sendable first) sent
      → r ++ future ≡ frames sent
      → InStep c b future fs sent
  Reader-InStep future sent start hs e = (sent, fresh.0, refl, hs, rw e (Pending-frames sent hs))
  Reader-InStep future sent (receive {b = b} {r = r} run piece) hs e =
      rw (append_assoc b piece future)
        (Reader-InStep (piece ++ future) sent run hs (rw (← append_assoc r piece future) e))
  Reader-InStep future sent (poll {c = c} {b = b} {fs = fs} run) hs e =
      poll-InStep c b future fs sent (Reader-InStep future sent run hs e)

  Polled-no_error :
      (r : Result (Option (List ℕ))) (c : BytesCodec) (b future : List ℕ) (rest : List (List ℕ))
      → Polled (record { result = r; codec = c; buffer = b }) future rest
      → (e : Error) → r ≢ err e
  Polled-no_error (ok o) c b future rest p e q = cc
  Polled-no_error (err x) c b future rest p e q = absurd p

  pub InStep-no_error :
      (c : BytesCodec) (b future : List ℕ) (fs sent : List (List ℕ))
      → InStep c b future fs sent
      → (e : Error) → (decode c b).result ≢ err e
  InStep-no_error c b future fs sent (rest, framed, split, hs, p) =
      Polled-no_error (decode c b).result (decode c b).codec (decode c b).buffer future rest
        (poll-Pending c b future rest framed hs p)

  -- With no byte to come a codec that waits has nothing left to deliver.
  pub InStep-done :
      (c : BytesCodec) (b : List ℕ) (fs sent : List (List ℕ))
      → InStep c b [] fs sent
      → (decode c b).result ≡ ok none
      → fs ≡ sent
  InStep-done c b fs sent ([], framed, split, hs, p) waits = rw append-nil at split
  InStep-done c b fs sent (xs ∷ rest, framed, split, hs, p) waits =
      let delivers : (decode c b).result ≡ ok (some xs) =
        ap (λ (d : Decoded). d.result) (rw append-nil at p) in
      cc
