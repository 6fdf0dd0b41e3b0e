-- ===== src/FramedStream.antt =====
-- libs/hbb_common/src/tcp.rs: `FramedStream`, a TCP stream of frames, sealed once a key is set.
-- sodiumoxide's secretbox is the record `SecretBox`. What the socket answers to a write, and what the
-- framed reader yields, are arguments. The counters are u64 and wrap, as in an unchecked build.
pub mod Session
pub mod Nonces
pub mod Reflection
pub mod Connect
pub mod Tries
pub mod Connecting
mod Runs
use rustdesk_server_demo.Prelude.{
  ℕ, ◌+◌, ◌-◌, ◌^◌, ◌%◌, ◌≡◌, ◌≢◌, Bool, true, false, Option, none, some, List, [], ◌∷◌, ◌++◌,
  replicate,
}
use rustdesk_server_demo.Prelude.Endian.{Endian, to_ne_bytes}
use rustdesk_server_demo.Codec
use rustdesk_server_demo.Codec.{BytesCodec}

-- The documented contract: a box opens under the nonce and the key that sealed it, and under a key it
-- opens under no other nonce.
pub record SecretBox : Type 1 where
  pub Key : Type 0
  pub seal : List ℕ → List ℕ → Key → List ℕ
  pub open_box : List ℕ → List ℕ → Key → Option (List ℕ)
  pub open_box-seal : (m n : List ℕ) (k : Key) → open_box (seal m n k) n k ≡ some m
  pub open_box-seal_ne : (m n n' : List ℕ) (k : Key) → n ≢ n' → open_box (seal m n k) n' k ≡ none

pub data StreamError : Type 0 where
  encoding : Codec.Error → StreamError
  serializing socket decryption : StreamError

pub data Answer {ℓ} (A : Type ℓ) : Type ℓ where
  got : A → Answer A
  failed : StreamError → Answer A

module _ (Key : Type 0) where
  -- `(Key, u64, u64)`: the key, and how many messages were sealed and opened with it.
  pub record Secured : Type 0 where
    pub key : Key
    pub sent : ℕ
    pub received : ℕ

  -- `out` is what `Framed` has encoded for the socket.
  pub record FramedStream : Type 0 where
    pub codec : BytesCodec
    pub out : List ℕ
    pub secured : Option Secured

-- sodiumoxide's NONCEBYTES, the size of a nonce of XSalsa20.
abbrev pub nonce_bytes : ℕ
nonce_bytes = 24

-- The counter in the first eight bytes, zeros behind it.
unfoldable pub get_nonce : Endian → ℕ → List ℕ
get_nonce e seqnum = to_ne_bytes e 8 seqnum ++ replicate (nonce_bytes - 8) 0

abbrev pub next_u64 : ℕ → ℕ
next_u64 n = (n + 1) % 2 ^ 64

-- The item of a framed reader: the end of the stream, a frame or an error.
abbrev pub Item : Type 0
Item = Option (Answer (List ℕ))

module _ (box : SecretBox) (e : Endian) where
  open box use {Key, seal, open_box}

  unfoldable pub from_stream : FramedStream Key
  unfolding Codec.new
  from_stream = record { codec = Codec.new; out = []; secured = none }

  unfoldable pub set_raw : FramedStream Key → FramedStream Key
  unfolding Codec.set_raw
  set_raw self = record self { codec = Codec.set_raw self.codec; secured = none }

  unfoldable pub is_secured : FramedStream Key → Bool
  is_secured self = elim self.secured [ none ↦ false | some s ↦ true ]

  unfoldable pub set_key : FramedStream Key → Key → FramedStream Key
  set_key self key = record self { secured = some (record { key = key; sent = 0; received = 0 }) }

  -- `self.0.send(..)`: encode behind what is to be written, and flush.
  abbrev pub flush :
      Answer (Unit {0})
      → FramedStream Key
      → Codec.Result (Unit {0}) × List ℕ
      → Answer (Unit {0}) × FramedStream Key
  flush io self (Codec.ok _, out) = (io, record self { out = out })
  flush io self (Codec.err x, out) = (failed (encoding x), record self { out = out })

  unfoldable pub send_bytes :
      Answer (Unit {0}) → FramedStream Key → List ℕ → Answer (Unit {0}) × FramedStream Key
  unfolding Codec.encode
  send_bytes io self bytes = flush io self (Codec.encode self.codec bytes self.out)

  -- The `if let` of `send_raw`: the key with its counter moved on, and what is written for `msg`.
  unfoldable pub seal_next : Option (Secured Key) → List ℕ → Option (Secured Key) × List ℕ
  unfolding get_nonce
  seal_next none msg = (none, msg)
  seal_next (some key) msg =
      let sent = next_u64 key.sent in
      (some (record key { sent = sent }), seal msg (get_nonce e sent) key.key)

  unfoldable pub send_raw :
      Answer (Unit {0}) → FramedStream Key → List ℕ → Answer (Unit {0}) × FramedStream Key
  unfolding seal_next send_bytes
  send_raw io self msg =
      let (secured, sealed) = seal_next self.secured msg in
      send_bytes io (record self { secured = secured }) sealed

  -- `send`, given what `write_to_bytes` made of the message.
  unfoldable pub send :
      Answer (Unit {0}) → FramedStream Key → Answer (List ℕ) → Answer (Unit {0}) × FramedStream Key
  unfolding send_raw
  send io self (got bytes) = send_raw io self bytes
  send io self (failed x) = (failed x, self)

  abbrev pub opened : Option (List ℕ) → Item
  opened (some m) = some (got m)
  opened none = some (failed decryption)

  -- The `if let` of `next`, on what the framed reader yields.
  unfoldable pub open_next : Option (Secured Key) → Item → Item × Option (Secured Key)
  unfolding get_nonce
  open_next (some key) (some (got bytes)) =
      let received = next_u64 key.received in
      (
        opened (open_box bytes (get_nonce e received) key.key),
        some (record key { received = received }),
      )
  open_next secured res = (res, secured)

  unfoldable pub next : FramedStream Key → Item → Item × FramedStream Key
  unfolding open_next
  next self res =
      let (item, secured) = open_next self.secured res in (item, record self { secured = secured })

  -- `next_timeout`: `none` for a reader that yields nothing in time.
  unfoldable pub next_timeout : FramedStream Key → Option Item → Item × FramedStream Key
  unfolding next
  next_timeout self (some res) = next self res
  next_timeout self none = (none, self)
