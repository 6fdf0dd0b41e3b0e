-- ===== src/FramedStream/Session.antt =====
-- What one end sends under a key, the other end reads: message by message, and through the codec.
use rustdesk_server_demo.Prelude.{
  ℕ, ◌≤◌, ◌≡◌, ◌∙◌, refl, ap, false, Option, none, some, List, [], ◌∷◌, map, length, All,
}
use rustdesk_server_demo.Prelude.Endian.{Endian}
use rustdesk_server_demo.Codec
use rustdesk_server_demo.Codec.{BytesCodec}
use rustdesk_server_demo.Codec.Stream.{Reader, IsFresh}
use rustdesk_server_demo.Codec.RoundTrip.{
  encode_all, encode_all-ok, encode_all-nil, Reader-complete,
}
use rustdesk_server_demo.FramedStream.{
  SecretBox, Answer, got, failed, Secured, FramedStream, Item, next_u64, seal_next, send_raw,
  open_next, flush, next,
}

abbrev pub go_on {ℓ} :
    {S : Type ℓ} → Answer (Unit {0}) × S → (S → Answer (Unit {0}) × S) → Answer (Unit {0}) × S
go_on (got _, s) k = k s
go_on (failed x, s) k = (failed x, s)

module _ (box : SecretBox) (e : Endian) where
  open box use {Key, seal, open_box, open_box-seal}

  -- Two ends agree: no key, or one key and as many messages opened here as were sealed there.
  abbrev pub Paired : Option (Secured Key) → Option (Secured Key) → Type 0
  Paired none none = Unit
  Paired (some s) (some r) = (s.key ≡ r.key) × (s.sent ≡ r.received)
  Paired _ _ = ⊥

  -- The frames that `send_raw` writes for the messages.
  unfoldable pub sealed : Option (Secured Key) → List (List ℕ) → List (List ℕ)
  unfolding seal_next
  sealed s [] = []
  sealed s (m ∷ ms) = let (s', c) = seal_next box e s m in c ∷ sealed s' ms

  -- What `next` yields for the frames.
  unfoldable pub next_all : FramedStream Key → List (List ℕ) → List Item
  unfolding next
  next_all b [] = []
  next_all b (c ∷ cs) = let (item, b') = next box e b (some (got c)) in item ∷ next_all b' cs

  -- A message that is sealed, then opened, is the message, and the ends agree again.
  open_next-seal_next :
      (s r : Option (Secured Key)) (m : List ℕ)
      → Paired s r
      → ((open_next box e r (some (got (seal_next box e s m).1))).0 ≡ some (got m))
        × Paired (seal_next box e s m).0 (open_next box e r (some (got (seal_next box e s m).1))).1
  unfolding seal_next open_next
  open_next-seal_next none none m p = (refl, tt)
  open_next-seal_next (some s) (some r) m (k, n) = (rw (k, n, open_box-seal), (k, ap next_u64 n))
  open_next-seal_next none (some r) m p = absurd p
  open_next-seal_next (some s) none m p = absurd p

  -- All messages are read, in their order.
  pub next_all-sealed :
      (s : Option (Secured Key)) (b : FramedStream Key) (ms : List (List ℕ))
      → Paired s b.secured
      → next_all b (sealed s ms) ≡ map (λ m. some (got m)) ms
  unfolding next_all sealed next
  next_all-sealed s b [] p = refl
  next_all-sealed s b (m ∷ ms) p =
      let (same, again) = open_next-seal_next s b.secured m p in
      let b' = (next box e b (some (got (seal_next box e s m).1))).1 in
      rw (same, next_all-sealed (seal_next box e s m).0 b' ms again)

  -- Calls of `send_raw` while the socket takes what it is given, up to the first error.
  unfoldable pub send_all : FramedStream Key → List (List ℕ) → Answer (Unit {0}) × FramedStream Key
  unfolding send_raw
  send_all a [] = (got tt, a)
  send_all a (m ∷ ms) = go_on (send_raw box e (got tt) a m) (λ a'. send_all a' ms)

  abbrev Written : FramedStream Key → FramedStream Key → List (List ℕ) → Type 0
  Written a a' ms = encode_all a.codec (sealed a.secured ms) a.out ≡ (Codec.ok tt, a'.out)

  Written-first :
      (a a' : FramedStream Key) (c : List ℕ) (ms : List (List ℕ))
      (o : Codec.Result (Unit {0}) × List ℕ)
      → ((t : FramedStream Key) → send_all t ms ≡ (got tt, a') → Written t a' ms)
      → Codec.encode a.codec c a.out ≡ o
      → go_on (flush box e (got tt) a o) (λ t. send_all t ms) ≡ (got tt, a')
      → encode_all a.codec (c ∷ sealed a.secured ms) a.out ≡ (Codec.ok tt, a'.out)
  Written-first a a' c ms (Codec.ok u, out) rest q k =
      encode_all-ok a.codec c (sealed a.secured ms) a.out out q ∙ rest (record a { out = out }) k
  Written-first a a' c ms (Codec.err x, out) rest q k = cc

  -- What `send_all` writes is what the codec makes of the sealed messages.
  send_all-encode_all :
      (a a' : FramedStream Key) (ms : List (List ℕ))
      → send_all a ms ≡ (got tt, a')
      → Written a a' ms
  unfolding send_all sealed send_raw
  send_all-encode_all a a' [] h =
      encode_all-nil a.codec a.out
      ∙ ap (λ (p : Answer (Unit {0}) × FramedStream Key). (Codec.ok tt, p.1.out)) h
  send_all-encode_all a a' (m ∷ ms) h =
      let (s, c) = seal_next box e a.secured m in
      Written-first (record a { secured = s }) a' c ms (Codec.encode a.codec c a.out)
        (λ t. send_all-encode_all t a' ms) refl h

  -- End to end: two streams that agree on the key or on none, the sender's at a fresh codec with
  -- nothing written, the reader's as `from` makes it. If every `send_raw` succeeded and the bytes that
  -- were written have arrived, in any pieces, then once the framed reader waits for more, `next` has
  -- given the messages, all of them and in their order.
  pub session :
      (a a' b : FramedStream Key) (first : BytesCodec) (ms fs : List (List ℕ))
      → Paired a.secured b.secured
      → a.codec.raw ≡ false
      → a.out ≡ []
      → send_all a ms ≡ (got tt, a')
      → IsFresh first
      → All (λ c. length c ≤ first.max_packet_length) (sealed a.secured ms)
      → {c : BytesCodec} {buffer : List ℕ} → Reader first c buffer a'.out fs
      → (Codec.decode c buffer).result ≡ Codec.ok none
      → next_all b fs ≡ map (λ m. some (got m)) ms
  session a a' b first ms fs p framed empty h fresh fits run waits =
      let bytes = rw empty at (send_all-encode_all a a' ms h) in
      rw (Reader-complete a.codec first (sealed a.secured ms) framed fresh fits run bytes waits)
        (next_all-sealed a.secured b ms p)
