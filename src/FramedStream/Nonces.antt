-- ===== src/FramedStream/Nonces.antt =====
-- The nonces that the counters give, and what a sealed frame opens as when it comes out of turn.
use rustdesk_server_demo.Prelude.{
  ℕ, ◌+◌, ◌^◌, ◌<◌, ◌≡◌, ◌≢◌, ◌∙◌, sym, ap, some, List, ◌++◌, replicate, take, take-length_append,
  length, length-append, arith,
}
use rustdesk_server_demo.Prelude.Endian.{
  Endian, to_ne_bytes, from_ne_bytes, from-to_ne_bytes, length-to_ne_bytes,
}
use rustdesk_server_demo.FramedStream.{
  SecretBox, got, failed, decryption, Secured, FramedStream, get_nonce, next_u64, open_next, next,
}

pub length-get_nonce : (e : Endian) (n : ℕ) → length (get_nonce e n) ≡ 24
unfolding get_nonce
length-get_nonce e n =
    length-append (to_ne_bytes e 8 n) (replicate 16 0)
    ∙ ap (λ (t : ℕ). t + 16) (length-to_ne_bytes e 8 n)

counter_of : (e : Endian) (n : ℕ) → n < 2 ^ 64 → from_ne_bytes e (take 8 (get_nonce e n)) ≡ n
unfolding get_nonce
counter_of e n h =
    let front : take 8 (to_ne_bytes e 8 n ++ replicate 16 0) ≡ to_ne_bytes e 8 n =
      rw (length-to_ne_bytes e 8 n) at (take-length_append (to_ne_bytes e 8 n) (replicate 16 0)) in
    rw front (from-to_ne_bytes e 8 n h)

-- Different counters give different nonces.
pub get_nonce-injective :
    (e : Endian) (n m : ℕ) → n < 2 ^ 64 → m < 2 ^ 64 → get_nonce e n ≡ get_nonce e m → n ≡ m
get_nonce-injective e n m hn hm q =
    sym (counter_of e n hn) ∙ ap (λ (l : List ℕ). from_ne_bytes e (take 8 l)) q ∙ counter_of e m hm

module _ (box : SecretBox) (e : Endian) where
  open box use {Key, seal, open_box, open_box-seal, open_box-seal_ne}

  -- A frame that is not the next one, because it was seen before, is out of order, or follows one that
  -- was lost, is a decryption error under the same key; the counter moves on all the same.
  pub out_of_turn :
      (b : FramedStream Key) (r : Secured Key) (m : List ℕ) (i : ℕ)
      → b.secured ≡ some r
      → i < 2 ^ 64
      → i ≢ next_u64 r.received
      → next box e b (some (got (seal m (get_nonce e i) r.key))) ≡ (
        some (failed decryption),
        record b { secured = some (record r { received = next_u64 r.received }) },
      )
  unfolding next open_next
  out_of_turn b r m i q hi other =
      let apart : get_nonce e i ≢ get_nonce e (next_u64 r.received) =
        λ same. other (get_nonce-injective e i (next_u64 r.received) hi (omega arith) same) in
      rw (q, open_box-seal_ne m (get_nonce e i) (get_nonce e (next_u64 r.received)) r.key apart)
