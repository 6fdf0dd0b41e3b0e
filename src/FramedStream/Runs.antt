-- ===== src/FramedStream/Runs.antt =====
-- A secretbox that meets its contract, and the theorems at concrete inputs.
use rustdesk_server_demo.Prelude.{
  ℕ, ◌≡◌, ◌≢◌, ◌∙◌, refl, sym, Bool, true, false, Option, none, some, List, [], ◌∷◌, ◌++◌, ◌&&◌,
  length, str_eq, ltb, take, drop, take-length_append, drop-length_append, ◌==◌, if◌then◌else◌,
  Bool-cases, inl, inr, arith,
}
use rustdesk_server_demo.Prelude.Endian.{little, to_ne_bytes}
use rustdesk_server_demo.Codec.{BytesCodec, Decoded, head, decode, head_len_of, header_word}
use rustdesk_server_demo.Codec.Stream.{start, receive, poll, delivered}
use rustdesk_server_demo.AddrMangle.{SocketAddr, v4}
use rustdesk_server_demo.Sockets
use rustdesk_server_demo.Sockets.{System, refused, connected}
use rustdesk_server_demo.Sockets.Quiet.{attempts}
use rustdesk_server_demo.FramedStream.Connect
use rustdesk_server_demo.FramedStream.Tries.{pairs}
use rustdesk_server_demo.FramedStream.Connecting.{Ended, new-Ended}
use rustdesk_server_demo.FramedStream.{
  SecretBox, got, failed, decryption, Secured, FramedStream, get_nonce, next,
}
use rustdesk_server_demo.FramedStream.Session.{send_all, sealed, next_all, session}
use rustdesk_server_demo.FramedStream.Nonces.{out_of_turn}

same : List ℕ → List ℕ → Bool
same [] [] = true
same (x ∷ xs) (y ∷ ys) = x == y && same xs ys
same _ _ = false

same_refl : (xs : List ℕ) → same xs xs ≡ true
unfolding same
same_refl [] = refl
same_refl (x ∷ xs) = ground (arith, same_refl xs)

same_sound : (xs ys : List ℕ) → same xs ys ≡ true → xs ≡ ys
unfolding same
same_sound [] [] h = refl
same_sound [] (y ∷ ys) h = cc
same_sound (x ∷ xs) [] h = cc
same_sound (x ∷ xs) (y ∷ ys) h = ground (arith, same_sound xs ys)

-- The box writes the length of the nonce, the nonce and the message.
tag : List ℕ → List ℕ
tag n = length n ∷ n

open_tagged : List ℕ → List ℕ → Option (List ℕ)
open_tagged c n =
    if same (take (length (tag n)) c) (tag n) then some (drop (length (tag n)) c) else none

open_tagged-tag : (m n : List ℕ) → open_tagged (tag n ++ m) n ≡ some m
unfolding open_tagged
open_tagged-tag m n =
    rw (take-length_append (tag n) m, same_refl (tag n), drop-length_append (tag n) m)

front : (m n n' : List ℕ) → take (length (tag n')) (tag n ++ m) ≡ tag n' → n ≡ n'
unfolding tag
front m n n' h =
    let sizes : length n ≡ length n' = ground arith in
    let rest : take (length n') (n ++ m) ≡ n' = ground arith in
    sym (take-length_append n m) ∙ rw sizes rest

open_tagged-tag_ne : (m n n' : List ℕ) → n ≢ n' → open_tagged (tag n ++ m) n' ≡ none
unfolding open_tagged
open_tagged-tag_ne m n n' other =
    elim (Bool-cases (same (take (length (tag n')) (tag n ++ m)) (tag n'))) [
      | inl t ↦ absurd (other (front m n n' (same_sound _ _ t)))
      | inr f ↦ rw f
    ]

abbrev toy_box : SecretBox
toy_box = record {
  Key = Unit {0};
  seal = λ m n k. tag n ++ m;
  open_box = λ c n k. open_tagged c n;
  open_box-seal = λ m n k. open_tagged-tag m n;
  open_box-seal_ne = λ m n n' k h. open_tagged-tag_ne m n n' h;
}

abbrev plain : BytesCodec
plain = record { state = head; raw = false; max_packet_length = 100 }

abbrev secured : Secured (Unit {0})
secured = record { key = tt; sent = 4; received = 4 }

abbrev stream : FramedStream (Unit {0})
stream = record { codec = plain; out = []; secured = some secured }

abbrev sender : FramedStream (Unit {0})
sender = (send_all toy_box little stream ((7 ∷ []) ∷ [])).1

abbrev once : Decoded
once = decode plain sender.out

session_example :
    next_all toy_box little stream (delivered [] once.result) ≡ some (got (7 ∷ [])) ∷ []
unfolding send_all sealed decode head_len_of header_word tag to_ne_bytes
session_example =
    session toy_box little stream sender stream plain ((7 ∷ []) ∷ []) (delivered [] once.result)
      (refl, refl) refl refl refl (refl, refl) (omega arith) (poll (receive start sender.out)) refl

out_of_turn_example :
    next toy_box little stream (some (got (tag (get_nonce little 4) ++ 7 ∷ [])))
    ≡ (some (failed decryption), record stream { secured = some (record secured { received = 5 }) })
out_of_turn_example =
    out_of_turn toy_box little stream secured (7 ∷ []) 4 refl (omega arith) (omega arith)

abbrev fresh : FramedStream (Unit {0})
fresh = record { codec = plain; out = []; secured = none }

abbrev here : SocketAddr
here = v4 (0 ∷ 0 ∷ 0 ∷ 0 ∷ []) 0

abbrev closed : SocketAddr
closed = v4 (10 ∷ 0 ∷ 0 ∷ 1 ∷ []) 21117

abbrev open_one : SocketAddr
open_one = v4 (10 ∷ 0 ∷ 0 ∷ 2 ∷ []) 21117

-- The port 0 stands for the local host; the first of the others refuses.
abbrev two_hosts : System
two_hosts = record {
  accepts = λ seen call. true;
  resolves = λ seen host. some (if str_eq host "here" then here ∷ [] else closed ∷ open_one ∷ []);
  replies = λ seen local remote. if ltb (length seen) 7 then refused else connected;
}

new-Ended_example :
    let (answer, end) = Connect.new toy_box little two_hosts "there" "here" [] in
    Ended toy_box little (pairs (here ∷ []) (closed ∷ open_one ∷ [])) answer (attempts end)
new-Ended_example =
    new-Ended two_hosts "there" (closed ∷ open_one ∷ []) (λ seen. refl) toy_box little "here"
      (here ∷ []) refl

connects_run :
    attempts (Connect.new toy_box little two_hosts "there" "here" []).1
    ≡ ((here, closed), refused) ∷ ((here, open_one), connected) ∷ []
unfolding Connect.new Sockets.new_socket attempts
connects_run = refl
