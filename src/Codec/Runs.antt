-- ===== src/Codec/Runs.antt =====
-- The tests of bytes_codec.rs at small sizes, and the theorems at concrete inputs.
use rustdesk_server_demo.Prelude.{
  ℕ, ◌+◌, ◌-◌, ◌^◌, ◌≤◌, ◌≡◌, ◌≢◌, refl, false, none, some, List, [], ◌∷◌, ◌++◌, length, replicate,
  arith,
}
use rustdesk_server_demo.Codec.{
  BytesCodec, head, body, ok, err, Error, invalid_data, Decoded, new, decode, encode,
  set_max_packet_length, head_len_of, header_word,
}
use rustdesk_server_demo.Codec.Resume.{resume, decode-append}
use rustdesk_server_demo.Codec.Stream.{start, receive, poll, delivered}
use rustdesk_server_demo.Codec.RoundTrip.{
  encode_all, decode-encode, Reader-in_order, Reader-complete,
}
use rustdesk_server_demo.Codec.Errors.{Encoded, encode_error, decode_error}

abbrev plain : BytesCodec
plain = record { state = head; raw = false; max_packet_length = 100 }

abbrev strict : BytesCodec
strict = record { state = head; raw = false; max_packet_length = 1 }

abbrev first_frame : List ℕ
first_frame = 8 ∷ 7 ∷ 9 ∷ []

abbrev both_frames : List ℕ
both_frames = 8 ∷ 7 ∷ 9 ∷ 4 ∷ 5 ∷ []

abbrev messages : List (List ℕ)
messages = (7 ∷ 9 ∷ []) ∷ (5 ∷ []) ∷ []

encode_both : encode_all plain messages [] ≡ (ok tt, both_frames)
unfolding encode_all
encode_both = refl

-- test_codec1: a frame whose bytes come one by one.
abbrev ones : List ℕ
ones = replicate 0x3F 1

test_codec1 : encode new ones [] ≡ (ok tt, 0xFC ∷ ones)
unfolding encode new
test_codec1 = refl

test_codec1_split :
    (decode new (0xFC ∷ []) ≡ record {
      result = ok none;
      codec = record plain { state = body 0x3F; max_packet_length = 2 ^ 64 - 1 };
      buffer = [];
    })
    × ((decode (record plain { state = body 0x3F }) ones).result ≡ ok (some ones))
unfolding decode new head_len_of header_word
test_codec1_split = (refl, refl)

-- test_codec2: an empty frame, and one with a header of two bytes.
test_codec2 :
    (encode new [] [] ≡ (ok tt, 0 ∷ []))
    × (encode new (replicate 0x40 2) [] ≡ (ok tt, 0x01 ∷ 0x01 ∷ replicate 0x40 2))
    × ((decode new (0x01 ∷ 0x01 ∷ replicate 0x40 2)).result ≡ ok (some (replicate 0x40 2)))
unfolding encode decode new head_len_of header_word
test_codec2 = (refl, refl, refl)

too_big : (decode strict first_frame).result ≡ err invalid_data
unfolding decode head_len_of header_word
too_big = refl

limits : (set_max_packet_length new 1).max_packet_length ≡ 1
unfolding set_max_packet_length
limits = refl

decode-encode_example :
    (written : List ℕ) × (encode plain (7 ∷ 9 ∷ []) (1 ∷ []) ≡ (ok tt, 1 ∷ written))
    × (2 + 1 ≤ length written)
    × (length written ≤ 2 + 4)
    × (decode plain (written ++ 3 ∷ [])
        ≡ record { result = ok (some (7 ∷ 9 ∷ [])); codec = plain; buffer = 3 ∷ [] })
decode-encode_example =
    decode-encode plain plain (7 ∷ 9 ∷ []) (1 ∷ []) (3 ∷ []) refl (refl, refl) (omega arith)
      (omega arith)

Reader-in_order_example :
    (rest : List (List ℕ)) × (delivered [] (decode plain first_frame).result ++ rest ≡ messages)
    × ((e : Error)
        → (decode (decode plain first_frame).codec (decode plain first_frame).buffer).result
          ≢ err e)
unfolding encode_all
Reader-in_order_example =
    Reader-in_order plain plain messages refl (refl, refl) (omega arith)
      (poll (receive start first_frame)) (4 ∷ 5 ∷ []) refl

abbrev once : Decoded
once = decode plain both_frames

abbrev twice : Decoded
twice = decode once.codec once.buffer

Reader-complete_example : delivered (delivered [] once.result) twice.result ≡ messages
unfolding encode_all decode head_len_of header_word
Reader-complete_example =
    Reader-complete plain plain messages refl (refl, refl) (omega arith)
      (poll (poll (receive start both_frames))) refl refl

decode-append_example :
    decode plain both_frames ≡ resume (decode plain (8 ∷ [])) (7 ∷ 9 ∷ 4 ∷ 5 ∷ [])
decode-append_example = decode-append plain (8 ∷ []) (7 ∷ 9 ∷ 4 ∷ 5 ∷ []) refl

encode_error_example : Encoded plain (7 ∷ []) (1 ∷ []) (encode plain (7 ∷ []) (1 ∷ []))
encode_error_example = encode_error plain (7 ∷ []) (1 ∷ [])

decode_error_example :
    ((decode strict first_frame).codec ≡ strict)
    × ((decode strict first_frame).buffer ≡ first_frame)
    × (◌≡◌ {A = Error} invalid_data invalid_data)
    × ((more : List ℕ)
        → decode strict (first_frame ++ more)
          ≡ record { result = err invalid_data; codec = strict; buffer = first_frame ++ more })
decode_error_example = decode_error strict first_frame invalid_data refl too_big
