-- ===== src/Tests/Framing.antt =====
-- Frames, streams and ciphers at concrete bytes.
use nautilus_futu.Prelude.{
  take, err, get_or, ap, length-replicate, ℕ, ◌≡◌, ◌≢◌, refl, List, [], ◌∷◌, ◌++◌, none, some, ok,
  arith, map, concat, length, bytes_eq, replicate, ltb→lt,
}
use nautilus_futu.Prelude.Text.{ascii}
use nautilus_futu.Protocol.Header
use nautilus_futu.Protocol.Header.{PacketHeader, put_slice, new, slice, fields, verify_body}
use nautilus_futu.Protocol.Header.RoundTrip.{IsWide, decode-encode_header}
use nautilus_futu.Protocol.Sha1.{Sha1}
use nautilus_futu.Protocol.Codec.{
  FutuMessage, checksum_mismatch, decode, encode, peeked, with_body_len, take_frame, finish,
}
use nautilus_futu.Protocol.Codec.Damage.{decode_altered, decode_truncated}
use nautilus_futu.Protocol.Codec.RoundTrip.{decode-encode}
use nautilus_futu.Protocol.Codec.Growth.{and_more, decode-append}
use nautilus_futu.Protocol.Codec.Sound.{Reads, decode-Reads}
use nautilus_futu.Protocol.Codec.Stream.{waiting, drain, drain_fuel, read_all}
use nautilus_futu.Protocol.Codec.Stream.Chunks.{
  AllSendable, encode_all, read_chunks, read_chunks-encode_all, read_chunks-eq-read_all,
}
use nautilus_futu.Protocol.Encryption.{
  encrypt, decrypt, pad, each_chunk, unpad, unpad_by, get_last?, all_equal,
}
use nautilus_futu.Protocol.Encryption.RoundTrip.{decrypt-encrypt, encrypt-decrypt, length-encrypt}
use nautilus_futu.Client.Connection.{outgoing, body_to_send, recv}
use nautilus_futu.Client.Connection.Delivery.{sent, recv_all, recv_all-read_chunks, recv-outgoing}
use nautilus_futu.Tests.Samples.{sha1, aes, cipher, ciphered, message}

abbrev two : List FutuMessage
two = message 1001 1 (5 ∷ 6 ∷ 7 ∷ []) ∷ message 1004 70000 [] ∷ []

-- The bytes of the first message's frame.
abbrev frame1 : List ℕ
frame1 =
    ascii "FT"
    ++ (233 ∷ 3 ∷ 0 ∷ 0 ∷ 0 ∷ 0 ∷ 1 ∷ 0 ∷ 0 ∷ 0 ∷ 3 ∷ 0 ∷ 0 ∷ 0 ∷ 3 ∷ 3 ∷ 3 ∷ 3 ∷ 3 ∷ 3 ∷ 3 ∷ 3 ∷ 3
        ∷ 3 ∷ 3 ∷ 3 ∷ 3 ∷ 3 ∷ 3 ∷ 3 ∷ 3 ∷ 3 ∷ 3 ∷ 3 ∷ 0 ∷ 0 ∷ 0 ∷ 0 ∷ 0 ∷ 0 ∷ 0 ∷ 0 ∷ 5 ∷ 6 ∷ 7
        ∷ [])

abbrev frame2 : List ℕ
frame2 =
    ascii "FT"
    ++ (236 ∷ 3 ∷ 0 ∷ 0 ∷ 0 ∷ 0 ∷ 112 ∷ 17 ∷ 1 ∷ 0 ∷ 0 ∷ 0 ∷ 0 ∷ 0 ∷ 0 ∷ 0 ∷ 0 ∷ 0 ∷ 0 ∷ 0 ∷ 0 ∷ 0
        ∷ 0 ∷ 0 ∷ 0 ∷ 0 ∷ 0 ∷ 0 ∷ 0 ∷ 0 ∷ 0 ∷ 0 ∷ 0 ∷ 0 ∷ 0 ∷ 0 ∷ 0 ∷ 0 ∷ 0 ∷ 0 ∷ 0 ∷ 0 ∷ [])

-- They arrive in three chunks, one of which ends within a header.
abbrev chunks : List (List ℕ)
chunks =
    ascii "F"
    ∷ (Header.slice 1 47 frame1 ++ Header.slice 0 5 frame2)
    ∷ Header.slice 5 44 frame2
    ∷ []

two-AllSendable : AllSendable two
two-AllSendable = (
  record { proto_id = omega arith; serial_no = omega arith; body = omega arith },
  (record { proto_id = omega arith; serial_no = omega arith; body = omega arith }, tt),
)

chunks-encode_all : concat chunks ≡ encode_all sha1 two []
unfolding encode_all encode new Header.encode
chunks-encode_all = refl

read_chunks-encode_all_example :
    read_chunks sha1 (waiting []) chunks ≡ record { messages = two; error = none; buffer = [] }
read_chunks-encode_all_example =
    read_chunks-encode_all sha1 two chunks two-AllSendable chunks-encode_all

read_chunks-eq-read_all_example :
    ((read_chunks sha1 (waiting []) chunks).messages ≡ (read_all sha1 (concat chunks)).messages)
    × ((read_chunks sha1 (waiting []) chunks).error ≡ (read_all sha1 (concat chunks)).error)
read_chunks-eq-read_all_example = read_chunks-eq-read_all sha1 chunks

decode_two : decode sha1 (frame1 ++ frame2) ≡ (ok (some (message 1001 1 (5 ∷ 6 ∷ 7 ∷ []))), frame2)
unfolding decode peeked with_body_len take_frame finish Header.decode fields verify_body bytes_eq
decode_two = refl

decode-Reads_example : Reads sha1 (frame1 ++ frame2) (message 1001 1 (5 ∷ 6 ∷ 7 ∷ [])) frame2
decode-Reads_example =
    decode-Reads sha1 (frame1 ++ frame2) (message 1001 1 (5 ∷ 6 ∷ 7 ∷ [])) frame2 decode_two

decode-encode_example :
    decode sha1 (encode sha1 (message 1004 70000 (8 ∷ [])) [] ++ frame1)
    ≡ (ok (some (message 1004 70000 (8 ∷ []))), frame1)
decode-encode_example =
    decode-encode sha1 (message 1004 70000 (8 ∷ [])) frame1
      (record { proto_id = omega arith; serial_no = omega arith; body = omega arith })

decode_truncated_example :
    decode sha1 (take 45 (encode sha1 (message 1001 1 (5 ∷ 6 ∷ 7 ∷ [])) []))
    ≡ (ok none, take 45 (encode sha1 (message 1001 1 (5 ∷ 6 ∷ 7 ∷ [])) []))
unfolding encode new Header.encode
decode_truncated_example =
    decode_truncated sha1 (message 1001 1 (5 ∷ 6 ∷ 7 ∷ [])) 45
      (record { proto_id = omega arith; serial_no = omega arith; body = omega arith })
      (ltb→lt 45 (length (encode sha1 (message 1001 1 (5 ∷ 6 ∷ 7 ∷ [])) [])) refl)

-- Twenty times the first byte.
abbrev first_byte : Sha1
first_byte = record {
  digest = λ body. replicate 20 (get_or body 0 0);
  length-digest = λ body. length-replicate 20 (get_or body 0 0);
}

decode_altered_example :
    decode first_byte
      (Header.encode (new first_byte 1001 1 (5 ∷ 6 ∷ 7 ∷ [])) [] ++ ((9 ∷ 6 ∷ 7 ∷ []) ++ frame1))
    ≡ (err (checksum_mismatch 1001 1), frame1)
decode_altered_example =
    decode_altered first_byte (message 1001 1 (5 ∷ 6 ∷ 7 ∷ [])) (9 ∷ 6 ∷ 7 ∷ []) frame1
      (record { proto_id = omega arith; serial_no = omega arith; body = omega arith }) refl
      (λ e. omega (arith, ap (λ l. get_or l 0 0) e))

one_decoded : decode sha1 frame1 ≡ (ok (some (message 1001 1 (5 ∷ 6 ∷ 7 ∷ []))), [])
unfolding decode peeked with_body_len take_frame finish Header.decode fields verify_body bytes_eq
one_decoded = refl

one_is_read : (decode sha1 frame1).0 ≢ ok none
one_is_read e = let d = one_decoded in cc

decode-append_example : decode sha1 (frame1 ++ frame2) ≡ and_more (decode sha1 frame1) frame2
decode-append_example = decode-append sha1 frame1 frame2 one_is_read

drain_fuel_example : drain sha1 92 (frame1 ++ frame2) ≡ drain sha1 1000 (frame1 ++ frame2)
drain_fuel_example =
    drain_fuel sha1 92 1000 (frame1 ++ frame2) (ltb→lt (length (frame1 ++ frame2)) 92 refl)
      (ltb→lt (length (frame1 ++ frame2)) 1000 refl)

the_header : PacketHeader
the_header = new sha1 3001 70000 (1 ∷ 2 ∷ [])

the_header-IsWide : IsWide the_header
unfolding the_header new
the_header-IsWide = record {
  proto_id = omega arith;
  serial_no = omega arith;
  body_len = omega arith;
  body_sha1 = refl;
}

decode-encode_header_example :
    Header.decode (Header.encode the_header [] ++ (1 ∷ 2 ∷ [])) ≡ (ok the_header, 1 ∷ 2 ∷ [])
decode-encode_header_example = decode-encode_header the_header the_header-IsWide (1 ∷ 2 ∷ [])

decrypt-encrypt_example :
    decrypt aes cipher (encrypt aes cipher (ascii "seventeen letters"))
    ≡ ok (ascii "seventeen letters")
decrypt-encrypt_example = decrypt-encrypt aes cipher (ascii "seventeen letters")

length-encrypt_example : length (encrypt aes cipher (ascii "seventeen letters")) ≡ 32
length-encrypt_example = length-encrypt aes cipher (ascii "seventeen letters")

-- The ciphertext of one letter.
abbrev secret : List ℕ
secret = 15 ∷ 97 ∷ replicate 14 15

secret_text : decrypt aes cipher secret ≡ ok (ascii "a")
unfolding decrypt each_chunk unpad unpad_by get_last? all_equal
secret_text = refl

encrypt-decrypt_example : encrypt aes cipher (ascii "a") ≡ secret
encrypt-decrypt_example = encrypt-decrypt aes cipher secret (ascii "a") secret_text

recv-outgoing_example :
    recv aes (some (ok (outgoing aes ciphered 3001 (ascii "text") 70000))) ciphered
    ≡ (ok (message 3001 70000 (ascii "text")), ciphered)
recv-outgoing_example = recv-outgoing aes ciphered ciphered 3001 70000 (ascii "text") refl

-- The body is 16 bytes of ciphertext, and the stream is cut within its header.
abbrev whole : List ℕ
whole = encode_all sha1 (map (sent aes ciphered) (message 3001 1 (ascii "a") ∷ [])) []

abbrev pieces : List (List ℕ)
pieces = slice 0 30 whole ∷ slice 30 60 whole ∷ []

pieces-concat : concat pieces ≡ whole
unfolding encode_all encode new Header.encode outgoing body_to_send encrypt each_chunk pad
pieces-concat = refl

sent-AllSendable : AllSendable (map (sent aes ciphered) (message 3001 1 (ascii "a") ∷ []))
unfolding outgoing body_to_send encrypt each_chunk pad
sent-AllSendable =
    (record { proto_id = omega arith; serial_no = omega arith; body = omega arith }, tt)

recv_all-read_chunks_example :
    recv_all aes (read_chunks sha1 (waiting []) pieces).messages ciphered
    ≡ (ok (message 3001 1 (ascii "a")) ∷ [], ciphered)
recv_all-read_chunks_example =
    recv_all-read_chunks aes sha1 ciphered ciphered (message 3001 1 (ascii "a") ∷ []) pieces refl
      sent-AllSendable pieces-concat
