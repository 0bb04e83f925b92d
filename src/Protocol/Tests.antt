-- ===== src/Protocol/Tests.antt =====
-- A keepalive with a three-byte payload, and the theorems of the wire format at it.
use turbobond.Base.{ℕ, ◌+◌, ◌≤◌, ◌<◌, ◌^◌, ◌≡◌, refl, List, [], ◌∷◌, ◌++◌, some, arith, length, ◌⊎◌}
use turbobond.Base.{bytes_eq}
use turbobond.Base.Words.{to_bytes, from_bytes}
use turbobond.Crypto.{seal, open_sealed, nonce}
use turbobond.Crypto.Example.{zero_tag, zero_tag-IsAead, add_tag, strip_tag}
use turbobond.Protocol.{
  keepalive, Frame, ok, err, too_short, payload_too_big, link_id_too_big, pack_header, parse_header,
  frame_type_of, encode_frame, decode_frame, open_frame, max_datagram, max_payload,
}
use turbobond.Protocol.Layout.{parse_header-pack_header}
use turbobond.Protocol.RoundTrip.{
  decode_frame-encode_frame, length-encode_frame, encode_frame_cases,
}
use turbobond.Protocol.Authentic.{decode_frame_exact}

abbrev sample : List ℕ
sample =
    b'T' ∷ b'B' ∷ 1 ∷ 2 ∷ 0 ∷ 0 ∷ 0 ∷ 9 ∷ 0 ∷ 0 ∷ 0 ∷ 4 ∷ 0 ∷ 0 ∷ 0 ∷ 0 ∷ 0 ∷ 0 ∷ 0 ∷ 7 ∷ 0 ∷ 0 ∷ 0
    ∷ 0 ∷ 0 ∷ 0 ∷ 0 ∷ 0 ∷ 0 ∷ 0 ∷ 0 ∷ 0 ∷ 0 ∷ 0 ∷ 0 ∷ 0 ∷ 0 ∷ 0 ∷ 0 ∷ 0 ∷ 0 ∷ 0 ∷ 0 ∷ 5 ∷ 1 ∷ 2 ∷ 3
    ∷ []

abbrev three : List ℕ
three = 1 ∷ 2 ∷ 3 ∷ []

abbrev sample_frame : Frame
sample_frame = record {
  type = keepalive;
  session_id = 9;
  link_id = 4;
  counter = 7;
  seq = 5;
  payload = three;
  version = 1;
}

sample_encoded : encode_frame zero_tag keepalive 9 4 7 5 three ≡ ok sample
unfolding encode_frame seal nonce to_bytes pack_header add_tag
sample_encoded = refl

sample_decoded : decode_frame zero_tag sample ≡ some sample_frame
unfolding decode_frame parse_header open_frame open_sealed nonce to_bytes from_bytes strip_tag
    bytes_eq frame_type_of
sample_decoded = refl

cut_short : parse_header (b'T' ∷ b'B' ∷ []) ≡ err too_short
unfolding parse_header
cut_short = refl

decode_frame-encode_frame_example : decode_frame zero_tag sample ≡ some sample_frame
decode_frame-encode_frame_example =
    decode_frame-encode_frame zero_tag zero_tag-IsAead keepalive 9 4 7 5 three sample sample_encoded

decode_frame_exact_example : encode_frame zero_tag keepalive 9 4 7 5 three ≡ ok sample
decode_frame_exact_example =
    decode_frame_exact zero_tag zero_tag-IsAead sample sample_frame (omega arith) sample_decoded
      (omega arith)

length-encode_frame_example : (length sample ≡ 47) × (length sample ≤ max_datagram)
length-encode_frame_example =
    length-encode_frame zero_tag zero_tag-IsAead keepalive 9 4 7 5 three sample sample_encoded

parse_header-pack_header_example :
    parse_header (pack_header keepalive (2 ^ 32 + 9) 4 7 ++ three)
    ≡ ok (record { type = keepalive; session_id = 9; link_id = 4; counter = 7; version = 1 })
parse_header-pack_header_example = parse_header-pack_header keepalive (2 ^ 32 + 9) 4 7 three

encode_frame_cases_example :
    (encode_frame zero_tag keepalive 9 4 7 5 three ≡ err payload_too_big)
      × (max_payload < length three)
    ⊎ (encode_frame zero_tag keepalive 9 4 7 5 three ≡ err link_id_too_big)
      × (length three ≤ max_payload)
      × (2 ^ 32 ≤ 4)
    ⊎ ((d : List ℕ) × (encode_frame zero_tag keepalive 9 4 7 5 three ≡ ok d))
      × (length three ≤ max_payload)
      × (4 < 2 ^ 32)
encode_frame_cases_example = encode_frame_cases zero_tag keepalive 9 4 7 5 three
