-- ===== src/Protocol/Layout.antt =====
-- `pack_header` and `parse_header` are inverse to one another.
use turbobond.Base.{
  ℕ, ◌+◌, ◌%◌, ◌^◌, ◌≡◌, refl, ap, ◌∙◌, sym, List, [], ◌∷◌, ◌++◌, append_assoc, append-nil,
  bytes_eq, some, arith, length, take-append_of_length, drop-append_of_length, length-append,
}
use turbobond.Base.Bits.{bit_and_ones}
use turbobond.Base.Words.{to_bytes, from_bytes, length-to_bytes, from_bytes-to_bytes}
use turbobond.Crypto.Nonce.{mask64-mod}
use turbobond.Crypto.{mask64}
use turbobond.Protocol.{
  FrameType, data_frame, type_code, frame_type_of, ok, pack_header, parse_header, mask32,
}

pub mask32-mod : (x : ℕ) → mask32 x ≡ x % 2 ^ 32
mask32-mod x = bit_and_ones 32 x

-- The six fields of a header, then the rest of a datagram.
abbrev pub layout : FrameType → List ℕ → List ℕ → List ℕ → List ℕ → List ℕ
layout t s l c rest = b'T' ∷ b'B' ∷ 1 ∷ type_code t ∷ (s ++ (l ++ (c ++ rest)))

frame_type_of-type_code : (t : FrameType) → frame_type_of (type_code t) ≡ some t
unfolding frame_type_of
frame_type_of-type_code data_frame = refl
frame_type_of-type_code _ = refl

length-layout :
    (t : FrameType) (s l c rest : List ℕ)
    → length s ≡ 4
    → length l ≡ 4
    → length c ≡ 8
    → length (layout t s l c rest) ≡ 20 + length rest
length-layout t s l c rest hs hl hc =
    omega
      (arith, length-append s (l ++ (c ++ rest)), length-append l (c ++ rest), length-append c rest)

parse_header-layout :
    (t : FrameType) (s l c rest : List ℕ)
    → length s ≡ 4
    → length l ≡ 4
    → length c ≡ 8
    → parse_header (layout t s l c rest)
      ≡ ok (record {
        type = t;
        session_id = from_bytes 0 s;
        link_id = from_bytes 0 l;
        counter = from_bytes 0 c;
        version = 1;
      })
unfolding parse_header bytes_eq from_bytes
parse_header-layout t s l c rest hs hl hc = ground (
  arith,
  length-layout t s l c rest hs hl hc,
  frame_type_of-type_code t,
  take-append_of_length 4 s (l ++ (c ++ rest)) hs,
  drop-append_of_length 4 s (l ++ (c ++ rest)) hs,
  take-append_of_length 4 l (c ++ rest) hl,
  drop-append_of_length 4 l (c ++ rest) hl,
  take-append_of_length 8 c rest hc,
)

pub pack_header-layout :
    (t : FrameType) (s l c : ℕ) (rest : List ℕ)
    → pack_header t s l c ++ rest
      ≡ layout t (to_bytes 4 (mask32 s)) (to_bytes 4 (mask32 l)) (to_bytes 8 (mask64 c)) rest
unfolding pack_header
pack_header-layout t s l c rest =
    ap (λ x. b'T' ∷ b'B' ∷ 1 ∷ type_code t ∷ x)
      (append_assoc (to_bytes 4 (mask32 s)) _ rest
        ∙ ap (◌++◌ (to_bytes 4 (mask32 s))) (append_assoc (to_bytes 4 (mask32 l)) _ rest))

pub length-pack_header : (t : FrameType) (s l c : ℕ) → length (pack_header t s l c) ≡ 20
length-pack_header t s l c =
    ap length (sym (append-nil (pack_header t s l c)) ∙ pack_header-layout t s l c [])
    ∙ length-layout t _ _ _ [] (length-to_bytes 4 _) (length-to_bytes 4 _) (length-to_bytes 8 _)

masked32 : (x : ℕ) → from_bytes 0 (to_bytes 4 (mask32 x)) ≡ x % 2 ^ 32
masked32 x = from_bytes-to_bytes 4 (mask32 x) (omega (arith, mask32-mod x)) ∙ mask32-mod x

pub masked64 : (x : ℕ) → from_bytes 0 (to_bytes 8 (mask64 x)) ≡ x % 2 ^ 64
masked64 x = from_bytes-to_bytes 8 (mask64 x) (omega (arith, mask64-mod x)) ∙ mask64-mod x

-- Parsing a packed header, whatever follows it, gives back its type, its session and link ids modulo
-- 2^32, its counter modulo 2^64 and the protocol's version.
pub parse_header-pack_header :
    (t : FrameType) (s l c : ℕ) (rest : List ℕ)
    → parse_header (pack_header t s l c ++ rest)
      ≡ ok (record {
        type = t;
        session_id = s % 2 ^ 32;
        link_id = l % 2 ^ 32;
        counter = c % 2 ^ 64;
        version = 1;
      })
parse_header-pack_header t s l c rest =
    ap parse_header (pack_header-layout t s l c rest)
    ∙ parse_header-layout t _ _ _ rest (length-to_bytes 4 _) (length-to_bytes 4 _)
        (length-to_bytes 8 _)
    ∙ cc (masked32 s, masked32 l, masked64 c)
