-- ===== src/Protocol/RoundTrip.antt =====
-- `decode_frame` reads back what `encode_frame` wrote.
use turbobond.Base.{
  ℕ, ◌+◌, ◌%◌, ◌^◌, ◌≤◌, ◌<◌, ◌≡◌, ap, ◌∙◌, List, ◌++◌, some, arith, length, take, drop,
  take-append_of_length, drop-append_of_length, length-append, ◌⊎◌, inl, inr, dec_lt, dec_le,
}
use turbobond.Base.Words.{to_bytes, from_bytes, length-to_bytes}
use turbobond.Crypto.{Aead, IsAead, seal, open_sealed, nonce, mask64}
use turbobond.Crypto.Nonce.{mask64-mod}
use turbobond.Protocol.{
  FrameType, Header, ok, err, payload_too_big, link_id_too_big, pack_header, parse_header,
  encode_frame, open_frame, decode_frame, seq_len, tag_len, max_payload, max_datagram,
}
use turbobond.Protocol.Layout.{parse_header-pack_header, length-pack_header, masked64}

-- The masked ids of the header give the nonce that the sender used.
nonce_masked : (l c : ℕ) → l < 2 ^ 32 → nonce (l % 2 ^ 32) (c % 2 ^ 64) ≡ nonce l c
nonce_masked l c h =
    let e : l % 2 ^ 32 ≡ l = omega arith in
    let m : mask64 (c % 2 ^ 64) ≡ mask64 c = omega (arith, mask64-mod (c % 2 ^ 64), mask64-mod c) in
    ap (λ x. nonce x (c % 2 ^ 64)) e ∙ unfold nonce in cc m

module _ (a : Aead) where
  -- A datagram that was built has a payload within the limit and a link id of 32 bits, and is the
  -- header followed by the sealed sequence number and payload.
  pub encode_frame_parts :
      (t : FrameType) (s l c q : ℕ) (p d : List ℕ)
      → encode_frame a t s l c q p ≡ ok d
      → (n : List ℕ) × (nonce l c ≡ some n)
        × (l < 2 ^ 32)
        × (length p ≤ max_payload)
        × (d
            ≡ pack_header t s l c ++ a.encrypt n (to_bytes 8 (mask64 q) ++ p) (pack_header t s l c))
  unfolding encode_frame seal nonce
  encode_frame_parts t s l c q p d h = (
    to_bytes 4 l ++ to_bytes 8 (mask64 c),
    ground arith,
    ground arith,
    ground arith,
    ground arith,
  )

  -- `open_frame` on a header of 20 bytes, a ciphertext and its plaintext.
  open_frame_parts :
      (head cipher plain : List ℕ) (h : Header)
      → length head ≡ 20
      → seq_len + tag_len ≤ length cipher
      → seq_len ≤ length plain
      → open_sealed a cipher h.link_id h.counter head ≡ some plain
      → open_frame a (head ++ cipher) h
        ≡ some (record {
          type = h.type;
          session_id = h.session_id;
          link_id = h.link_id;
          counter = h.counter;
          seq = from_bytes 0 (take 8 plain);
          payload = drop 8 plain;
          version = h.version;
        })
  unfolding open_frame
  open_frame_parts head cipher plain h hl cl pl o =
      ground
        (arith, take-append_of_length 20 head cipher hl, drop-append_of_length 20 head cipher hl)

  decode_frame_of_header :
      (d : List ℕ) (h : Header) → parse_header d ≡ ok h → decode_frame a d ≡ open_frame a d h
  unfolding decode_frame
  decode_frame_of_header d h e = rw (e, decode_frame)

  open_sealed_of_nonce :
      (l c : ℕ) (n cipher head : List ℕ)
      → l < 2 ^ 32
      → nonce l c ≡ some n
      → open_sealed a cipher (l % 2 ^ 32) (c % 2 ^ 64) head ≡ a.decrypt n cipher head
  unfolding open_sealed
  open_sealed_of_nonce l c n cipher head fits e = rw (nonce_masked l c fits ∙ e, open_sealed)

  -- A datagram that `encode_frame` built decodes, under the same key, to the frame that was put in:
  -- its type, link id, payload and the protocol's version as they were, its session id modulo 2^32,
  -- its counter and sequence number modulo 2^64.
  pub decode_frame-encode_frame :
      (i : IsAead a) (t : FrameType) (s l c q : ℕ) (p d : List ℕ)
      → encode_frame a t s l c q p ≡ ok d
      → decode_frame a d
        ≡ some (record {
          type = t;
          session_id = s % 2 ^ 32;
          link_id = l;
          counter = c % 2 ^ 64;
          seq = q % 2 ^ 64;
          payload = p;
          version = 1;
        })
  decode_frame-encode_frame i t s l c q p d h =
      let (n, hn, fits, small, e) = encode_frame_parts t s l c q p d h in
      let head = pack_header t s l c in
      let plain = to_bytes 8 (mask64 q) ++ p in
      let cipher = a.encrypt n plain head in
      let parsed = parse_header-pack_header t s l c cipher in
      let opened : open_sealed a cipher (l % 2 ^ 32) (c % 2 ^ 64) head ≡ some plain =
        open_sealed_of_nonce l c n cipher head fits hn ∙ i.opens n plain head in
      let size : length plain ≡ 8 + length p =
        omega (arith, length-append (to_bytes 8 (mask64 q)) p, length-to_bytes 8 (mask64 q)) in
      let same_link : l % 2 ^ 32 ≡ l = omega arith in
      ap (decode_frame a) e
      ∙ decode_frame_of_header _ _ parsed
      ∙ open_frame_parts head cipher plain _ (length-pack_header t s l c)
          (omega (arith, i.length-encrypt n plain head, size)) (omega (arith, size)) opened
      ∙ cc (
        masked64 q,
        same_link,
        ap (from_bytes 0) (take-append_of_length 8 _ p (length-to_bytes 8 (mask64 q))),
        drop-append_of_length 8 _ p (length-to_bytes 8 (mask64 q)),
      )

  -- A datagram that `encode_frame` built is 44 bytes longer than its payload, so it is at most
  -- MAX_DATAGRAM, the size that receivers read.
  pub length-encode_frame :
      (i : IsAead a) (t : FrameType) (s l c q : ℕ) (p d : List ℕ)
      → encode_frame a t s l c q p ≡ ok d
      → (length d ≡ 44 + length p) × (length d ≤ max_datagram)
  length-encode_frame i t s l c q p d h =
      let (n, hn, fits, small, e) = encode_frame_parts t s l c q p d h in
      let head = pack_header t s l c in
      let plain = to_bytes 8 (mask64 q) ++ p in
      let size : length d ≡ 44 + length p = omega (
        arith,
        ap length e,
        length-append head (a.encrypt n plain head),
        length-pack_header t s l c,
        i.length-encrypt n plain head,
        length-append (to_bytes 8 (mask64 q)) p,
        length-to_bytes 8 (mask64 q),
      ) in
      (size, omega arith)

-- `encode_frame` answers on every input: the payload is too long, or else the link id does not fit
-- 32 bits, or else there is a datagram.
pub encode_frame_cases :
    (a : Aead) (t : FrameType) (s l c q : ℕ) (p : List ℕ)
    → (encode_frame a t s l c q p ≡ err payload_too_big) × (max_payload < length p)
      ⊎ (encode_frame a t s l c q p ≡ err link_id_too_big) × (length p ≤ max_payload) × (2 ^ 32 ≤ l)
      ⊎ ((d : List ℕ) × (encode_frame a t s l c q p ≡ ok d))
        × (length p ≤ max_payload)
        × (l < 2 ^ 32)
unfolding encode_frame seal nonce
encode_frame_cases a t s l c q p = elim (dec_le (length p) max_payload) [
  | no big ↦ inl (ground arith, omega arith)
  | yes small ↦ elim (dec_lt l (2 ^ 32)) [
    | no wide ↦ inr (inl (ground arith, small, omega arith))
    | yes fits ↦ inr (
        inr (
          (
            pack_header t s l c
                ++ a.encrypt (to_bytes 4 l ++ to_bytes 8 (mask64 c)) (to_bytes 8 (mask64 q) ++ p)
                    (pack_header t s l c),
            ground arith,
          ),
          small,
          fits,
        ))
  ]
]
