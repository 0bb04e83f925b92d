-- ===== src/Protocol/Authentic.antt =====
-- What a datagram that decodes must have been.
use turbobond.Base.{
  ℕ, ◌^◌, ◌≤◌, ◌<◌, ◌≡◌, ap, ◌∙◌, sym, List, [], ◌∷◌, ◌++◌, some, arith, length, take, drop,
  take-drop, drop-drop, length-take, length-drop, All, All-take, All-drop, bytes_eq→eq, subst,
  Option-cases, inl, inr, take-append_of_length,
}
use turbobond.Base.Words.{to_bytes, from_bytes, IsByte, to_bytes-from_bytes, from_bytes_fits}
use turbobond.Crypto.{Aead, IsAead, seal, open_sealed, nonce, mask64}
use turbobond.Crypto.Nonce.{mask64-mod}
use turbobond.Protocol.{
  FrameType, Frame, Header, ok, type_code, frame_type_of, pack_header, parse_header, Result-cases,
  encode_frame, open_frame, decode_frame, max_payload, mask32,
}
use turbobond.Protocol.Layout.{pack_header-layout, length-pack_header, mask32-mod}

type_code-frame_type_of : (n : ℕ) (t : FrameType) → frame_type_of n ≡ some t → n ≡ type_code t
unfolding frame_type_of
type_code-frame_type_of n t h = ground arith

-- The fields of a header that parses, for a datagram of at least four bytes.
abbrev Parsed : List ℕ → Header → Type 0
Parsed d h =
    (20 ≤ length d)
    × (take 4 d ≡ b'T' ∷ b'B' ∷ 1 ∷ type_code h.type ∷ [])
    × (h.session_id ≡ from_bytes 0 (take 4 (drop 4 d)))
    × (h.link_id ≡ from_bytes 0 (take 4 (drop 4 (drop 4 d))))
    × (h.counter ≡ from_bytes 0 (take 8 (drop 4 (drop 4 (drop 4 d)))))

parse_header-Parsed : (d : List ℕ) (h : Header) → parse_header d ≡ ok h → Parsed d h
unfolding parse_header from_bytes
parse_header-Parsed [] h e = cc
parse_header-Parsed (x ∷ []) h e = cc
parse_header-Parsed (x ∷ y ∷ []) h e = cc
parse_header-Parsed (x ∷ y ∷ v ∷ []) h e = cc
parse_header-Parsed (x ∷ y ∷ v ∷ t ∷ r) h e =
    ground (arith, bytes_eq→eq (x ∷ y ∷ []) (b'T' ∷ b'B' ∷ []), type_code-frame_type_of t h.type)

-- A datagram is its first 20 bytes, field by field, and the rest.
fields_of :
    (d : List ℕ)
    → take 4 d
        ++ (take 4 (drop 4 d)
            ++ (take 4 (drop 4 (drop 4 d)) ++ (take 8 (drop 4 (drop 4 (drop 4 d))) ++ drop 20 d)))
      ≡ d
fields_of d =
    let r4 = drop 4 d in
    let r8 = drop 4 r4 in
    let r12 = drop 4 r8 in
    let last : drop 8 r12 ≡ drop 20 d =
      ap (λ x. drop 8 (drop 4 x)) (drop-drop 4 4 d)
      ∙ ap (drop 8) (drop-drop 8 4 d)
      ∙ drop-drop 12 8 d in
    ap (λ x. take 4 d ++ (take 4 r4 ++ (take 4 r8 ++ (take 8 r12 ++ x)))) (sym last)
    ∙ ap (λ x. take 4 d ++ (take 4 r4 ++ (take 4 r8 ++ x))) (take-drop 8 r12)
    ∙ ap (λ x. take 4 d ++ (take 4 r4 ++ x)) (take-drop 4 r8)
    ∙ ap (λ x. take 4 d ++ x) (take-drop 4 r4)
    ∙ take-drop 4 d

-- A field of `n` bytes that was read: its range, and its bytes written again.
module _ (n : ℕ) (xs : List ℕ) (a : All IsByte xs) (h : n ≤ length xs) where
  field_again : to_bytes n (from_bytes 0 (take n xs)) ≡ take n xs
  field_again = to_bytes-from_bytes n (take n xs) (length-take n xs h) (All-take IsByte n xs a)

  field_fits : from_bytes 0 (take n xs) < 256 ^ n
  field_fits =
      subst (λ k. from_bytes 0 (take n xs) < 256 ^ k) (length-take n xs h)
        (from_bytes_fits (take n xs) (All-take IsByte n xs a))

masked32_again :
    (x : ℕ) (xs : List ℕ)
    → All IsByte xs
    → 4 ≤ length xs
    → x ≡ from_bytes 0 (take 4 xs)
    → (x < 2 ^ 32) × (to_bytes 4 (mask32 x) ≡ take 4 xs)
masked32_again x xs a h e =
    let fits : x < 2 ^ 32 = omega (arith, field_fits 4 xs a h) in
    let same : mask32 x ≡ from_bytes 0 (take 4 xs) = omega (arith, mask32-mod x) in
    (fits, ap (to_bytes 4) same ∙ field_again 4 xs a h)

masked64_again :
    (x : ℕ) (xs : List ℕ)
    → All IsByte xs
    → 8 ≤ length xs
    → x ≡ from_bytes 0 (take 8 xs)
    → (x < 2 ^ 64) × (to_bytes 8 (mask64 x) ≡ take 8 xs)
masked64_again x xs a h e =
    let fits : x < 2 ^ 64 = omega (arith, field_fits 8 xs a h) in
    let same : mask64 x ≡ from_bytes 0 (take 8 xs) = omega (arith, mask64-mod x) in
    (fits, ap (to_bytes 8) same ∙ field_again 8 xs a h)

-- A header that parses is the packing of what was parsed, and the ids fit their widths.
pub parse_header_exact :
    (d : List ℕ) (h : Header)
    → All IsByte d
    → parse_header d ≡ ok h
    → (20 ≤ length d)
      × (h.link_id < 2 ^ 32)
      × (h.counter < 2 ^ 64)
      × (pack_header h.type h.session_id h.link_id h.counter ++ drop 20 d ≡ d)
parse_header_exact d h a e =
    let (long, first, hs, hl, hc) = parse_header-Parsed d h e in
    let r4 = drop 4 d in
    let r8 = drop 4 r4 in
    let r12 = drop 4 r8 in
    let n4 = length-drop 4 d in
    let n8 = length-drop 4 r4 in
    let n12 = length-drop 4 r8 in
    let a4 = All-drop IsByte 4 d a in
    let a8 = All-drop IsByte 4 r4 a4 in
    let a12 = All-drop IsByte 4 r8 a8 in
    let (fs, es) = masked32_again h.session_id r4 a4 (omega arith) hs in
    let (fl, el) = masked32_again h.link_id r8 a8 (omega arith) hl in
    let (fc, ec) = masked64_again h.counter r12 a12 (omega arith) hc in
    let tail = take 4 r4 ++ (take 4 r8 ++ (take 8 r12 ++ drop 20 d)) in
    (
      long,
      fl,
      fc,
      pack_header-layout h.type h.session_id h.link_id h.counter (drop 20 d)
          ∙ cc (es, el, ec)
          ∙ ap (λ x. x ++ tail) (sym first)
          ∙ fields_of d,
    )

module _ (a : Aead) where
  -- What `open_frame` requires of a datagram that it accepts, and the frame that it returns.
  open_frame_accepts :
      (d : List ℕ) (h : Header) (f : Frame)
      → open_frame a d h ≡ some f
      → (plain : List ℕ) × (open_sealed a (drop 20 d) h.link_id h.counter (take 20 d) ≡ some plain)
        × (8 ≤ length plain)
        × (f.type ≡ h.type)
        × (f.session_id ≡ h.session_id)
        × (f.link_id ≡ h.link_id)
        × (f.counter ≡ h.counter)
        × (f.seq ≡ from_bytes 0 (take 8 plain))
        × (f.payload ≡ drop 8 plain)
  unfolding open_frame
  open_frame_accepts d h f e =
      elim (Option-cases (open_sealed a (drop 20 d) h.link_id h.counter (take 20 d))) [
        | inl n ↦ absurd (ground (arith, n))
        | inr (plain, p) ↦ (
          plain,
          p,
          ground arith,
          ground arith,
          ground arith,
          ground arith,
          ground arith,
          ground arith,
          ground arith,
        )
      ]

  encode_frame_of :
      (t : FrameType) (s l c q : ℕ) (p n plain : List ℕ)
      → length p ≤ max_payload
      → nonce l c ≡ some n
      → to_bytes 8 (mask64 q) ++ p ≡ plain
      → encode_frame a t s l c q p
        ≡ ok (pack_header t s l c ++ a.encrypt n plain (pack_header t s l c))
  unfolding encode_frame seal
  encode_frame_of t s l c q p n plain h en ep = ground arith

  decode_frame_parsed :
      (d : List ℕ) (f : Frame)
      → decode_frame a d ≡ some f
      → (h : Header) × (parse_header d ≡ ok h) × (open_frame a d h ≡ some f)
  unfolding decode_frame
  decode_frame_parsed d f e = elim (Result-cases (parse_header d)) [
    | inl (h, p) ↦ (h, p, ground arith)
    | inr (x, p) ↦ absurd (ground (arith, p))
  ]

  open_sealed-nonce :
      (l c : ℕ) (cipher head plain : List ℕ)
      → open_sealed a cipher l c head ≡ some plain
      → (n : List ℕ) × (nonce l c ≡ some n) × (a.decrypt n cipher head ≡ some plain)
  unfolding open_sealed
  open_sealed-nonce l c cipher head plain e = elim (Option-cases (nonce l c)) [
    | inl n ↦ absurd (ground (arith, n))
    | inr (n, p) ↦ (n, p, ground arith)
  ]

  -- Whatever decodes, with a payload within the limit, is byte for byte the datagram that
  -- `encode_frame` builds from the decoded frame.
  pub decode_frame_exact :
      (i : IsAead a) (d : List ℕ) (f : Frame)
      → All IsByte d
      → decode_frame a d ≡ some f
      → length f.payload ≤ max_payload
      → encode_frame a f.type f.session_id f.link_id f.counter f.seq f.payload ≡ ok d
  decode_frame_exact i d f bytes e small =
      let (h, parsed, opened) = decode_frame_parsed d f e in
      let (plain, o, long, ft, fs, fl, fc, fq, fp) = open_frame_accepts d h f opened in
      let (n, hn, decrypted) =
        open_sealed-nonce h.link_id h.counter (drop 20 d) (take 20 d) plain o in
      let (len, lfit, cfit, whole) = parse_header_exact d h bytes parsed in
      let plain_bytes =
        i.decrypt-IsByte n (drop 20 d) (take 20 d) plain (All-drop IsByte 20 d bytes) decrypted in
      let (qfit, qb) = masked64_again f.seq plain plain_bytes long fq in
      let again : to_bytes 8 (mask64 f.seq) ++ f.payload ≡ plain =
        ap (λ x. x ++ f.payload) qb ∙ ap (◌++◌ (take 8 plain)) fp ∙ take-drop 8 plain in
      let head = pack_header h.type h.session_id h.link_id h.counter in
      let first : take 20 d ≡ head =
        ap (take 20) (sym whole)
        ∙ take-append_of_length 20 head (drop 20 d)
            (length-pack_header h.type h.session_id h.link_id h.counter) in
      let sealed : a.encrypt n plain head ≡ drop 20 d =
        ap (a.encrypt n plain) (sym first) ∙ i.exact n (drop 20 d) (take 20 d) plain decrypted in
      cc (
        ft,
        fs,
        fl,
        fc,
        encode_frame_of h.type h.session_id h.link_id h.counter f.seq f.payload n plain small hn
            again,
        sealed,
        whole,
      )
