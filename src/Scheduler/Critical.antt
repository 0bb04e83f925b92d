-- ===== src/Scheduler/Critical.antt =====
-- turbobond/bond/scheduler.py: `is_critical_packet` reads the ports of the packet it is given.
use turbobond.Base.{
  ℕ, ◌+◌, ◌*◌, ◌/◌, ◌%◌, ◌^◌, ◌≤◌, ◌<◌, ◌≡◌, ap, sym, ◌∙◌, ◌&&◌, ◌||◌, List, [], ◌∷◌, ◌++◌, length,
  take, drop, elem, arith, length-append, drop-drop, drop-append_of_length, take-append_of_length,
  append_assoc,
}
use turbobond.Base.Words.{to_bytes, from_bytes, length-to_bytes, from_bytes-to_bytes}
use turbobond.Scheduler.Packet.{byte_at, ports_match, is_critical_packet}

-- An IPv4 packet: version 4 and `ihl` words, eight bytes, the protocol, the rest of the header, and a
-- transport header that starts with the two ports.
abbrev pub ipv4 : ℕ → List ℕ → ℕ → List ℕ → ℕ → ℕ → List ℕ → List ℕ
ipv4 ihl eight protocol rest src dst payload =
    ((64 + ihl) ∷ (eight ++ (protocol ∷ rest))) ++ (to_bytes 2 src ++ (to_bytes 2 dst ++ payload))

-- What the code reads decides the answer.
critical_v4 :
    (packet ports : List ℕ) (ihl protocol src dst : ℕ)
    → 5 ≤ ihl
    → ihl < 16
    → ihl * 4 + 4 ≤ length packet
    → byte_at packet 0 ≡ 64 + ihl
    → byte_at packet 9 ≡ protocol
    → from_bytes 0 (take 2 (drop (ihl * 4) packet)) ≡ src
    → from_bytes 0 (take 2 (drop (ihl * 4 + 2) packet)) ≡ dst
    → is_critical_packet packet ports
      ≡ (elem protocol (6 ∷ 17 ∷ 132 ∷ []) && (elem src ports || elem dst ports))
unfolding is_critical_packet ports_match
critical_v4 packet ports ihl protocol src dst h5 h16 hl b0 b9 bs bd =
    let v : (64 + ihl) / 16 ≡ 4 = omega arith in
    let w : (64 + ihl) % 16 ≡ ihl = omega arith in rw (b0, b9, v, w, bs, bd) (ground arith)

module _ (ihl protocol src dst : ℕ) (eight rest payload : List ℕ) (e8 : length eight ≡ 8)
    (er : length rest + 10 ≡ ihl * 4) (hs : src < 2 ^ 16) (hd : dst < 2 ^ 16) where
  abbrev packet : List ℕ
  packet = ipv4 ihl eight protocol rest src dst payload

  header-length : length ((64 + ihl) ∷ (eight ++ (protocol ∷ rest))) ≡ ihl * 4
  header-length = omega (arith, length-append eight (protocol ∷ rest))

  reads_version : byte_at packet 0 ≡ 64 + ihl
  unfolding byte_at from_bytes
  reads_version = omega arith

  reads_protocol : byte_at packet 9 ≡ protocol
  unfolding byte_at from_bytes
  reads_protocol =
      rw
        (
          append_assoc eight (protocol ∷ rest) (to_bytes 2 src ++ (to_bytes 2 dst ++ payload)),
          drop-append_of_length 8 eight
              (protocol ∷ (rest ++ (to_bytes 2 src ++ (to_bytes 2 dst ++ payload)))) e8,
        )
        (omega arith)

  transport : drop (ihl * 4) packet ≡ to_bytes 2 src ++ (to_bytes 2 dst ++ payload)
  transport =
      drop-append_of_length (ihl * 4) ((64 + ihl) ∷ (eight ++ (protocol ∷ rest)))
        (to_bytes 2 src ++ (to_bytes 2 dst ++ payload)) header-length

  reads_src : from_bytes 0 (take 2 (drop (ihl * 4) packet)) ≡ src
  reads_src =
      ap (λ t. from_bytes 0 (take 2 t)) transport
      ∙ (ap (from_bytes 0) (
            take-append_of_length 2 (to_bytes 2 src) (to_bytes 2 dst ++ payload)
              (length-to_bytes 2 src))
          ∙ from_bytes-to_bytes 2 src hs)

  after_src : drop (ihl * 4 + 2) packet ≡ to_bytes 2 dst ++ payload
  after_src =
      sym (drop-drop (ihl * 4) 2 packet)
      ∙ (ap (drop 2) transport
          ∙ drop-append_of_length 2 (to_bytes 2 src) (to_bytes 2 dst ++ payload)
              (length-to_bytes 2 src))

  reads_dst : from_bytes 0 (take 2 (drop (ihl * 4 + 2) packet)) ≡ dst
  reads_dst =
      ap (λ t. from_bytes 0 (take 2 t)) after_src
      ∙ (ap (from_bytes 0)
            (take-append_of_length 2 (to_bytes 2 dst) payload (length-to_bytes 2 dst))
          ∙ from_bytes-to_bytes 2 dst hd)

  packet-length : ihl * 4 + 4 ≤ length packet
  packet-length = omega (
    arith,
    header-length,
    length-append ((64 + ihl) ∷ (eight ++ (protocol ∷ rest)))
        (to_bytes 2 src ++ (to_bytes 2 dst ++ payload)),
    length-append (to_bytes 2 src) (to_bytes 2 dst ++ payload),
    length-append (to_bytes 2 dst) payload,
    length-to_bytes 2 src,
    length-to_bytes 2 dst,
  )

-- For an IPv4 packet of any header length, with ports below 2^16, the answer is whether the protocol
-- is TCP, UDP or SCTP and one of the ports is among those of SIP.
pub is_critical_packet-ipv4 :
    (ihl protocol src dst : ℕ) (eight rest payload ports : List ℕ)
    → 5 ≤ ihl
    → ihl < 16
    → length eight ≡ 8
    → length rest + 10 ≡ ihl * 4
    → src < 2 ^ 16
    → dst < 2 ^ 16
    → is_critical_packet (ipv4 ihl eight protocol rest src dst payload) ports
      ≡ (elem protocol (6 ∷ 17 ∷ 132 ∷ []) && (elem src ports || elem dst ports))
is_critical_packet-ipv4 ihl protocol src dst eight rest payload ports h5 h16 e8 er hs hd =
    critical_v4 (ipv4 ihl eight protocol rest src dst payload) ports ihl protocol src dst h5 h16
      (packet-length ihl protocol src dst eight rest payload e8 er hs hd)
      (reads_version ihl protocol src dst eight rest payload e8 er hs hd)
      (reads_protocol ihl protocol src dst eight rest payload e8 er hs hd)
      (reads_src ihl protocol src dst eight rest payload e8 er hs hd)
      (reads_dst ihl protocol src dst eight rest payload e8 er hs hd)
