-- ===== src/Scheduler/Packet.antt =====
-- turbobond/bond/scheduler.py, is_critical_packet: the ports of an IP packet.
use turbobond.Base.{
  ℕ, ◌+◌, ◌*◌, ◌/◌, ◌%◌, Bool, false, not, ◌||◌, List, [], ◌∷◌, ltb, ◌==◌, if◌then◌else◌, length,
  elem, take, drop,
}
use turbobond.Base.Words.{from_bytes}

-- `packet[i]` below the length that the code has tested
unfoldable pub byte_at : List ℕ → ℕ → ℕ
byte_at packet i = from_bytes 0 (take 1 (drop i packet))

-- The test of the ports, with the offset of the transport header.
unfoldable pub ports_match : List ℕ → List ℕ → ℕ → ℕ → Bool
ports_match packet sip_ports protocol offset =
    if not (elem protocol (6 ∷ 17 ∷ 132 ∷ []))
    then false
    else elem (from_bytes 0 (take 2 (drop offset packet))) sip_ports
      || elem (from_bytes 0 (take 2 (drop (offset + 2) packet))) sip_ports

unfoldable pub is_critical_packet : List ℕ → List ℕ → Bool
is_critical_packet packet sip_ports =
    if ltb (length packet) 20
    then false
    else let version = byte_at packet 0 / 16 in
      if version == 4
      then (let ihl = byte_at packet 0 % 16 * 4 in
          if ltb ihl 20 || ltb (length packet) (ihl + 4)
          then false
          else ports_match packet sip_ports (byte_at packet 9) ihl)
      else if version == 6
      then (if ltb (length packet) 44
          then false
          else ports_match packet sip_ports (byte_at packet 6) 40)
      else false
