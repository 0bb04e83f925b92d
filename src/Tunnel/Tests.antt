-- ===== src/Tunnel/Tests.antt =====
-- A tunnel over two links that sends, and the theorem on it.
use turbobond.Base.{ℕ, refl, true, false, List, [], ◌∷◌, ◌++◌, ◌≡◌}
use turbobond.Base.Milli.{milli}
use turbobond.Crypto.Example.{zero_tag}
use turbobond.Protocol.{keepalive}
use turbobond.Reorder.{no_stats}
use turbobond.Scheduler.Example.{three_links}
use turbobond.Tunnel.{
  LinkSocket, BondingTunnel, Network, Event, from_device, control, ticked, run, read_socket,
}
use turbobond.Tunnel.Sending.{NoRepeat}
use turbobond.Tunnel.Counters.{run-NoRepeat}
use turbobond.Tunnel.Replayed.{read_socket_twice}

abbrev socket : LinkSocket
socket = record {
  counter = 0;
  tx_packets = 0;
  tx_bytes = 0;
  rx_packets = 0;
  rx_bytes = 0;
  last_rx_ts = 0;
  last_tx_ts = 0;
  handshaken = true;
  replay = record { size = 4096; highest = 0; bitmap = 0 };
}

abbrev tunnel : BondingTunnel ℕ
tunnel = record {
  duplicate_critical = true;
  sip_ports = 5060 ∷ [];
  session_id = 9;
  scheduler = three_links;
  reorder = record {
    timeout = 60;
    capacity = 2048;
    stats = no_stats;
    heap = [];
    pending = [];
    seen = [];
    next_seq = 0;
    started = false;
    priming = false;
    prime_deadline = 0;
  };
  sockets = (1, socket) ∷ (2, socket) ∷ [];
  seq = 0;
  dropped_no_link = 0;
  rx_rejected = 0;
  nonces = [];
  written = [];
}

abbrev net : Network
net = record { sends = λ i. true; now = 5 }

abbrev events : List (Event ℕ)
events =
    control net keepalive 1 ∷ from_device net (1 ∷ 2 ∷ []) ∷ control net keepalive 1 ∷ ticked 7 ∷ []

run-NoRepeat_example : NoRepeat ((run zero_tag milli events tunnel).nonces)
run-NoRepeat_example = run-NoRepeat zero_tag milli events tunnel refl

abbrev eight_zeros : List ℕ
eight_zeros = 0 ∷ 0 ∷ 0 ∷ 0 ∷ 0 ∷ 0 ∷ 0 ∷ 0 ∷ []

-- A data frame of session 9 on link 1 with counter 1, sequence number 5 and the payload 7.
abbrev datagram : List ℕ
datagram =
    84
    ∷ 66
    ∷ 1
    ∷ 1
    ∷ 0
    ∷ 0
    ∷ 0
    ∷ 9
    ∷ 0
    ∷ 0
    ∷ 0
    ∷ 1
    ∷ 0
    ∷ 0
    ∷ 0
    ∷ 0
    ∷ 0
    ∷ 0
    ∷ 0
    ∷ 1
    ∷ (eight_zeros ++ (eight_zeros ++ (0 ∷ 0 ∷ 0 ∷ 0 ∷ 0 ∷ 0 ∷ 0 ∷ 5 ∷ 7 ∷ [])))

read_socket_twice_example :
    (read_socket zero_tag 1 datagram 9
      ((read_socket zero_tag 1 datagram 8 tunnel).after)).after.written
    ≡ (read_socket zero_tag 1 datagram 8 tunnel).after.written
read_socket_twice_example = read_socket_twice zero_tag 1 datagram 8 9 tunnel
