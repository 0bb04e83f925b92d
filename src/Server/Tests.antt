-- ===== src/Server/Tests.antt =====
-- A server with two clients, and the theorems on it.
use turbobond.Base.{
  ℕ, ◌<◌, ◌≡◌, refl, true, List, [], ◌∷◌, ◌++◌, some, length, get_elem?, elem, All, arith,
}
use turbobond.Base.{bytes_eq}
use turbobond.Base.Dict.{lookup, has, values}
use turbobond.Base.Words.{from_bytes}
use turbobond.Crypto.{open_sealed, nonce}
use turbobond.Crypto.Example.{zero_tag, strip_tag}
use turbobond.Protocol.{handshake, Frame, decode_frame, parse_header, frame_type_of, open_frame}
use turbobond.Replay.{check_and_update}
use turbobond.Server.{
  PeerLink, Session, ConcentratorServer, Address, handle_datagram, alive, new_session,
}
use turbobond.Server.Downstream.{
  Event, datagram, reaped, run, reap, live_links, dispatch_downstream,
}
use turbobond.Server.Valid.{IsValid}
use turbobond.Server.Runs.{run-IsValid}
use turbobond.Server.Reaping.{if_alive, link_at, link_at-reap}
use turbobond.Server.Rotation.{picks, picks_reach}
use turbobond.Server.Replies.{Opens, sessions_share_nonce}
use turbobond.Server.Diverts.{Dispatched, refused_diverts}
use turbobond.Server.Heard.{run-sent}

abbrev home : Address
home = record { host = 7; port = 4000 }

abbrev elsewhere : Address
elsewhere = record { host = 8; port = 4001 }

abbrev empty : ConcentratorServer
empty = record {
  reorder_timeout = 90;
  listening = true;
  sessions = [];
  rejected = 0;
  rejected_sources = [];
  nonces = [];
  sent = [];
  written = [];
}

-- A handshake on link 1 with counter 1.
abbrev hello : ℕ → Frame
hello i = record {
  type = handshake;
  session_id = i;
  link_id = 1;
  counter = 1;
  seq = 0;
  payload = [];
  version = 1;
}

abbrev zeros : List ℕ
zeros = 0 ∷ 0 ∷ 0 ∷ 0 ∷ 0 ∷ 0 ∷ 0 ∷ 0 ∷ []

abbrev hello_bytes : ℕ → List ℕ
hello_bytes i =
    84
    ∷ 66
    ∷ 1
    ∷ 3
    ∷ 0
    ∷ 0
    ∷ 0
    ∷ i
    ∷ 0
    ∷ 0
    ∷ 0
    ∷ 1
    ∷ 0
    ∷ 0
    ∷ 0
    ∷ 0
    ∷ 0
    ∷ 0
    ∷ 0
    ∷ 1
    ∷ (zeros ++ (zeros ++ zeros))

hello_9_decodes : decode_frame zero_tag (hello_bytes 9) ≡ some (hello 9)
unfolding decode_frame parse_header bytes_eq from_bytes frame_type_of open_frame open_sealed nonce
    strip_tag
hello_9_decodes = refl

hello_3_decodes : decode_frame zero_tag (hello_bytes 3) ≡ some (hello 3)
unfolding decode_frame parse_header bytes_eq from_bytes frame_type_of open_frame open_sealed nonce
    strip_tag
hello_3_decodes = refl

abbrev peer : PeerLink
peer = record {
  link_id = 1;
  addr = home;
  counter = 1;
  rx_packets = 1;
  tx_packets = 1;
  last_seen = 5;
  replay = record { size = 4096; highest = 1; bitmap = 1 };
}

abbrev client : Session
client = record (new_session 9 90 5) { links = (1, peer) ∷ [] }

-- A server with one client, seen at time 5.
abbrev served : ConcentratorServer
served = record empty { sessions = (9, client) ∷ []; nonces = (1, 1) ∷ [] }

abbrev events : List Event
events =
    datagram true (hello_bytes 9) home 5
    ∷ datagram true (hello_bytes 3) elsewhere 6
    ∷ reaped 130000
    ∷ []

run-IsValid_example : IsValid (run zero_tag events empty)
run-IsValid_example = run-IsValid zero_tag events empty refl

served-IsValid : IsValid served
unfolding has
served-IsValid = record {
  sessions_ok = (
    record {
      links_ok = record { own_id = refl; distinct = (refl, tt); keyed = (refl, tt) };
      some_link = omega arith;
    },
    tt,
  );
  distinct = (refl, tt);
}

link_at-reap_example :
    link_at 9 1 ((reap 130000 served).sessions) ≡ if_alive 130000 (link_at 9 1 (served.sessions))
link_at-reap_example = link_at-reap 130000 9 1 served served-IsValid

abbrev forger : Address
forger = record { host = 9; port = 4002 }

abbrev heard_events : List Event
heard_events = datagram true (1 ∷ []) forger 4 ∷ events

-- The hosts of the two clients.
abbrev IsClient : Address → Type 0
IsClient x = elem (x.host) (7 ∷ 8 ∷ []) ≡ true

run-sent_example :
    All
      (λ (x : Address × List ℕ). elem (x.0.host) (7 ∷ 8 ∷ []) ≡ true)
      ((run zero_tag heard_events empty).sent)
unfolding decode_frame parse_header elem
run-sent_example =
    run-sent zero_tag IsClient heard_events empty refl refl
      ((λ f e. absurd (ground (arith, e))), ((λ f e. refl), ((λ f e. refl), (tt, tt))))

refused_diverts_example :
    ((handle_datagram zero_tag true (hello_bytes 9) elsewhere 6 served).after.written ≡ [])
    × ((handle_datagram zero_tag true (hello_bytes 9) elsewhere 6 served).after.sent ≡ [])
    × Dispatched zero_tag (69 ∷ []) client peer elsewhere served (
        dispatch_downstream zero_tag true
          (69 ∷ [])
          7
          ((handle_datagram zero_tag true (hello_bytes 9) elsewhere 6 served).after))
unfolding alive check_and_update
refused_diverts_example =
    refused_diverts zero_tag true (hello_bytes 9) elsewhere 6 7 (69 ∷ []) served (hello 9) client
      peer hello_9_decodes refl refl refl refl refl (omega arith) (omega arith)

opens :
    (i : ℕ) (decodes : decode_frame zero_tag (hello_bytes i) ≡ some (hello i))
    → Opens zero_tag (hello_bytes i) (hello i) empty
unfolding lookup
opens i decodes = record {
  decodes = decodes;
  is_handshake = refl;
  counted = omega arith;
  fits = omega arith;
  unknown = refl;
}

sessions_share_nonce_example :
    (handle_datagram zero_tag true
      (hello_bytes 3)
      elsewhere
      6
      (handle_datagram zero_tag true (hello_bytes 9) home 5 empty).after).after.nonces
    ≡ (1, 1) ∷ (1, 1) ∷ []
sessions_share_nonce_example =
    sessions_share_nonce zero_tag true (hello_bytes 9) (hello_bytes 3) home elsewhere 5 6 empty
      (hello 9) (hello 3) refl (opens 9 hello_9_decodes) (opens 3 hello_3_decodes)
      (λ e. absurd (omega (arith, e))) refl

picks_reach_example :
    (i : ℕ) × (i < length (peer ∷ []))
    × (get_elem? (picks 6 (length (peer ∷ [])) client) i ≡ some (get_elem? (peer ∷ []) 0))
unfolding live_links alive values
picks_reach_example = picks_reach 6 client peer [] 0 refl (omega arith)
