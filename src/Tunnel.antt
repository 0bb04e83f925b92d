-- ===== src/Tunnel.antt =====
-- turbobond/bond/tunnel.py: the client's end of the bond. Sockets are keyed by the id of their link; the
-- operating system's answer to a send and the time are arguments. `nonces` and `written` are what the
-- model adds: the link and counter of every datagram that was sealed, and the packets that were written
-- to the device, the latest first.
pub mod Sending
pub mod Counters
pub mod Replayed
mod Tests
use turbobond.Base.{
  ℕ, ◌+◌, ◌*◌, Bool, true, false, not, ◌&&◌, ◌||◌, Option, none, some, List, [], ◌∷◌, ◌++◌, ltb,
  if◌then◌else◌, length, map,
}
use turbobond.Base.Dict.{Dict, lookup, insert}
use turbobond.Base.Floats.{Floats}
use turbobond.Crypto.{Aead}
use turbobond.Protocol.{
  FrameType, data_frame, keepalive, handshake, handshake_ack, link_stats, close, Frame, Error,
  Result, ok, err, encode_frame, decode_frame, header_len,
}
use turbobond.Replay.{ReplayWindow, check_and_update}
use turbobond.Reorder.{ReorderBuffer, push, tick}
use turbobond.Links.{Link}
use turbobond.Scheduler.{BondScheduler, select, set_links}
use turbobond.Scheduler.Packet.{is_critical_packet}

pub record LinkSocket : Type 0 where
  pub counter : ℕ
  pub tx_packets : ℕ
  pub tx_bytes : ℕ
  pub rx_packets : ℕ
  pub rx_bytes : ℕ
  pub last_rx_ts : ℕ
  pub last_tx_ts : ℕ
  pub handshaken : Bool
  pub replay : ReplayWindow

pub record BondingTunnel (F : Type 0) : Type 0 where
  pub duplicate_critical : Bool
  pub sip_ports : List ℕ
  pub session_id : ℕ
  pub scheduler : BondScheduler F
  pub reorder : ReorderBuffer (List ℕ)
  pub sockets : Dict LinkSocket
  pub seq : ℕ
  pub dropped_no_link : ℕ
  pub rx_rejected : ℕ
  pub nonces : List (ℕ × ℕ)
  pub written : List (List ℕ)

-- The tunnel after a call, and whether the call raised.
pub record Ran (F : Type 0) : Type 0 where
  pub after : BondingTunnel F
  pub raised : Bool

-- What the operating system does with a datagram on a link, and when.
pub record Network : Type 0 where
  pub sends : ℕ → Bool
  pub now : ℕ

unfoldable pub next_counter : LinkSocket → LinkSocket
next_counter ls = record ls { counter = ls.counter + 1 }

module _ {F : Type 0} where
  abbrev pub put : ℕ → LinkSocket → BondingTunnel F → BondingTunnel F
  put i ls t = record t { sockets = insert i ls (t.sockets) }

  -- `_sendto`: an OSError leaves the socket's numbers alone.
  unfoldable pub sendto : Network → ℕ → LinkSocket → List ℕ → BondingTunnel F → BondingTunnel F
  sendto net i ls datagram t =
      if net.sends i
      then put i
          (record ls {
            tx_packets = ls.tx_packets + 1;
            tx_bytes = ls.tx_bytes + length datagram;
            last_tx_ts = net.now;
          })
          t
      else put i ls t

  -- The packets that the reorder buffer released go to the device in their order.
  unfoldable pub write_all : List (List ℕ) → BondingTunnel F → BondingTunnel F
  write_all [] t = t
  write_all (p ∷ ps) t = write_all ps (record t { written = p ∷ t.written })

  unfoldable pub released :
      Option (ReorderBuffer (List ℕ) × List (List ℕ)) → BondingTunnel F → Ran F
  released none t = record { after = t; raised = true }
  released (some (b, ps)) t = record {
    after = write_all ps (record t { reorder = b });
    raised = false;
  }

  unfoldable pub reorder_tick : ℕ → BondingTunnel F → Ran F
  reorder_tick now t = released (tick (t.reorder) now) t

  -- `refresh_links`: the links are the scheduler's, so that the flag is set on them.
  unfoldable pub tunnel_ready_of : Dict LinkSocket → Link F → Link F
  tunnel_ready_of sockets l = record l {
    tunnel_ready = elim (lookup (l.link_id) sockets) [ none ↦ false | some ls ↦ ls.handshaken ];
  }

module _ {F : Type 0} (fl : Floats F) where
  unfoldable pub refresh_links : List (Link F) → BondingTunnel F → BondingTunnel F
  refresh_links links t = record t {
    scheduler = set_links fl (map (tunnel_ready_of (t.sockets)) links) (t.scheduler);
  }

module _ (a : Aead) {F : Type 0} where
  -- The end of a send: the datagram goes out, or the error of `encode_frame` is raised.
  unfoldable pub sealed_send : Network → ℕ → LinkSocket → Result (List ℕ) → BondingTunnel F → Ran F
  sealed_send net i ls (err e) t = record { after = put i ls t; raised = true }
  sealed_send net i ls (ok datagram) t = record {
    after = sendto net i ls datagram (record t { nonces = (i, ls.counter) ∷ t.nonces });
    raised = false;
  }

  -- One frame on the socket of a link: the next counter, the seal, the send.
  unfoldable pub send_on :
      Network → FrameType → ℕ → List ℕ → ℕ → LinkSocket → BondingTunnel F → Ran F
  send_on net frame_type seq payload i ls t =
      let counted = next_counter ls in
      sealed_send net i counted
        (encode_frame a frame_type (t.session_id) i (counted.counter) seq payload) t

  -- The same for the id of a link; one without a socket is skipped.
  unfoldable pub send_frame : Network → FrameType → ℕ → List ℕ → ℕ → BondingTunnel F → Ran F
  send_frame net frame_type seq payload i t = elim (lookup i (t.sockets)) [
    | none ↦ record { after = t; raised = false }
    | some ls ↦ send_on net frame_type seq payload i ls t
  ]

  unfoldable pub send_control : Network → FrameType → ℕ → BondingTunnel F → Ran F
  send_control net frame_type i t = send_frame net frame_type 0 [] i t

  -- The loop over the chosen links of `_send_packet`; an exception ends it.
  unfoldable pub send_all : Network → ℕ → List ℕ → List (Link F) → BondingTunnel F → Ran F
  send_all net seq packet [] t = record { after = t; raised = false }
  send_all net seq packet (l ∷ ls) t =
      let first = send_frame net data_frame seq packet (l.link_id) t in
      let rest = send_all net seq packet ls (first.after) in if first.raised then first else rest

  -- `_send_packet` after the choice.
  unfoldable pub send_chosen :
      Network → List ℕ → Option (List (Link F) × BondScheduler F) → BondingTunnel F → Ran F
  send_chosen net packet none t = record { after = t; raised = true }
  send_chosen net packet (some ([], s)) t = record {
    after = record t { scheduler = s; dropped_no_link = t.dropped_no_link + 1 };
    raised = false;
  }
  send_chosen net packet (some (l ∷ ls, s)) t =
      send_all net (t.seq + 1) packet (l ∷ ls) (record t { scheduler = s; seq = t.seq + 1 })

  unfoldable pub critical : BondingTunnel F → List ℕ → Bool
  critical t packet =
      t.duplicate_critical
      && (ltb 0 (length (t.sip_ports)) && is_critical_packet packet (t.sip_ports))

  unfoldable pub send_packet : Floats F → Network → List ℕ → BondingTunnel F → Ran F
  send_packet fl net packet t =
      send_chosen net packet (select fl (length packet) (critical t packet) (t.scheduler)) t

  -- A payload goes through the reorder buffer to the device, if it is not empty.
  unfoldable pub deliver : ℕ → List ℕ → ℕ → BondingTunnel F → Ran F
  deliver seq [] now t = record { after = t; raised = false }
  deliver seq (b ∷ bs) now t = released (push (t.reorder) seq (b ∷ bs) now) t

  -- The end of `_handle_datagram`, by the type of the frame.
  unfoldable pub take_typed : FrameType → Frame → ℕ → LinkSocket → ℕ → BondingTunnel F → Ran F
  take_typed data_frame frame i heard now t =
      deliver (frame.seq) (frame.payload) now (put i heard t)
  take_typed close frame i heard now t = record {
    after = put i (record heard { handshaken = false }) t;
    raised = false;
  }
  take_typed keepalive frame i heard now t = record { after = put i heard t; raised = false }
  take_typed handshake frame i heard now t = record { after = put i heard t; raised = false }
  take_typed handshake_ack frame i heard now t = record { after = put i heard t; raised = false }
  take_typed link_stats frame i heard now t = record { after = put i heard t; raised = false }

  -- `_handle_datagram` on a fresh frame, with the socket that has taken its counter.
  unfoldable pub take_frame : ℕ → Frame → ℕ → LinkSocket → ℕ → BondingTunnel F → Ran F
  take_frame i frame size ls now t =
      take_typed (frame.type) frame i
        (record ls {
          rx_packets = ls.rx_packets + 1;
          rx_bytes = ls.rx_bytes + size;
          last_rx_ts = now;
          handshaken = true;
        })
        now t

  abbrev pub reject : BondingTunnel F → Ran F
  reject t = record { after = record t { rx_rejected = t.rx_rejected + 1 }; raised = false }

  -- `_handle_datagram` on a frame, with the replay window's answer to its counter.
  unfoldable pub check_frame :
      ℕ → Frame → ℕ → LinkSocket → ReplayWindow × Bool → ℕ → BondingTunnel F → Ran F
  check_frame i frame size ls (w, true) now t =
      take_frame i frame size (record ls { replay = w }) now t
  check_frame i frame size ls (w, false) now t = reject (put i (record ls { replay = w }) t)

  unfoldable pub handle_frame : ℕ → Option Frame → ℕ → LinkSocket → ℕ → BondingTunnel F → Ran F
  handle_frame i none size ls now t = reject t
  handle_frame i (some frame) size ls now t =
      check_frame i frame size ls (check_and_update (ls.replay) (frame.counter)) now t

  unfoldable pub handle_datagram : ℕ → LinkSocket → List ℕ → ℕ → BondingTunnel F → Ran F
  handle_datagram i ls data' now t = handle_frame i (decode_frame a data') (length data') ls now t

  -- A datagram shorter than a header is passed over.
  unfoldable pub read_on : ℕ → LinkSocket → List ℕ → ℕ → BondingTunnel F → Ran F
  read_on i ls data' now t =
      if ltb (length data') header_len
      then record { after = t; raised = false }
      else handle_datagram i ls data' now t

  -- `_read_socket` on what the socket of a link received.
  unfoldable pub read_socket : ℕ → List ℕ → ℕ → BondingTunnel F → Ran F
  read_socket i data' now t = elim (lookup i (t.sockets)) [
    | none ↦ record { after = t; raised = false }
    | some ls ↦ read_on i ls data' now t
  ]

-- What happens to a tunnel between its start and its stop: a packet from the device, a control frame
-- (the keepalive loop and the handshake send them), a datagram on the socket of a link, the ticker, and
-- a change of the links.
pub data Event (F : Type 0) : Type 0 where
  from_device : Network → List ℕ → Event F
  control : Network → FrameType → ℕ → Event F
  from_socket : ℕ → List ℕ → ℕ → Event F
  ticked : ℕ → Event F
  relinked : List (Link F) → Event F

module _ (a : Aead) {F : Type 0} (fl : Floats F) where
  unfoldable pub step : Event F → BondingTunnel F → BondingTunnel F
  step (from_device net packet) t = (send_packet a fl net packet t).after
  step (control net frame_type i) t = (send_control a net frame_type i t).after
  step (from_socket i data' now) t = (read_socket a i data' now t).after
  step (ticked now) t = (reorder_tick now t).after
  step (relinked links) t = refresh_links fl links t

  unfoldable pub run : List (Event F) → BondingTunnel F → BondingTunnel F
  run [] t = t
  run (e ∷ es) t = run es (step e t)
