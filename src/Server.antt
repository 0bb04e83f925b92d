-- ===== src/Server.antt =====
-- turbobond/bond/server.py: the concentrator's end of the bond. An address is a host and a port; the
-- time, in milliseconds, and the operating system's answer to a send are arguments. `nonces`,
-- `sent` and `written` are what the model adds: the link and counter of every datagram that was sealed,
-- the datagrams that `sendto` took, with their destination, and the packets that were written to the
-- device, the latest first.
pub mod Downstream
pub mod Valid
pub mod Steps
pub mod Reaping
pub mod Runs
pub mod Replies
pub mod Rotation
pub mod Diverts
pub mod Trusted
pub mod Heard
mod Tests
use turbobond.Base.{
  ℕ, ◌+◌, ◌-◌, ◌%◌, Bool, true, false, not, ◌&&◌, ◌||◌, Option, none, some, List, [], ◌∷◌, ltb, leb,
  ◌==◌, if◌then◌else◌, length, elem,
}
use turbobond.Base.Dict.{Dict, lookup, insert, erase}
use turbobond.Crypto.{Aead}
use turbobond.Protocol.{
  FrameType, data_frame, keepalive, handshake, handshake_ack, link_stats, close, Frame, Result, ok,
  err, encode_frame, decode_frame, max_datagram,
}
use turbobond.Replay.{ReplayWindow, check_and_update}
use turbobond.Replay
use turbobond.Reorder.{ReorderBuffer, push, tick}
use turbobond.Reorder

abbrev pub session_idle_timeout : ℕ
session_idle_timeout = 120000

pub record Address : Type 0 where
  pub host : ℕ
  pub port : ℕ

pub record PeerLink : Type 0 where
  pub link_id : ℕ
  pub addr : Address
  pub counter : ℕ
  pub rx_packets : ℕ
  pub tx_packets : ℕ
  pub last_seen : ℕ
  pub replay : ReplayWindow

pub record Session : Type 0 where
  pub session_id : ℕ
  pub links : Dict PeerLink
  pub reorder : ReorderBuffer (List ℕ)
  pub seq : ℕ
  pub created : ℕ
  pub cursor : ℕ

pub record ConcentratorServer : Type 0 where
  pub reorder_timeout : ℕ
  pub listening : Bool
  pub sessions : Dict Session
  pub rejected : ℕ
  pub rejected_sources : List ℕ
  pub nonces : List (ℕ × ℕ)
  pub sent : List (Address × List ℕ)
  pub written : List (List ℕ)

-- The server after a call, and whether the call raised.
pub record Ran : Type 0 where
  pub after : ConcentratorServer
  pub raised : Bool

unfoldable pub next_counter : PeerLink → PeerLink
next_counter p = record p { counter = p.counter + 1 }

unfoldable pub alive : ℕ → PeerLink → Bool
alive now p = ltb (now - p.last_seen) session_idle_timeout

-- A peer that is first seen; its window has the default size of `ReplayWindow`.
abbrev pub new_peer : ℕ → Address → ℕ → PeerLink
new_peer i addr now = record {
  link_id = i;
  addr = addr;
  counter = 0;
  rx_packets = 0;
  tx_packets = 0;
  last_seen = now;
  replay = Replay.init Replay.default_size;
}

abbrev pub new_session : ℕ → ℕ → ℕ → Session
new_session i timeout now = record {
  session_id = i;
  links = [];
  reorder = Reorder.init timeout 4096;
  seq = 0;
  created = now;
  cursor = 0;
}

abbrev pub put_session : ℕ → Session → ConcentratorServer → ConcentratorServer
put_session i s v = record v { sessions = insert i s (v.sessions) }

-- A peer of a session goes back where it was taken from.
abbrev pub put_peer : ℕ → Session → ℕ → PeerLink → ConcentratorServer → ConcentratorServer
put_peer i s j p v = put_session i (record s { links = insert j p (s.links) }) v

abbrev pub done : ConcentratorServer → Ran
done v = record { after = v; raised = false }

-- `_note_rejection`
unfoldable pub note_rejection : Address → ConcentratorServer → ConcentratorServer
note_rejection addr v =
    if elem (addr.host) (v.rejected_sources)
    then v
    else record v { rejected_sources = addr.host ∷ v.rejected_sources }

-- `sessions.get(id)`, or a new session.
unfoldable pub session_of : ℕ → ℕ → ConcentratorServer → Session
session_of i now v = elim (lookup i (v.sessions)) [
  | none ↦ new_session i (v.reorder_timeout) now
  | some s ↦ s
]

-- `session.links.get(id)` with the address that the datagram came from, or a new peer.
unfoldable pub peer_of : ℕ → Address → ℕ → Session → PeerLink
peer_of j addr now s = elim (lookup j (s.links)) [
  | none ↦ new_peer j addr now
  | some p ↦ record p { addr = addr }
]

-- A datagram is sealed, and goes to the address of the peer if `sendto` takes it.
abbrev pub logged : Bool → ℕ → PeerLink → List ℕ → ConcentratorServer → ConcentratorServer
logged sends j p datagram v = record v {
  nonces = (j, p.counter) ∷ v.nonces;
  sent = if sends then (p.addr, datagram) ∷ v.sent else v.sent;
}

module _ (a : Aead) where
  -- The end of `_send`: the datagram goes out to the peer, or the error of `encode_frame` is raised.
  unfoldable pub sealed_send :
      Bool → ℕ → Session → ℕ → PeerLink → Result (List ℕ) → ConcentratorServer → Ran
  sealed_send sends i s j p (err e) v = record { after = put_peer i s j p v; raised = true }
  sealed_send sends i s j p (ok datagram) v = done (
      put_peer i s j (record p { tx_packets = if sends then p.tx_packets + 1 else p.tx_packets })
        (logged sends j p datagram v))

  -- `_send`, for the session and the peer that are filed under `i` and `j`.
  unfoldable pub send :
      Bool → ℕ → Session → ℕ → PeerLink → FrameType → ℕ → List ℕ → ConcentratorServer → Ran
  send sends i s j p frame_type seq payload v =
      if not (v.listening)
      then done (put_peer i s j p v)
      else (let counted = next_counter p in
          sealed_send sends i s j counted
            (encode_frame a frame_type (s.session_id) (p.link_id) (counted.counter) seq payload) v)

unfoldable pub write_all : List (List ℕ) → ConcentratorServer → ConcentratorServer
write_all [] v = v
write_all (p ∷ ps) v = write_all ps (record v { written = p ∷ v.written })

-- What the reorder buffer of a session released goes to the device.
unfoldable pub released :
    ℕ → Session → Option (ReorderBuffer (List ℕ) × List (List ℕ)) → ConcentratorServer → Ran
released i s none v = record { after = v; raised = true }
released i s (some (b, ps)) v = done (write_all ps (put_session i (record s { reorder = b }) v))

-- A CLOSE removes the link, and the session with its last link.
unfoldable pub close_link :
    ℕ → Session → ℕ → Dict PeerLink → ConcentratorServer → ConcentratorServer
close_link i s j [] v = record v { sessions = erase i (v.sessions) }
close_link i s j (l ∷ ls) v = put_session i (record s { links = l ∷ ls }) v

-- A payload goes through the reorder buffer to the device, if it is not empty.
unfoldable pub deliver : ℕ → Session → ℕ → List ℕ → ℕ → ConcentratorServer → Ran
deliver i s seq [] now v = done v
deliver i s seq (b ∷ bs) now v = released i s (push (s.reorder) seq (b ∷ bs) now) v

module _ (a : Aead) where
  -- The end of `handle_datagram`, by the type of the frame.
  unfoldable pub take_typed :
      FrameType → Bool → ℕ → Session → ℕ → PeerLink → Frame → ℕ → ConcentratorServer → Ran
  take_typed handshake sends i s j p frame now v = send a sends i s j p handshake_ack 0 [] v
  take_typed keepalive sends i s j p frame now v = send a sends i s j p keepalive 0 [] v
  take_typed close sends i s j p frame now v =
      done (close_link i s j (erase j (insert j p (s.links))) v)
  take_typed data_frame sends i s j p frame now v =
      let s' = record s { links = insert j p (s.links) } in
      deliver i s' (frame.seq) (frame.payload) now (put_session i s' v)
  take_typed handshake_ack sends i s j p frame now v = done (put_peer i s j p v)
  take_typed link_stats sends i s j p frame now v = done (put_peer i s j p v)

  -- With the replay window's answer to the counter.
  unfoldable pub check_frame :
      Bool → Session → PeerLink → Frame → ReplayWindow × Bool → ℕ → ConcentratorServer → Ran
  check_frame sends s p frame (w, false) now v = done (
      put_peer (frame.session_id) s (frame.link_id) (record p { replay = w })
        (record v { rejected = v.rejected + 1 }))
  check_frame sends s p frame (w, true) now v =
      take_typed (frame.type) sends (frame.session_id) s (frame.link_id)
        (record p { replay = w; last_seen = now; rx_packets = p.rx_packets + 1 }) frame now v

  unfoldable pub handle_frame : Bool → Option Frame → Address → ℕ → ConcentratorServer → Ran
  handle_frame sends none addr now v =
      done (note_rejection addr (record v { rejected = v.rejected + 1 }))
  handle_frame sends (some frame) addr now v =
      let s = session_of (frame.session_id) now v in
      let p = peer_of (frame.link_id) addr now s in
      check_frame sends s p frame (check_and_update (p.replay) (frame.counter)) now v

  unfoldable pub handle_datagram : Bool → List ℕ → Address → ℕ → ConcentratorServer → Ran
  handle_datagram sends data' addr now v = handle_frame sends (decode_frame a data') addr now v

  unfoldable pub datagram_received : Bool → List ℕ → Address → ℕ → ConcentratorServer → Ran
  datagram_received sends data' addr now v =
      if leb (length data') max_datagram then handle_datagram sends data' addr now v else done v
