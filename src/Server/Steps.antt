-- ===== src/Server/Steps.antt =====
-- turbobond/bond/server.py: every event keeps the sessions valid.
use turbobond.Base.{
  ℕ, ◌+◌, ◌≡◌, refl, Bool, true, false, not, Option, none, some, List, [], ◌∷◌, if◌then◌else◌,
  length, leb, arith,
}
use turbobond.Base.Dict.{Dict, insert, erase, Distinct, Each, erase-Distinct, erase-Each}
use turbobond.Crypto.{Aead}
use turbobond.Protocol.{
  FrameType, data_frame, keepalive, handshake, handshake_ack, link_stats, close, Frame, Result, ok,
  err, encode_frame, decode_frame, max_datagram,
}
use turbobond.Replay.{ReplayWindow, check_and_update}
use turbobond.Server.{
  PeerLink, Session, ConcentratorServer, Address, session_of, peer_of, put_session, put_peer,
  note_rejection, next_counter, sealed_send, send, close_link, take_typed, check_frame, logged,
  handle_frame, handle_datagram, datagram_received, done,
}
use turbobond.Server.Valid.{
  LinksOk, SessionOk, IsValid, put_session-IsValid, put_peer-IsValid, with_peer-SessionOk,
  IsValid-of_sessions, deliver-IsValid, session_of-LinksOk, peer_of_id,
}

note_rejection_sessions :
    (addr : Address) (v : ConcentratorServer) → (note_rejection addr v).sessions ≡ v.sessions
unfolding note_rejection
note_rejection_sessions addr v = ground arith

module _ (a : Aead) where
  sealed_send-IsValid :
      (sends : Bool) (i : ℕ) (s : Session) (j : ℕ) (p : PeerLink) (r : Result (List ℕ))
      (v : ConcentratorServer)
      → LinksOk i s
      → p.link_id ≡ j
      → IsValid v
      → IsValid ((sealed_send a sends i s j p r v).after)
  unfolding sealed_send
  sealed_send-IsValid sends i s j p (err x) v o e h = put_peer-IsValid i s j p v o e h
  sealed_send-IsValid sends i s j p (ok d) v o e h =
      put_peer-IsValid i s j
        (record p { tx_packets = if sends then p.tx_packets + 1 else p.tx_packets })
        (logged sends j p d v) o e (IsValid-of_sessions v (logged sends j p d v) refl h)

  pub send-IsValid :
      (sends : Bool) (i : ℕ) (s : Session) (j : ℕ) (p : PeerLink) (ft : FrameType) (q : ℕ)
      (d : List ℕ) (v : ConcentratorServer)
      → LinksOk i s
      → p.link_id ≡ j
      → IsValid v
      → IsValid ((send a sends i s j p ft q d v).after)
  unfolding send next_counter
  send-IsValid sends i s j p ft q d v o e h =
      elim (v.listening)
        as (λ b. IsValid (
          (if not b
            then done (put_peer i s j p v)
            else sealed_send a sends i s j (record p { counter = p.counter + 1 })
                (encode_frame a ft (s.session_id) (p.link_id) (p.counter + 1) q d) v).after)) [
                  | false ↦ put_peer-IsValid i s j p v o e h
                  | true ↦
                      sealed_send-IsValid sends i s j (record p { counter = p.counter + 1 })
                        (encode_frame a ft (s.session_id) (p.link_id) (p.counter + 1) q d) v o e h
                ]

  close_link-IsValid :
      (i : ℕ) (s : Session) (j : ℕ) (ls : Dict PeerLink) (v : ConcentratorServer)
      → s.session_id ≡ i
      → Distinct ls
      → Each (λ j p. p.link_id ≡ j) ls
      → IsValid v
      → IsValid (close_link i s j ls v)
  unfolding close_link
  close_link-IsValid i s j [] v e u k h = record {
    sessions_ok = erase-Each SessionOk i (v.sessions) (h.sessions_ok);
    distinct = erase-Distinct i (v.sessions) (h.distinct);
  }
  close_link-IsValid i s j (l ∷ ls) v e u k h =
      put_session-IsValid i (record s { links = l ∷ ls }) v
        (record {
          links_ok = record { own_id = e; distinct = u; keyed = k };
          some_link = omega arith;
        })
        h

  take_typed-IsValid :
      (ft : FrameType) (sends : Bool) (i : ℕ) (s : Session) (j : ℕ) (p : PeerLink) (f : Frame)
      (now : ℕ) (v : ConcentratorServer)
      → LinksOk i s
      → p.link_id ≡ j
      → IsValid v
      → IsValid ((take_typed a ft sends i s j p f now v).after)
  unfolding take_typed
  take_typed-IsValid handshake sends i s j p f now v o e h =
      send-IsValid sends i s j p handshake_ack 0 [] v o e h
  take_typed-IsValid keepalive sends i s j p f now v o e h =
      send-IsValid sends i s j p keepalive 0 [] v o e h
  take_typed-IsValid close sends i s j p f now v o e h =
      let ok1 = (with_peer-SessionOk i s j p o e).links_ok in
      close_link-IsValid i s j (erase j (insert j p (s.links))) v (o.own_id)
        (erase-Distinct j (insert j p (s.links)) (ok1.distinct))
        (erase-Each (λ j p. p.link_id ≡ j) j (insert j p (s.links)) (ok1.keyed)) h
  take_typed-IsValid data_frame sends i s j p f now v o e h =
      let s' = record s { links = insert j p (s.links) } in
      let k = with_peer-SessionOk i s j p o e in
      deliver-IsValid i s' (f.seq) (f.payload) now (put_session i s' v) k
        (put_session-IsValid i s' v k h)
  take_typed-IsValid handshake_ack sends i s j p f now v o e h = put_peer-IsValid i s j p v o e h
  take_typed-IsValid link_stats sends i s j p f now v o e h = put_peer-IsValid i s j p v o e h

  check_frame-IsValid :
      (sends : Bool) (s : Session) (p : PeerLink) (f : Frame) (r : ReplayWindow × Bool) (now : ℕ)
      (v : ConcentratorServer)
      → LinksOk (f.session_id) s
      → p.link_id ≡ f.link_id
      → IsValid v
      → IsValid ((check_frame a sends s p f r now v).after)
  unfolding check_frame
  check_frame-IsValid sends s p f (w, false) now v o e h =
      put_peer-IsValid (f.session_id) s (f.link_id) (record p { replay = w })
        (record v { rejected = v.rejected + 1 }) o e
        (IsValid-of_sessions v (record v { rejected = v.rejected + 1 }) refl h)
  check_frame-IsValid sends s p f (w, true) now v o e h =
      take_typed-IsValid (f.type) sends (f.session_id) s (f.link_id)
        (record p { replay = w; last_seen = now; rx_packets = p.rx_packets + 1 }) f now v o e h

  handle_frame-IsValid :
      (sends : Bool) (o : Option Frame) (addr : Address) (now : ℕ) (v : ConcentratorServer)
      → IsValid v
      → IsValid ((handle_frame a sends o addr now v).after)
  unfolding handle_frame
  handle_frame-IsValid sends none addr now v h =
      let w = record v { rejected = v.rejected + 1 } in
      IsValid-of_sessions v (note_rejection addr w) (note_rejection_sessions addr w) h
  handle_frame-IsValid sends (some f) addr now v h =
      let s = session_of (f.session_id) now v in
      let p = peer_of (f.link_id) addr now s in
      let o = session_of-LinksOk (f.session_id) now v h in
      check_frame-IsValid sends s p f (check_and_update (p.replay) (f.counter)) now v o
        (peer_of_id (f.session_id) (f.link_id) addr now s o) h

  pub datagram_received-IsValid :
      (sends : Bool) (d : List ℕ) (addr : Address) (now : ℕ) (v : ConcentratorServer)
      → IsValid v
      → IsValid ((datagram_received a sends d addr now v).after)
  unfolding datagram_received handle_datagram
  datagram_received-IsValid sends d addr now v h =
      elim (leb (length d) max_datagram)
        as (λ b. IsValid ((if b then handle_datagram a sends d addr now v else done v).after)) [
          | true ↦ handle_frame-IsValid sends (decode_frame a d) addr now v h
          | false ↦ h
        ]
