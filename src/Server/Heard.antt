-- ===== src/Server/Heard.antt =====
-- turbobond/bond/server.py: the server sends to no address that it has not heard an authentic datagram
-- from.
use turbobond.Base.{
  ℕ, ◌+◌, ◌≡◌, refl, Bool, true, false, not, Option, none, some, List, [], ◌∷◌, if◌then◌else◌, leb,
  length, All, if_keeps,
}
use turbobond.Base.Dict.{Dict, insert, erase, Each, erase-Each}
use turbobond.Crypto.{Aead}
use turbobond.Protocol.{
  FrameType, data_frame, keepalive, handshake, handshake_ack, link_stats, close, Frame, Result, ok,
  err, encode_frame, decode_frame, max_datagram,
}
use turbobond.Replay.{ReplayWindow, check_and_update}
use turbobond.Reorder.{tick}
use turbobond.Server.{
  PeerLink, Session, ConcentratorServer, Ran, Address, session_of, peer_of, put_session, logged,
  next_counter, sealed_send, send, take_typed, check_frame, released, handle_frame, handle_datagram,
  datagram_received,
}
use turbobond.Server.Downstream.{
  Event, datagram, from_device, ticked, reaped, step, run, pick_return_link, live_links,
  newest_first, send_picked, dispatch_on, dispatch_downstream, tick_all, reorder_tick, reap,
}
use turbobond.Server.Trusted.{
  Picked, return_from-Picked, keep-values, Trusted, FromT, put_session-Trusted, put_peer-Trusted,
  note_rejection-Trusted, logged-Trusted, released-Trusted, deliver-Trusted, close_link-Trusted,
  session_of-FromT, peer_of-T, with_peer-FromT, reap_sessions-FromT, newest_first-FromT,
}

-- The sources of the datagrams that authenticate are of the kind `T`.
abbrev pub Heard : Aead → (Address → Type 0) → Event → Type 0
Heard a T (datagram sends d addr now) = (f : Frame) → decode_frame a d ≡ some f → T addr
Heard a T (from_device sends packet now) = Unit {0}
Heard a T (ticked now) = Unit {0}
Heard a T (reaped now) = Unit {0}

module _ (a : Aead) (T : Address → Type 0) where
  sealed_send-Trusted :
      (sends : Bool) (i : ℕ) (s : Session) (j : ℕ) (p : PeerLink) (r : Result (List ℕ))
      (v : ConcentratorServer)
      → FromT T i s
      → T (p.addr)
      → Trusted T v
      → Trusted T ((sealed_send a sends i s j p r v).after)
  unfolding sealed_send
  sealed_send-Trusted sends i s j p (err x) v o t h = put_peer-Trusted T i s j p v o t h
  sealed_send-Trusted sends i s j p (ok d) v o t h =
      put_peer-Trusted T i s j
        (record p { tx_packets = if sends then p.tx_packets + 1 else p.tx_packets })
        (logged sends j p d v) o t (logged-Trusted T sends j p d v t h)

  send-Trusted :
      (sends : Bool) (i : ℕ) (s : Session) (j : ℕ) (p : PeerLink) (ft : FrameType) (q : ℕ)
      (d : List ℕ) (v : ConcentratorServer)
      → FromT T i s
      → T (p.addr)
      → Trusted T v
      → Trusted T ((send a sends i s j p ft q d v).after)
  unfolding send next_counter
  send-Trusted sends i s j p ft q d v o t h =
      if_keeps (λ (r : Ran). Trusted T (r.after)) (not (v.listening)) _ _
        (put_peer-Trusted T i s j p v o t h)
        (sealed_send-Trusted sends i s j (record p { counter = p.counter + 1 })
          (encode_frame a ft (s.session_id) (p.link_id) (p.counter + 1) q d) v o t h)

  take_typed-Trusted :
      (ft : FrameType) (sends : Bool) (i : ℕ) (s : Session) (j : ℕ) (p : PeerLink) (f : Frame)
      (now : ℕ) (v : ConcentratorServer)
      → FromT T i s
      → T (p.addr)
      → Trusted T v
      → Trusted T ((take_typed a ft sends i s j p f now v).after)
  unfolding take_typed
  take_typed-Trusted handshake sends i s j p f now v o t h =
      send-Trusted sends i s j p handshake_ack 0 [] v o t h
  take_typed-Trusted keepalive sends i s j p f now v o t h =
      send-Trusted sends i s j p keepalive 0 [] v o t h
  take_typed-Trusted close sends i s j p f now v o t h =
      close_link-Trusted T i s j (erase j (insert j p (s.links))) v
        (erase-Each (λ j p. T (p.addr)) j (insert j p (s.links)) (with_peer-FromT T i s j p o t)) h
  take_typed-Trusted data_frame sends i s j p f now v o t h =
      let s' = record s { links = insert j p (s.links) } in
      let k = with_peer-FromT T i s j p o t in
      deliver-Trusted T i s' (f.seq) (f.payload) now (put_session i s' v) k
        (put_session-Trusted T i s' v k h)
  take_typed-Trusted handshake_ack sends i s j p f now v o t h = put_peer-Trusted T i s j p v o t h
  take_typed-Trusted link_stats sends i s j p f now v o t h = put_peer-Trusted T i s j p v o t h

  check_frame-Trusted :
      (sends : Bool) (s : Session) (p : PeerLink) (f : Frame) (r : ReplayWindow × Bool) (now : ℕ)
      (v : ConcentratorServer)
      → FromT T (f.session_id) s
      → T (p.addr)
      → Trusted T v
      → Trusted T ((check_frame a sends s p f r now v).after)
  unfolding check_frame
  check_frame-Trusted sends s p f (w, false) now v o t h =
      put_peer-Trusted T (f.session_id) s (f.link_id) (record p { replay = w })
        (record v { rejected = v.rejected + 1 }) o t (record { kept = h.kept; sent_ok = h.sent_ok })
  check_frame-Trusted sends s p f (w, true) now v o t h =
      take_typed-Trusted (f.type) sends (f.session_id) s (f.link_id)
        (record p { replay = w; last_seen = now; rx_packets = p.rx_packets + 1 }) f now v o t h

  handle_frame-Trusted :
      (sends : Bool) (o : Option Frame) (addr : Address) (now : ℕ) (v : ConcentratorServer)
      → ((f : Frame) → o ≡ some f → T addr)
      → Trusted T v
      → Trusted T ((handle_frame a sends o addr now v).after)
  unfolding handle_frame
  handle_frame-Trusted sends none addr now v t h =
      note_rejection-Trusted T addr (record v { rejected = v.rejected + 1 })
        (record { kept = h.kept; sent_ok = h.sent_ok })
  handle_frame-Trusted sends (some f) addr now v t h =
      let s = session_of (f.session_id) now v in
      let p = peer_of (f.link_id) addr now s in
      check_frame-Trusted sends s p f (check_and_update (p.replay) (f.counter)) now v
        (session_of-FromT T (f.session_id) now v h) (peer_of-T T (f.link_id) addr now s (t f refl))
        h

  datagram_received-Trusted :
      (sends : Bool) (d : List ℕ) (addr : Address) (now : ℕ) (v : ConcentratorServer)
      → ((f : Frame) → decode_frame a d ≡ some f → T addr)
      → Trusted T v
      → Trusted T ((datagram_received a sends d addr now v).after)
  unfolding datagram_received handle_datagram
  datagram_received-Trusted sends d addr now v t h =
      if_keeps (λ (r : Ran). Trusted T (r.after)) (leb (length d) max_datagram) _ _
        (handle_frame-Trusted sends (decode_frame a d) addr now v t h) h

  send_picked-Trusted :
      (sends : Bool) (packet : List ℕ) (i : ℕ) (r : Option PeerLink × Session) (others : Ran)
      (v : ConcentratorServer)
      → Picked T i r
      → Trusted T (others.after)
      → Trusted T v
      → Trusted T ((send_picked a sends packet i r others v).after)
  unfolding send_picked Picked
  send_picked-Trusted sends packet i (none, s) others v o g h = g
  send_picked-Trusted sends packet i (some p, s) others v (t, o) g h =
      let s' = record s { seq = s.seq + 1 } in
      send-Trusted sends i s' (p.link_id) p data_frame (s'.seq) packet (put_session i s' v) o t
        (put_session-Trusted T i s' v o h)

  dispatch_on-Trusted :
      (sends : Bool) (packet : List ℕ) (now : ℕ) (xs : Dict Session) (v : ConcentratorServer)
      → Each (FromT T) xs
      → Trusted T v
      → Trusted T ((dispatch_on a sends packet now xs v).after)
  unfolding dispatch_on pick_return_link live_links
  dispatch_on-Trusted sends packet now [] v o h = h
  dispatch_on-Trusted sends packet now ((i, s) ∷ xs) v (o, os) h =
      send_picked-Trusted sends packet i (pick_return_link now s)
        (dispatch_on a sends packet now xs v) v
        (return_from-Picked T (live_links now s) i s (keep-values T now (s.links) o) o)
        (dispatch_on-Trusted sends packet now xs v os h) h

  tick_all-Trusted :
      (now : ℕ) (xs : Dict Session) (v : ConcentratorServer)
      → Each (FromT T) xs
      → Trusted T v
      → Trusted T ((tick_all now xs v).after)
  unfolding tick_all
  tick_all-Trusted now [] v o h = h
  tick_all-Trusted now ((i, s) ∷ xs) v (o, os) h =
      let first = released i s (tick (s.reorder) now) v in
      let one = released-Trusted T i s (tick (s.reorder) now) v o h in
      if_keeps (λ (r : Ran). Trusted T (r.after)) (first.raised) _ _ one
        (tick_all-Trusted now xs (first.after) os one)

  step-Trusted :
      (e : Event) (v : ConcentratorServer) → Heard a T e → Trusted T v → Trusted T (step a e v)
  unfolding step dispatch_downstream reorder_tick reap
  step-Trusted (datagram sends d addr now) v t h = datagram_received-Trusted sends d addr now v t h
  step-Trusted (from_device sends packet now) v t h =
      dispatch_on-Trusted sends packet now (newest_first (v.sessions)) v
        (newest_first-FromT T (v.sessions) (h.kept)) h
  step-Trusted (ticked now) v t h = tick_all-Trusted now (v.sessions) v (h.kept) h
  step-Trusted (reaped now) v t h = record {
    kept = reap_sessions-FromT T now (v.sessions) (h.kept);
    sent_ok = h.sent_ok;
  }

  run-Trusted :
      (es : List Event) (v : ConcentratorServer)
      → All (Heard a T) es
      → Trusted T v
      → Trusted T (run a es v)
  unfolding run
  run-Trusted [] v t h = h
  run-Trusted (e ∷ es) v (t, ts) h = run-Trusted es (step a e v) ts (step-Trusted e v t h)

  -- Whatever holds of the source of each datagram that authenticates, holds of each address that a
  -- server has sent a datagram to, which starts with no session and nothing sent.
  pub run-sent :
      (es : List Event) (v : ConcentratorServer)
      → v.sessions ≡ []
      → v.sent ≡ []
      → All (Heard a T) es
      → All (λ (x : Address × List ℕ). T x.0) (run a es v).sent
  run-sent es v e none_sent t =
      (run-Trusted es v t (record { kept = rw (e) tt; sent_ok = rw (none_sent) tt })).sent_ok
