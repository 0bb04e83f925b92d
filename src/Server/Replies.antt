-- ===== src/Server/Replies.antt =====
-- turbobond/bond/server.py: what the server replies to a handshake that opens a session.
use turbobond.Base.{
  ℕ, ◌+◌, ◌≡◌, ◌≢◌, ◌<◌, ◌^◌, refl, sym, subst, ap, ◌∙◌, Bool, true, false, none, some, List, [],
  ◌∷◌, if◌then◌else◌, arith, inl, inr,
}
use turbobond.Base.Dict.{lookup, insert, lookup-insert}
use turbobond.Crypto.{Aead}
use turbobond.Protocol.{FrameType, handshake, handshake_ack, Frame, ok, encode_frame, decode_frame}
use turbobond.Protocol.RoundTrip.{encode_frame_cases}
use turbobond.Replay.{init, default_size, ReplayWindow, check_and_update}
use turbobond.Server.{
  PeerLink, Session, ConcentratorServer, Address, session_of, peer_of, next_counter, sealed_send,
  send, take_typed, check_frame, handle_frame, handle_datagram, new_session, new_peer,
}

module _ (a : Aead) where
  pub handle_datagram_of :
      (sends : Bool) (d : List ℕ) (addr : Address) (now : ℕ) (v : ConcentratorServer) (f : Frame)
      (s : Session) (p : PeerLink)
      → decode_frame a d ≡ some f
      → session_of (f.session_id) now v ≡ s
      → peer_of (f.link_id) addr now s ≡ p
      → handle_datagram a sends d addr now v
        ≡ check_frame a sends s p f (check_and_update (p.replay) (f.counter)) now v
  unfolding handle_datagram handle_frame
  handle_datagram_of sends d addr now v f s p e es ep = rw (e) (rw (es) (rw (ep) refl))

  pub session_of-some :
      (i now : ℕ) (v : ConcentratorServer) (s : Session)
      → lookup i (v.sessions) ≡ some s
      → session_of i now v ≡ s
  unfolding session_of
  session_of-some i now v s e = rw (e, session_of) refl

  session_of-none :
      (i now : ℕ) (v : ConcentratorServer)
      → lookup i (v.sessions) ≡ none
      → session_of i now v ≡ new_session i (v.reorder_timeout) now
  unfolding session_of
  session_of-none i now v e = rw (e, session_of) refl

  pub peer_of-some :
      (j : ℕ) (addr : Address) (now : ℕ) (s : Session) (p : PeerLink)
      → lookup j (s.links) ≡ some p
      → peer_of j addr now s ≡ record p { addr = addr }
  unfolding peer_of
  peer_of-some j addr now s p e = rw (e, peer_of) refl

  -- What the reply to the first handshake of a session does.
  abbrev Acked : Frame → ConcentratorServer → ConcentratorServer → Type 0
  Acked f v w =
      (w.nonces ≡ (f.link_id, 1) ∷ v.nonces)
      × (w.listening ≡ v.listening)
      × ((s : Session) × (w.sessions ≡ insert (f.session_id) s (v.sessions)))

  sealed_send-Acked :
      (sends : Bool) (f : Frame) (s : Session) (p : PeerLink) (d : List ℕ) (v : ConcentratorServer)
      → p.counter ≡ 1
      → Acked f v ((sealed_send a sends (f.session_id) s (f.link_id) p (ok d) v).after)
  unfolding sealed_send
  sealed_send-Acked sends f s p d v e = (
    ap (λ c. (f.link_id, c) ∷ v.nonces) e,
    refl,
    (
      record s {
        links =
            insert (f.link_id)
              (record p { tx_packets = if sends then p.tx_packets + 1 else p.tx_packets })
              (s.links);
      },
      refl,
    ),
  )

  encode_ok :
      (t : FrameType) (s l c : ℕ) → l < 2 ^ 32 → (d : List ℕ) × (encode_frame a t s l c 0 [] ≡ ok d)
  encode_ok t s l c h = elim (encode_frame_cases a t s l c 0 []) [
    | inl (e, b) ↦ absurd (omega arith)
    | inr (inl (e, b, w)) ↦ absurd (omega arith)
    | inr (inr (r, b, w)) ↦ r
  ]

  send_ok :
      (sends : Bool) (i j : ℕ) (s : Session) (p : PeerLink) (ft : FrameType) (d : List ℕ)
      (v : ConcentratorServer)
      → v.listening ≡ true
      → encode_frame a ft (s.session_id) (p.link_id) (p.counter + 1) 0 [] ≡ ok d
      → send a sends i s j p ft 0 [] v ≡ sealed_send a sends i s j (next_counter p) (ok d) v
  unfolding send next_counter
  send_ok sends i j s p ft d v l e = rw (l) (rw (e) refl)

  send-Acked :
      (sends : Bool) (f : Frame) (s : Session) (p : PeerLink) (v : ConcentratorServer)
      → v.listening ≡ true
      → p.counter ≡ 0
      → p.link_id < 2 ^ 32
      → Acked f v ((send a sends (f.session_id) s (f.link_id) p handshake_ack 0 [] v).after)
  unfolding next_counter
  send-Acked sends f s p v l c h =
      let (d, e) = encode_ok handshake_ack (s.session_id) (p.link_id) (p.counter + 1) h in
      subst (λ r. Acked f v (r.after))
        (sym (send_ok sends (f.session_id) (f.link_id) s p handshake_ack d v l e))
        (sealed_send-Acked sends f s (next_counter p) d v (omega (arith, c)))

  -- A window that is new takes every counter but 0.
  new_takes : (n c : ℕ) → 0 < c → (check_and_update (init n) c).1 ≡ true
  unfolding check_and_update init
  new_takes n c h = ground arith

  check_frame-Acked :
      (sends : Bool) (s : Session) (p : PeerLink) (f : Frame) (r : ReplayWindow × Bool) (now : ℕ)
      (v : ConcentratorServer)
      → r.1 ≡ true
      → f.type ≡ handshake
      → v.listening ≡ true
      → p.counter ≡ 0
      → p.link_id < 2 ^ 32
      → Acked f v ((check_frame a sends s p f r now v).after)
  unfolding check_frame take_typed
  check_frame-Acked sends s p f (w, false) now v e t l c h = absurd (ground (arith, e))
  check_frame-Acked sends s p f (w, true) now v e t l c h =
      let p' = record p { replay = w; last_seen = now; rx_packets = p.rx_packets + 1 } in
      subst (λ x. Acked f v ((take_typed a x sends (f.session_id) s (f.link_id) p' f now v).after))
        (sym t) (send-Acked sends f s p' v l c h)

  -- A datagram that opens a session.
  pub record Opens (d : List ℕ) (f : Frame) (v : ConcentratorServer) : Type 0 where
    pub decodes : decode_frame a d ≡ some f
    pub is_handshake : f.type ≡ handshake
    pub counted : 0 < f.counter
    pub fits : f.link_id < 2 ^ 32
    pub unknown : lookup (f.session_id) (v.sessions) ≡ none

  handle-Acked :
      (sends : Bool) (d : List ℕ) (addr : Address) (now : ℕ) (v : ConcentratorServer) (f : Frame)
      → Opens d f v
      → v.listening ≡ true
      → Acked f v ((handle_datagram a sends d addr now v).after)
  unfolding peer_of lookup
  handle-Acked sends d addr now v f o l =
      let s = new_session (f.session_id) (v.reorder_timeout) now in
      let p = new_peer (f.link_id) addr now in
      subst (λ r. Acked f v (r.after))
        (sym (
          handle_datagram_of sends d addr now v f s p (o.decodes)
            (session_of-none (f.session_id) now v (o.unknown)) refl))
        (check_frame-Acked sends s p f (check_and_update (p.replay) (f.counter)) now v
          (new_takes default_size (f.counter) (o.counted)) (o.is_handshake) l refl (o.fits))

  -- On a server that listens, two handshakes with counters above 0 that open different sessions on the
  -- same link id, which fits 32 bits, are answered with the same link id and the same counter 1, of which
  -- the nonce is made.
  pub sessions_share_nonce :
      (sends : Bool) (d1 d2 : List ℕ) (from1 from2 : Address) (now later : ℕ)
      (v : ConcentratorServer) (f1 f2 : Frame)
      → v.listening ≡ true
      → Opens d1 f1 v
      → Opens d2 f2 v
      → f1.session_id ≢ f2.session_id
      → f1.link_id ≡ f2.link_id
      → (handle_datagram a sends d2 from2 later
          (handle_datagram a sends d1 from1 now v).after).after.nonces
        ≡ (f1.link_id, 1) ∷ (f1.link_id, 1) ∷ v.nonces
  sessions_share_nonce sends d1 d2 from1 from2 now later v f1 f2 l o1 o2 different same =
      let w = (handle_datagram a sends d1 from1 now v).after in
      let (n1, l1, (s, e)) = handle-Acked sends d1 from1 now v f1 o1 l in
      let o : Opens d2 f2 w = record {
        decodes = o2.decodes;
        is_handshake = o2.is_handshake;
        counted = o2.counted;
        fits = o2.fits;
        unknown =
            ap (lookup f2.session_id) e
            ∙ ground
                (arith, lookup-insert (f1.session_id) (f2.session_id) s (v.sessions), o2.unknown);
      } in
      let (n2, l2, t) = handle-Acked sends d2 from2 later w f2 o (l1 ∙ l) in n2 ∙ ground (arith, n1)
