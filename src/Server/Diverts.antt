-- ===== src/Server/Diverts.antt =====
-- turbobond/bond/server.py: where the packets for a client go after a datagram that was refused.
use turbobond.Base.{
  ℕ, ◌+◌, ◌%◌, ◌≤◌, ◌<◌, ◌^◌, ◌≡◌, refl, sym, ap, subst, ◌∙◌, Bool, true, false, some, List, [],
  ◌∷◌, length, get_elem?, keep, ==_refl, arith, inl, inr,
}
use turbobond.Base.Dict.{lookup, insert, values}
use turbobond.Crypto.{Aead}
use turbobond.Protocol.{FrameType, data_frame, Frame, ok, encode_frame, decode_frame, max_payload}
use turbobond.Protocol.RoundTrip.{encode_frame_cases}
use turbobond.Replay.{ReplayWindow, check_and_update}
use turbobond.Server.{
  PeerLink, Session, ConcentratorServer, Ran, Address, alive, done, put_peer, next_counter,
  sealed_send, send, check_frame, handle_datagram,
}
use turbobond.Server.Downstream.{
  live_links, return_from, pick_return_link, place, newest_first, send_picked, dispatch_on,
  dispatch_downstream,
}
use turbobond.Server.Replies.{handle_datagram_of, session_of-some, peer_of-some}

get_elem-mod_one : {A : Type 0} (x : A) (c : ℕ) → get_elem? (x ∷ []) (c % 1) ≡ some x
get_elem-mod_one x c = let e : c % 1 ≡ 0 = omega arith in rw (e) refl

insert_sole : {V : Type 0} (k : ℕ) (v w : V) → insert k v ((k, w) ∷ []) ≡ (k, v) ∷ []
unfolding insert
insert_sole k v w = rw (==_refl k) refl

lookup_sole : {V : Type 0} (k : ℕ) (v : V) → lookup k ((k, v) ∷ []) ≡ some v
unfolding lookup
lookup_sole k v = rw (==_refl k) refl

pick_sole :
    (now j : ℕ) (s : Session) (p : PeerLink)
    → s.links ≡ (j, p) ∷ []
    → alive now p ≡ true
    → pick_return_link now s ≡ (some p, record s { cursor = s.cursor + 1 })
unfolding pick_return_link live_links return_from values
pick_sole now j s p e l =
    let next = record s { cursor = s.cursor + 1 } in
    let sole : keep (alive now) (p ∷ []) ≡ p ∷ [] = rw (l) refl in
    ap (λ ls. return_from (keep (alive now) (values ls)) s) e
    ∙ ap (λ ls. return_from ls s) sole
    ∙ ap (λ o. (o, next)) (get_elem-mod_one p (s.cursor))

module _ (a : Aead) where
  send_sent :
      (i j : ℕ) (s : Session) (p : PeerLink) (ft : FrameType) (q : ℕ) (payload d : List ℕ)
      (v : ConcentratorServer)
      → v.listening ≡ true
      → encode_frame a ft (s.session_id) (p.link_id) (p.counter + 1) q payload ≡ ok d
      → (send a true i s j p ft q payload v).after.sent ≡ (p.addr, d) ∷ v.sent
  unfolding send sealed_send next_counter
  send_sent i j s p ft q payload d v l e = rw (l) (rw (e) refl)

  -- A packet for the only session, on its only link: the next frame of both goes to the link's address.
  abbrev pub Dispatched : List ℕ → Session → PeerLink → Address → ConcentratorServer → Ran → Type 0
  Dispatched packet s p addr v r =
      (d : List ℕ) × (encode_frame a data_frame (s.session_id) (p.link_id) (p.counter + 1)
          (s.seq + 1) packet
        ≡ ok d)
      × (r.after.sent ≡ (addr, d) ∷ v.sent)

  dispatch_sole :
      (packet : List ℕ) (now i j : ℕ) (s : Session) (p : PeerLink) (v : ConcentratorServer)
      → v.sessions ≡ (i, s) ∷ []
      → s.links ≡ (j, p) ∷ []
      → v.listening ≡ true
      → alive now p ≡ true
      → length packet ≤ max_payload
      → p.link_id < 2 ^ 32
      → Dispatched packet s p (p.addr) v (dispatch_downstream a true packet now v)
  unfolding dispatch_downstream dispatch_on newest_first place send_picked
  dispatch_sole packet now i j s p v es el l al small fits =
      let sealed =
        encode_frame_cases a data_frame (s.session_id) (p.link_id) (p.counter + 1) (s.seq + 1)
          packet in
      elim sealed [
        | inl (e, b) ↦ absurd (omega (arith, b, small))
        | inr (inl (e, b, w)) ↦ absurd (omega (arith, w, fits))
        | inr (inr ((d, e), b, w)) ↦ (
          d,
          e,
          ap (λ xs. (dispatch_on a true packet now (newest_first xs) v).after.sent) es
              ∙ ap (λ r. (send_picked a true packet i r (done v) v).after.sent)
                  (pick_sole now j s p el al)
              ∙ send_sent i (p.link_id) (record s { cursor = s.cursor + 1; seq = s.seq + 1 }) p
                  data_frame (s.seq + 1) packet d _ l e,
        )
      ]

  -- A frame that the window refuses changes the window and the count of the refused.
  check_frame-false :
      (sends : Bool) (s : Session) (p : PeerLink) (f : Frame) (r : ReplayWindow × Bool) (now : ℕ)
      (v : ConcentratorServer)
      → r.1 ≡ false
      → check_frame a sends s p f r now v
        ≡ done (
            put_peer
              (f.session_id)
              s
              (f.link_id)
              (record p { replay = r.0 })
              (record v { rejected = v.rejected + 1 }))
  unfolding check_frame
  check_frame-false sends s p f (w, true) now v e = absurd (ground (arith, e))
  check_frame-false sends s p f (w, false) now v e = refl

  -- On a server that listens, with one session, which has one live link of an id that fits 32 bits, whose
  -- window refuses the counter of a datagram, the next packet for the client, if it is not too long, goes,
  -- sealed as the next frame of the session and the link, to the address that the refused datagram came
  -- from, though this datagram delivers nothing and draws no answer.
  pub refused_diverts :
      (sends : Bool) (d : List ℕ) (addr : Address) (now later : ℕ) (packet : List ℕ)
      (v : ConcentratorServer) (f : Frame) (s : Session) (p : PeerLink)
      → decode_frame a d ≡ some f
      → v.sessions ≡ (f.session_id, s) ∷ []
      → s.links ≡ (f.link_id, p) ∷ []
      → (check_and_update (p.replay) (f.counter)).1 ≡ false
      → v.listening ≡ true
      → alive later p ≡ true
      → length packet ≤ max_payload
      → p.link_id < 2 ^ 32
      → (let w = (handle_datagram a sends d addr now v).after in
          (w.written ≡ v.written)
          × (w.sent ≡ v.sent)
          × Dispatched packet s p addr v (dispatch_downstream a true packet later w))
  unfolding alive
  refused_diverts sends d addr now later packet v f s p e es el refused l al small fits =
      let i = f.session_id in
      let j = f.link_id in
      let known = ap (lookup i) es ∙ lookup_sole i s in
      let linked = ap (lookup j) el ∙ lookup_sole j p in
      let r = check_and_update (p.replay) (f.counter) in
      let moved = record p { addr = addr } in
      let p' = record moved { replay = r.0 } in
      let s' = record s { links = insert j p' (s.links) } in
      let w = put_peer i s j p' (record v { rejected = v.rejected + 1 }) in
      let handled : handle_datagram a sends d addr now v ≡ done w =
        handle_datagram_of a sends d addr now v f s moved e (session_of-some a i now v s known)
          (peer_of-some a j addr now s p linked)
        ∙ check_frame-false sends s moved f r now v refused in
      subst
        (λ (x : Ran).
          (x.after.written ≡ v.written)
          × (x.after.sent ≡ v.sent)
          × Dispatched packet s p addr v (dispatch_downstream a true packet later (x.after)))
        (sym handled)
        (
          refl,
          refl,
          dispatch_sole packet later i j s' p' w (ap (insert i s') es ∙ insert_sole i s' s)
              (ap (insert j p') el ∙ insert_sole j p' p) l al small fits,
        )
