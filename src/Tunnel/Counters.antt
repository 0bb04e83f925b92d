-- ===== src/Tunnel/Counters.antt =====
-- turbobond/bond/tunnel.py: no link seals two datagrams with the same counter.
use turbobond.Base.{
  ℕ, ◌+◌, ◌≤◌, ◌≡◌, refl, sym, subst, Bool, true, false, Option, none, some, List, [], ◌∷◌, ltb,
  if◌then◌else◌, arith, length, Option-cases, inl, inr,
}
use turbobond.Base.Dict.{lookup}
use turbobond.Base.Floats.{Floats}
use turbobond.Crypto.{Aead}
use turbobond.Protocol.{
  FrameType, data_frame, keepalive, close, handshake, handshake_ack, link_stats, Frame,
  decode_frame, header_len,
}
use turbobond.Replay.{ReplayWindow, check_and_update}
use turbobond.Reorder.{push, tick}
use turbobond.Scheduler.{select}
use turbobond.Tunnel.{
  LinkSocket, BondingTunnel, put, reorder_tick, refresh_links, send_control, send_packet,
  take_frame, check_frame, handle_frame, handle_datagram, deliver, take_typed, read_on, critical,
  read_socket, Event, from_device, control, from_socket, ticked, relinked, step, run,
}
use turbobond.Tunnel.Sending.{
  NoRepeat, Inv, Safe, counter_at, counter_at_of, insert-Inv, released-Safe, send_frame-Safe,
  send_chosen-Safe,
}

module _ (a : Aead) {F : Type 0} where
  pub read_socket_hit :
      (i : ℕ) (ls : LinkSocket) (d : List ℕ) (now : ℕ) (t : BondingTunnel F)
      → lookup i (t.sockets) ≡ some ls
      → read_socket a i d now t ≡ read_on a i ls d now t
  unfolding read_socket
  read_socket_hit i ls d now t e = rw (e, read_socket) refl

  pub read_socket_miss :
      (i : ℕ) (d : List ℕ) (now : ℕ) (t : BondingTunnel F)
      → lookup i (t.sockets) ≡ none
      → read_socket a i d now t ≡ record { after = t; raised = false }
  unfolding read_socket
  read_socket_miss i d now t e = rw (e, read_socket) refl

  -- A datagram moves no counter.
  deliver-Safe :
      (q : ℕ) (p : List ℕ) (now : ℕ) (t : BondingTunnel F)
      → Safe t
      → Safe ((deliver a q p now t).after)
  unfolding deliver
  deliver-Safe q [] now t s = s
  deliver-Safe q (b ∷ bs) now t s = released-Safe (push (t.reorder) q (b ∷ bs) now) t s

  take_typed-Safe :
      (ft : FrameType) (f : Frame) (i : ℕ) (ls : LinkSocket) (now : ℕ) (t : BondingTunnel F)
      → counter_at i (t.sockets) ≤ ls.counter
      → Safe t
      → Safe ((take_typed a ft f i ls now t).after)
  unfolding take_typed
  take_typed-Safe data_frame f i ls now t h s =
      deliver-Safe (f.seq) (f.payload) now (put i ls t) (insert-Inv i ls (t.sockets) (t.nonces) h s)
  take_typed-Safe close f i ls now t h s =
      insert-Inv i (record ls { handshaken = false }) (t.sockets) (t.nonces) h s
  take_typed-Safe keepalive f i ls now t h s = insert-Inv i ls (t.sockets) (t.nonces) h s
  take_typed-Safe handshake f i ls now t h s = insert-Inv i ls (t.sockets) (t.nonces) h s
  take_typed-Safe handshake_ack f i ls now t h s = insert-Inv i ls (t.sockets) (t.nonces) h s
  take_typed-Safe link_stats f i ls now t h s = insert-Inv i ls (t.sockets) (t.nonces) h s

  check_frame-Safe :
      (i : ℕ) (f : Frame) (n : ℕ) (ls : LinkSocket) (r : ReplayWindow × Bool) (now : ℕ)
      (t : BondingTunnel F)
      → counter_at i (t.sockets) ≤ ls.counter
      → Safe t
      → Safe ((check_frame a i f n ls r now t).after)
  unfolding check_frame take_frame
  check_frame-Safe i f n ls (w, true) now t h s =
      take_typed-Safe (f.type) f i
        (record ls {
          replay = w;
          rx_packets = ls.rx_packets + 1;
          rx_bytes = ls.rx_bytes + n;
          last_rx_ts = now;
          handshaken = true;
        })
        now t h s
  check_frame-Safe i f n ls (w, false) now t h s =
      insert-Inv i (record ls { replay = w }) (t.sockets) (t.nonces) h s

  handle_frame-Safe :
      (i : ℕ) (o : Option Frame) (n : ℕ) (ls : LinkSocket) (now : ℕ) (t : BondingTunnel F)
      → counter_at i (t.sockets) ≤ ls.counter
      → Safe t
      → Safe ((handle_frame a i o n ls now t).after)
  unfolding handle_frame
  handle_frame-Safe i none n ls now t h s = s
  handle_frame-Safe i (some f) n ls now t h s =
      check_frame-Safe i f n ls (check_and_update (ls.replay) (f.counter)) now t h s

  read_on-Safe :
      (i : ℕ) (ls : LinkSocket) (d : List ℕ) (now : ℕ) (t : BondingTunnel F)
      → counter_at i (t.sockets) ≤ ls.counter
      → Safe t
      → Safe ((read_on a i ls d now t).after)
  unfolding read_on handle_datagram
  read_on-Safe i ls d now t h s =
      elim (ltb (length d) header_len)
        as (λ b. Safe (
          (if b
            then record { after = t; raised = false }
            else handle_datagram a i ls d now t).after)) [
              | true ↦ s
              | false ↦ handle_frame-Safe i (decode_frame a d) (length d) ls now t h s
            ]

  read_socket-Safe :
      (i : ℕ) (d : List ℕ) (now : ℕ) (t : BondingTunnel F)
      → Safe t
      → Safe ((read_socket a i d now t).after)
  read_socket-Safe i d now t s = elim (Option-cases (lookup i (t.sockets))) [
    | inl e ↦ subst (λ r. Safe (r.after)) (sym (read_socket_miss i d now t e)) s
    | inr (ls, e) ↦
        subst (λ r. Safe (r.after)) (sym (read_socket_hit i ls d now t e))
          (read_on-Safe i ls d now t (omega (arith, counter_at_of i ls (t.sockets) e)) s)
  ]

  step-Safe : (fl : Floats F) (e : Event F) (t : BondingTunnel F) → Safe t → Safe (step a fl e t)
  unfolding step send_packet send_control reorder_tick refresh_links
  step-Safe fl (from_device net p) t s =
      send_chosen-Safe a net p (select fl (length p) (critical a t p) (t.scheduler)) t s
  step-Safe fl (control net ft i) t s = send_frame-Safe a net ft 0 [] i t s
  step-Safe fl (from_socket i d now) t s = read_socket-Safe i d now t s
  step-Safe fl (ticked now) t s = released-Safe (tick (t.reorder) now) t s
  step-Safe fl (relinked links) t s = s

  run-Safe :
      (fl : Floats F) (es : List (Event F)) (t : BondingTunnel F) → Safe t → Safe (run a fl es t)
  unfolding run
  run-Safe fl [] t s = s
  run-Safe fl (e ∷ es) t s = run-Safe fl es (step a fl e t) (step-Safe fl e t s)

-- From a tunnel that has sealed nothing, whatever it sends and receives, no link seals two datagrams
-- with the same counter.
pub run-NoRepeat :
    (a : Aead) {F : Type 0} (fl : Floats F) (es : List (Event F)) (t : BondingTunnel F)
    → t.nonces ≡ []
    → NoRepeat ((run a fl es t).nonces)
run-NoRepeat a fl es t e = (run-Safe a fl es t (subst (Inv (t.sockets)) (sym e) (tt, tt))).0
