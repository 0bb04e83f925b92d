-- ===== src/Tunnel/Replayed.antt =====
-- turbobond/bond/tunnel.py: a datagram that comes twice in a row is delivered at most once.
use turbobond.Base.{
  ℕ, ◌+◌, ◌≡◌, ◌⊎◌, refl, ap, sym, subst, ◌∙◌, Bool, true, false, Option, none, some, List, [], ◌∷◌,
  length, ltb, arith, Option-cases, Bool-cases, inl, inr,
}
use turbobond.Base.Dict.{Dict, lookup, insert, lookup-insert_self}
use turbobond.Crypto.{Aead}
use turbobond.Protocol.{
  FrameType, data_frame, keepalive, close, handshake, handshake_ack, link_stats, Frame,
  decode_frame, header_len,
}
use turbobond.Replay.{ReplayWindow, check_and_update}
use turbobond.Replay.Window.{check_used, accept-IsUsed}
use turbobond.Reorder.{ReorderBuffer, push}
use turbobond.Tunnel.{
  LinkSocket, BondingTunnel, Ran, put, write_all, released, deliver, take_typed, take_frame,
  check_frame, handle_frame, handle_datagram, read_on, read_socket,
}
use turbobond.Tunnel.Counters.{read_socket_hit, read_socket_miss}

-- A refusal leaves the window alone.
refused_same :
    (w : ReplayWindow) (c : ℕ) → (check_and_update w c).1 ≡ false → (check_and_update w c).0 ≡ w
unfolding check_and_update
refused_same w c e = ground arith

-- A counter that was checked is refused when it comes again.
checked_twice : (w : ReplayWindow) (c : ℕ) → (check_and_update (check_and_update w c).0 c).1 ≡ false
checked_twice w c = elim (Bool-cases (check_and_update w c).1) [
  | inl e ↦ check_used (check_and_update w c).0 c (accept-IsUsed w c e)
  | inr e ↦ ap (λ v. (check_and_update v c).1) (refused_same w c e) ∙ e
]

-- The socket refuses the frame, if there is one.
abbrev Refuses : Option Frame → LinkSocket → Type 0
Refuses none ls = Unit {0}
Refuses (some f) ls = (check_and_update (ls.replay) (f.counter)).1 ≡ false

-- The socket of a link has this replay window.
abbrev HasWindow : ℕ → ReplayWindow → Dict LinkSocket → Type 0
HasWindow i w d = (ls : LinkSocket) × (lookup i d ≡ some ls) × (ls.replay ≡ w)

insert-HasWindow :
    (i : ℕ) (ls : LinkSocket) (d : Dict LinkSocket) → HasWindow i (ls.replay) (insert i ls d)
insert-HasWindow i ls d = (ls, lookup-insert_self i ls d, refl)

module _ {F : Type 0} where
  write_all_sockets :
      (ps : List (List ℕ)) (t : BondingTunnel F) → (write_all ps t).sockets ≡ t.sockets
  unfolding write_all
  write_all_sockets [] t = refl
  write_all_sockets (p ∷ ps) t = write_all_sockets ps (record t { written = p ∷ t.written })

  released_sockets :
      (o : Option (ReorderBuffer (List ℕ) × List (List ℕ))) (t : BondingTunnel F)
      → (released o t).after.sockets ≡ t.sockets
  unfolding released
  released_sockets none t = refl
  released_sockets (some (b, ps)) t = write_all_sockets ps (record t { reorder = b })

  module _ (a : Aead) where
    deliver_sockets :
        (q : ℕ) (p : List ℕ) (now : ℕ) (t : BondingTunnel F)
        → (deliver a q p now t).after.sockets ≡ t.sockets
    unfolding deliver
    deliver_sockets q [] now t = refl
    deliver_sockets q (b ∷ bs) now t = released_sockets (push (t.reorder) q (b ∷ bs) now) t

    take_typed-HasWindow :
        (ft : FrameType) (f : Frame) (i : ℕ) (ls : LinkSocket) (now : ℕ) (t : BondingTunnel F)
        → HasWindow i (ls.replay) ((take_typed a ft f i ls now t).after.sockets)
    unfolding take_typed
    take_typed-HasWindow data_frame f i ls now t =
        subst (HasWindow i (ls.replay)) (sym (deliver_sockets (f.seq) (f.payload) now (put i ls t)))
          (insert-HasWindow i ls (t.sockets))
    take_typed-HasWindow close f i ls now t =
        insert-HasWindow i (record ls { handshaken = false }) (t.sockets)
    take_typed-HasWindow keepalive f i ls now t = insert-HasWindow i ls (t.sockets)
    take_typed-HasWindow handshake f i ls now t = insert-HasWindow i ls (t.sockets)
    take_typed-HasWindow handshake_ack f i ls now t = insert-HasWindow i ls (t.sockets)
    take_typed-HasWindow link_stats f i ls now t = insert-HasWindow i ls (t.sockets)

    check_frame-HasWindow :
        (i : ℕ) (f : Frame) (n : ℕ) (ls : LinkSocket) (r : ReplayWindow × Bool) (now : ℕ)
        (t : BondingTunnel F)
        → HasWindow i r.0 ((check_frame a i f n ls r now t).after.sockets)
    unfolding check_frame take_frame
    check_frame-HasWindow i f n ls (w, true) now t =
        take_typed-HasWindow (f.type) f i
          (record ls {
            replay = w;
            rx_packets = ls.rx_packets + 1;
            rx_bytes = ls.rx_bytes + n;
            last_rx_ts = now;
            handshaken = true;
          })
          now t
    check_frame-HasWindow i f n ls (w, false) now t =
        insert-HasWindow i (record ls { replay = w }) (t.sockets)

    -- A refused counter writes nothing.
    check_frame_refused :
        (i : ℕ) (f : Frame) (n : ℕ) (ls : LinkSocket) (r : ReplayWindow × Bool) (now : ℕ)
        (t : BondingTunnel F)
        → r.1 ≡ false
        → (check_frame a i f n ls r now t).after.written ≡ t.written
    unfolding check_frame
    check_frame_refused i f n ls (w, true) now t e = absurd (ground (arith, e))
    check_frame_refused i f n ls (w, false) now t e = refl

    handle_frame_refused :
        (i : ℕ) (o : Option Frame) (n : ℕ) (ls : LinkSocket) (now : ℕ) (t : BondingTunnel F)
        → Refuses o ls
        → (handle_frame a i o n ls now t).after.written ≡ t.written
    unfolding handle_frame
    handle_frame_refused i none n ls now t r = refl
    handle_frame_refused i (some f) n ls now t r =
        check_frame_refused i f n ls (check_and_update (ls.replay) (f.counter)) now t r

    handle_frame-Refuses :
        (i : ℕ) (o : Option Frame) (n : ℕ) (ls : LinkSocket) (now : ℕ) (t : BondingTunnel F)
        → lookup i (t.sockets) ≡ some ls
        → (ls2 : LinkSocket) × (lookup i ((handle_frame a i o n ls now t).after.sockets) ≡ some ls2)
          × Refuses o ls2
    unfolding handle_frame
    handle_frame-Refuses i none n ls now t e = (ls, e, tt)
    handle_frame-Refuses i (some f) n ls now t e =
        let (ls2, e2, w) =
          check_frame-HasWindow i f n ls (check_and_update (ls.replay) (f.counter)) now t in
        (
          ls2,
          e2,
          subst (λ v. (check_and_update v (f.counter)).1 ≡ false) (sym w)
              (checked_twice (ls.replay) (f.counter)),
        )

    read_on_short :
        (i : ℕ) (ls : LinkSocket) (d : List ℕ) (now : ℕ) (t : BondingTunnel F)
        → ltb (length d) header_len ≡ true
        → read_on a i ls d now t ≡ record { after = t; raised = false }
    unfolding read_on
    read_on_short i ls d now t e = rw (e) refl

    read_on_long :
        (i : ℕ) (ls : LinkSocket) (d : List ℕ) (now : ℕ) (t : BondingTunnel F)
        → ltb (length d) header_len ≡ false
        → read_on a i ls d now t ≡ handle_frame a i (decode_frame a d) (length d) ls now t
    unfolding read_on handle_datagram
    read_on_long i ls d now t e = rw (e) refl

    -- Nothing is written for a datagram that is short, or that its socket refuses.
    read_quiet :
        (i : ℕ) (ls : LinkSocket) (d : List ℕ) (now : ℕ) (t : BondingTunnel F)
        → lookup i (t.sockets) ≡ some ls
        → (ltb (length d) header_len ≡ true) ⊎ Refuses (decode_frame a d) ls
        → (read_socket a i d now t).after.written ≡ t.written
    read_quiet i ls d now t e r =
        ap (λ x. x.after.written) (read_socket_hit a i ls d now t e) ∙ elim r [
          | inl short ↦ ap (λ x. x.after.written) (read_on_short i ls d now t short)
          | inr refusal ↦ elim (Bool-cases (ltb (length d) header_len)) [
            | inl short ↦ ap (λ x. x.after.written) (read_on_short i ls d now t short)
            | inr long ↦
                ap (λ x. x.after.written) (read_on_long i ls d now t long)
                ∙ handle_frame_refused i (decode_frame a d) (length d) ls now t refusal
          ]
        ]

    -- What is to be shown of the outcome of the first reading.
    abbrev Quiet : ℕ → List ℕ → ℕ → Ran F → Type 0
    Quiet i d later r = (read_socket a i d later (r.after)).after.written ≡ r.after.written

    read_on-Quiet :
        (i : ℕ) (ls : LinkSocket) (d : List ℕ) (now later : ℕ) (t : BondingTunnel F)
        → lookup i (t.sockets) ≡ some ls
        → Quiet i d later (read_on a i ls d now t)
    read_on-Quiet i ls d now later t e = elim (Bool-cases (ltb (length d) header_len)) [
      | inl short ↦
          subst (Quiet i d later) (sym (read_on_short i ls d now t short))
            (read_quiet i ls d later t e (inl short))
      | inr long ↦ subst (Quiet i d later) (sym (read_on_long i ls d now t long)) (
          let (ls2, e2, refusal) =
            handle_frame-Refuses i (decode_frame a d) (length d) ls now t e in
          read_quiet i ls2 d later ((handle_frame a i (decode_frame a d) (length d) ls now t).after)
            e2 (inr refusal))
    ]

-- A datagram that is read again right after it was read on the same link writes no packet to the
-- device, whatever it is and whatever the first reading did.
pub read_socket_twice :
    (a : Aead) {F : Type 0} (i : ℕ) (d : List ℕ) (now later : ℕ) (t : BondingTunnel F)
    → (read_socket a i d later ((read_socket a i d now t).after)).after.written
      ≡ (read_socket a i d now t).after.written
read_socket_twice a i d now later t = elim (Option-cases (lookup i (t.sockets))) [
  | inl e ↦
      subst (Quiet a i d later) (sym (read_socket_miss a i d now t e))
        (ap (λ x. x.after.written) (read_socket_miss a i d later t e))
  | inr (ls, e) ↦
      subst (Quiet a i d later) (sym (read_socket_hit a i ls d now t e))
        (read_on-Quiet a i ls d now later t e)
]
