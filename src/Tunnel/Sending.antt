-- ===== src/Tunnel/Sending.antt =====
-- turbobond/bond/tunnel.py: each frame takes its link's next counter.
use turbobond.Base.{
  ℕ, ◌+◌, ◌≤◌, ◌≡◌, refl, sym, subst, Bool, true, false, ◌&&◌, ◌||◌, Option, none, some, List, [],
  ◌∷◌, ◌==◌, if◌then◌else◌, arith, length, Option-cases, inl, inr,
}
use turbobond.Base.Dict.{Dict, lookup, insert, lookup-insert}
use turbobond.Crypto.{Aead}
use turbobond.Protocol.{FrameType, data_frame, Result, ok, err, encode_frame}
use turbobond.Reorder.{ReorderBuffer}
use turbobond.Links.{Link}
use turbobond.Scheduler.{BondScheduler}
use turbobond.Tunnel.{
  LinkSocket, BondingTunnel, Network, next_counter, put, sendto, write_all, released, sealed_send,
  send_on, send_frame, send_all, send_chosen,
}

-- Whether a link and a counter are in the log.
unfoldable pub used : ℕ → ℕ → List (ℕ × ℕ) → Bool
used i c [] = false
used i c ((j, d) ∷ ns) = ((i == j) && (c == d)) || used i c ns

-- No link and counter twice in the log.
abbrev pub NoRepeat : List (ℕ × ℕ) → Type 0
NoRepeat [] = Unit {0}
NoRepeat ((i, c) ∷ ns) = (used i c ns ≡ false) × NoRepeat ns

unfoldable pub counter_at : ℕ → Dict LinkSocket → ℕ
counter_at i d = elim (lookup i d) [ none ↦ 0 | some ls ↦ ls.counter ]

-- Every logged counter is at most its link's.
abbrev Below : Dict LinkSocket → List (ℕ × ℕ) → Type 0
Below d [] = Unit {0}
Below d ((i, c) ∷ ns) = (c ≤ counter_at i d) × Below d ns

abbrev pub Inv : Dict LinkSocket → List (ℕ × ℕ) → Type 0
Inv d ns = NoRepeat ns × Below d ns

counter_at-insert :
    (j i : ℕ) (ls : LinkSocket) (d : Dict LinkSocket)
    → counter_at j (insert i ls d) ≡ (if i == j then ls.counter else counter_at j d)
unfolding counter_at
counter_at-insert j i ls d = ground (arith, lookup-insert i j ls d)

pub counter_at_of :
    (i : ℕ) (ls : LinkSocket) (d : Dict LinkSocket)
    → lookup i d ≡ some ls
    → counter_at i d ≡ ls.counter
unfolding counter_at
counter_at_of i ls d e = rw (e, counter_at) refl

-- A counter above its link's is not in the log.
not_used :
    (i c : ℕ) (d : Dict LinkSocket) (ns : List (ℕ × ℕ))
    → Below d ns
    → counter_at i d + 1 ≤ c
    → used i c ns ≡ false
unfolding used
not_used i c d [] b h = refl
not_used i c d ((j, e) ∷ ns) b h = ground (arith, not_used i c d ns)

insert-Below :
    (i : ℕ) (ls : LinkSocket) (d : Dict LinkSocket) (ns : List (ℕ × ℕ))
    → counter_at i d ≤ ls.counter
    → Below d ns
    → Below (insert i ls d) ns
insert-Below i ls d [] h b = tt
insert-Below i ls d ((j, c) ∷ ns) h b =
    (ground (arith, counter_at-insert j i ls d, b.0), insert-Below i ls d ns h b.1)

pub insert-Inv :
    (i : ℕ) (ls : LinkSocket) (d : Dict LinkSocket) (ns : List (ℕ × ℕ))
    → counter_at i d ≤ ls.counter
    → Inv d ns
    → Inv (insert i ls d) ns
insert-Inv i ls d ns h (u, b) = (u, insert-Below i ls d ns h b)

-- The next counter of a link goes to the log.
bump-Inv :
    (i : ℕ) (ls : LinkSocket) (d : Dict LinkSocket) (ns : List (ℕ × ℕ))
    → counter_at i d + 1 ≡ ls.counter
    → Inv d ns
    → Inv (insert i ls d) ((i, ls.counter) ∷ ns)
bump-Inv i ls d ns h (u, b) = (
  (not_used i (ls.counter) d ns b (omega (arith, h)), u),
  (ground (arith, counter_at-insert i i ls d), insert-Below i ls d ns (omega (arith, h)) b),
)

module _ {F : Type 0} where
  abbrev pub Safe : BondingTunnel F → Type 0
  Safe t = Inv (t.sockets) (t.nonces)

  write_all-Safe : (ps : List (List ℕ)) (t : BondingTunnel F) → Safe t → Safe (write_all ps t)
  unfolding write_all
  write_all-Safe [] t i = i
  write_all-Safe (p ∷ ps) t i = write_all-Safe ps (record t { written = p ∷ t.written }) i

  pub released-Safe :
      (o : Option (ReorderBuffer (List ℕ) × List (List ℕ))) (t : BondingTunnel F)
      → Safe t
      → Safe ((released o t).after)
  unfolding released
  released-Safe none t i = i
  released-Safe (some (b, ps)) t i = write_all-Safe ps (record t { reorder = b }) i

  module _ (a : Aead) where
    sealed_send-Safe :
        (net : Network) (i : ℕ) (ls : LinkSocket) (r : Result (List ℕ)) (t : BondingTunnel F)
        → counter_at i (t.sockets) + 1 ≡ ls.counter
        → Safe t
        → Safe ((sealed_send a net i ls r t).after)
    unfolding sealed_send sendto
    sealed_send-Safe net i ls (err e) t h s =
        insert-Inv i ls (t.sockets) (t.nonces) (omega (arith, h)) s
    sealed_send-Safe net i ls (ok d) t h s =
        elim (net.sends i)
          as (λ b. Safe (
            if b
            then put i
                (record ls {
                  tx_packets = ls.tx_packets + 1;
                  tx_bytes = ls.tx_bytes + length d;
                  last_tx_ts = net.now;
                })
                (record t { nonces = (i, ls.counter) ∷ t.nonces })
            else put i ls (record t { nonces = (i, ls.counter) ∷ t.nonces }))) [
              | true ↦
                  bump-Inv i
                    (record ls {
                      tx_packets = ls.tx_packets + 1;
                      tx_bytes = ls.tx_bytes + length d;
                      last_tx_ts = net.now;
                    })
                    (t.sockets) (t.nonces) h s
              | false ↦ bump-Inv i ls (t.sockets) (t.nonces) h s
            ]

    send_on-Safe :
        (net : Network) (ft : FrameType) (q : ℕ) (p : List ℕ) (i : ℕ) (ls : LinkSocket)
        (t : BondingTunnel F)
        → lookup i (t.sockets) ≡ some ls
        → Safe t
        → Safe ((send_on a net ft q p i ls t).after)
    unfolding send_on next_counter
    send_on-Safe net ft q p i ls t e s =
        sealed_send-Safe net i (next_counter ls)
          (encode_frame a ft (t.session_id) i (ls.counter + 1) q p) t
          (omega (arith, counter_at_of i ls (t.sockets) e)) s

    send_frame_hit :
        (net : Network) (ft : FrameType) (q : ℕ) (p : List ℕ) (i : ℕ) (ls : LinkSocket)
        (t : BondingTunnel F)
        → lookup i (t.sockets) ≡ some ls
        → send_frame a net ft q p i t ≡ send_on a net ft q p i ls t
    unfolding send_frame
    send_frame_hit net ft q p i ls t e = rw (e, send_frame) refl

    send_frame_miss :
        (net : Network) (ft : FrameType) (q : ℕ) (p : List ℕ) (i : ℕ) (t : BondingTunnel F)
        → lookup i (t.sockets) ≡ none
        → send_frame a net ft q p i t ≡ record { after = t; raised = false }
    unfolding send_frame
    send_frame_miss net ft q p i t e = rw (e, send_frame) refl

    pub send_frame-Safe :
        (net : Network) (ft : FrameType) (q : ℕ) (p : List ℕ) (i : ℕ) (t : BondingTunnel F)
        → Safe t
        → Safe ((send_frame a net ft q p i t).after)
    send_frame-Safe net ft q p i t s = elim (Option-cases (lookup i (t.sockets))) [
      | inl e ↦ subst (λ r. Safe (r.after)) (sym (send_frame_miss net ft q p i t e)) s
      | inr (ls, e) ↦
          subst (λ r. Safe (r.after)) (sym (send_frame_hit net ft q p i ls t e))
            (send_on-Safe net ft q p i ls t e s)
    ]

    send_all-Safe :
        (net : Network) (q : ℕ) (p : List ℕ) (ls : List (Link F)) (t : BondingTunnel F)
        → Safe t
        → Safe ((send_all a net q p ls t).after)
    unfolding send_all
    send_all-Safe net q p [] t s = s
    send_all-Safe net q p (l ∷ ls) t s =
        let first = send_frame a net data_frame q p (l.link_id) t in
        let one = send_frame-Safe net data_frame q p (l.link_id) t s in
        elim (first.raised)
          as (λ b. Safe ((if b then first else send_all a net q p ls (first.after)).after)) [
            | true ↦ one
            | false ↦ send_all-Safe net q p ls (first.after) one
          ]

    pub send_chosen-Safe :
        (net : Network) (p : List ℕ) (o : Option (List (Link F) × BondScheduler F))
        (t : BondingTunnel F)
        → Safe t
        → Safe ((send_chosen a net p o t).after)
    unfolding send_chosen
    send_chosen-Safe net p none t s = s
    send_chosen-Safe net p (some ([], c)) t s = s
    send_chosen-Safe net p (some (l ∷ ls, c)) t s =
        send_all-Safe net (t.seq + 1) p (l ∷ ls) (record t { scheduler = c; seq = t.seq + 1 }) s
