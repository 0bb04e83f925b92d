-- ===== src/Server/Runs.antt =====
-- turbobond/bond/server.py: a server that starts empty stays valid, whatever comes.
use turbobond.Base.{
  ℕ, ◌+◌, ◌≡◌, refl, Bool, true, false, Option, none, some, List, [], ◌∷◌, if◌then◌else◌, ltb,
}
use turbobond.Base.Dict.{Dict, Each}
use turbobond.Crypto.{Aead}
use turbobond.Protocol.{data_frame}
use turbobond.Reorder.{tick}
use turbobond.Server.{PeerLink, Session, ConcentratorServer, Ran, put_session, released}
use turbobond.Server.Downstream.{
  Event, datagram, from_device, ticked, reaped, step, run, pick_return_link, return_from,
  live_links, place, newest_first, send_picked, dispatch_on, dispatch_downstream, tick_all,
  reorder_tick,
}
use turbobond.Server.Steps.{send-IsValid, datagram_received-IsValid}
use turbobond.Server.Reaping.{reap-IsValid}
use turbobond.Server.Valid.{SessionOk, IsValid, put_session-IsValid, released-IsValid}

place-Each :
    (x : ℕ × Session) (xs : Dict Session)
    → SessionOk x.0 x.1
    → Each SessionOk xs
    → Each SessionOk (place x xs)
unfolding place
place-Each (i, s) [] o os = (o, os)
place-Each (i, s) ((j, t) ∷ ys) o os =
    elim (ltb (s.created) (t.created))
      as (λ b. Each SessionOk (if b then (j, t) ∷ place (i, s) ys else (i, s) ∷ (j, t) ∷ ys)) [
        | true ↦ (os.0, place-Each (i, s) ys o os.1)
        | false ↦ (o, os)
      ]

newest_first-Each : (xs : Dict Session) → Each SessionOk xs → Each SessionOk (newest_first xs)
unfolding newest_first
newest_first-Each [] o = o
newest_first-Each ((i, s) ∷ xs) (o, os) =
    place-Each (i, s) (newest_first xs) o (newest_first-Each xs os)

-- The session that a packet is sent on: its number is the next one.
abbrev numbered : Session → Session
numbered s = record s { seq = s.seq + 1 }

seq-SessionOk :
    (i : ℕ) (s : Session) (c : ℕ) → SessionOk i s → SessionOk i (numbered (record s { cursor = c }))
seq-SessionOk i s c o = record {
  links_ok = record {
    own_id = o.links_ok.own_id;
    distinct = o.links_ok.distinct;
    keyed = o.links_ok.keyed;
  };
  some_link = o.some_link;
}

-- Picking a link moves only the cursor.
picked-LinksOk :
    (now i : ℕ) (s : Session) → SessionOk i s → SessionOk i (numbered (pick_return_link now s).1)
unfolding pick_return_link return_from
picked-LinksOk now i s o =
    elim (live_links now s) as (λ ls. SessionOk i (numbered (return_from ls s).1)) [
      | [] ↦ seq-SessionOk i s s.cursor o
      | l ∷ ls ↦ seq-SessionOk i s (s.cursor + 1) o
    ]

module _ (a : Aead) where
  send_picked-IsValid :
      (sends : Bool) (packet : List ℕ) (i : ℕ) (r : Option PeerLink × Session) (others : Ran)
      (v : ConcentratorServer)
      → SessionOk i (numbered r.1)
      → IsValid (others.after)
      → IsValid v
      → IsValid ((send_picked a sends packet i r others v).after)
  unfolding send_picked
  send_picked-IsValid sends packet i (none, s) others v o g h = g
  send_picked-IsValid sends packet i (some p, s) others v o g h =
      send-IsValid a sends i (numbered s) (p.link_id) p data_frame ((numbered s).seq) packet
        (put_session i (numbered s) v) (o.links_ok) refl (put_session-IsValid i (numbered s) v o h)

  dispatch_on-IsValid :
      (sends : Bool) (packet : List ℕ) (now : ℕ) (xs : Dict Session) (v : ConcentratorServer)
      → Each SessionOk xs
      → IsValid v
      → IsValid ((dispatch_on a sends packet now xs v).after)
  unfolding dispatch_on
  dispatch_on-IsValid sends packet now [] v o h = h
  dispatch_on-IsValid sends packet now ((i, s) ∷ xs) v (o, os) h =
      send_picked-IsValid sends packet i (pick_return_link now s)
        (dispatch_on a sends packet now xs v) v (picked-LinksOk now i s o)
        (dispatch_on-IsValid sends packet now xs v os h) h

tick_all-IsValid :
    (now : ℕ) (xs : Dict Session) (v : ConcentratorServer)
    → Each SessionOk xs
    → IsValid v
    → IsValid ((tick_all now xs v).after)
unfolding tick_all
tick_all-IsValid now [] v o h = h
tick_all-IsValid now ((i, s) ∷ xs) v (o, os) h =
    let first = released i s (tick (s.reorder) now) v in
    let one = released-IsValid i s (tick (s.reorder) now) v o h in
    elim (first.raised)
      as (λ b. IsValid ((if b then first else tick_all now xs (first.after)).after)) [
        | true ↦ one
        | false ↦ tick_all-IsValid now xs (first.after) os one
      ]

step-IsValid : (a : Aead) (e : Event) (v : ConcentratorServer) → IsValid v → IsValid (step a e v)
unfolding step dispatch_downstream reorder_tick
step-IsValid a (datagram sends d addr now) v h = datagram_received-IsValid a sends d addr now v h
step-IsValid a (from_device sends packet now) v h =
    dispatch_on-IsValid a sends packet now (newest_first (v.sessions)) v
      (newest_first-Each (v.sessions) (h.sessions_ok)) h
step-IsValid a (ticked now) v h = tick_all-IsValid now (v.sessions) v (h.sessions_ok) h
step-IsValid a (reaped now) v h = reap-IsValid now v h

pub run_keeps-IsValid :
    (a : Aead) (es : List Event) (v : ConcentratorServer) → IsValid v → IsValid (run a es v)
unfolding run
run_keeps-IsValid a [] v h = h
run_keeps-IsValid a (e ∷ es) v h = run_keeps-IsValid a es (step a e v) (step-IsValid a e v h)

-- A server that starts with no session has, after whatever events, every session filed under its own
-- id and every link under its own, none of them twice, and at least one link in every session.
pub run-IsValid :
    (a : Aead) (es : List Event) (v : ConcentratorServer) → v.sessions ≡ [] → IsValid (run a es v)
run-IsValid a es v e =
    run_keeps-IsValid a es v (record { sessions_ok = rw (e) tt; distinct = rw (e) tt })
