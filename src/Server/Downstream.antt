-- ===== src/Server/Downstream.antt =====
-- turbobond/bond/server.py: the way back to the clients, the ticker of the reorder buffers, and the
-- reaper of silent links.
use turbobond.Base.{
  ℕ, ◌+◌, ◌%◌, Bool, Option, none, some, List, [], ◌∷◌, ltb, if◌then◌else◌, length, get_elem?, keep,
}
use turbobond.Base.Dict.{Dict, values}
use turbobond.Crypto.{Aead}
use turbobond.Protocol.{data_frame}
use turbobond.Reorder.{tick}
use turbobond.Server.{
  PeerLink, Session, ConcentratorServer, Ran, Address, alive, put_session, done, send, released,
  datagram_received,
}

unfoldable pub live_links : ℕ → Session → List PeerLink
live_links now s = keep (alive now) (values (s.links))

-- `pick_return_link`, on the live links: the cursor moves only when there is one.
unfoldable pub return_from : List PeerLink → Session → Option PeerLink × Session
return_from [] s = (none, s)
return_from (l ∷ ls) s =
    (get_elem? (l ∷ ls) (s.cursor % length (l ∷ ls)), record s { cursor = s.cursor + 1 })

unfoldable pub pick_return_link : ℕ → Session → Option PeerLink × Session
pick_return_link now s = return_from (live_links now s) s

-- `sorted(sessions.values(), key=created, reverse=True)`, with the keys: a stable insertion.
unfoldable pub place : ℕ × Session → List (ℕ × Session) → List (ℕ × Session)
place x [] = x ∷ []
place x (y ∷ ys) = if ltb (x.1.created) (y.1.created) then y ∷ place x ys else x ∷ y ∷ ys

unfoldable pub newest_first : List (ℕ × Session) → List (ℕ × Session)
newest_first [] = []
newest_first (x ∷ xs) = place x (newest_first xs)

module _ (a : Aead) where
  -- The packet goes out on the link that was picked, with the next number of the session; without one
  -- the other sessions are asked.
  unfoldable pub send_picked :
      Bool → List ℕ → ℕ → Option PeerLink × Session → Ran → ConcentratorServer → Ran
  send_picked sends packet i (none, s) others v = others
  send_picked sends packet i (some p, s) others v =
      let s' = record s { seq = s.seq + 1 } in
      send a sends i s' (p.link_id) p data_frame (s'.seq) packet (put_session i s' v)

  unfoldable pub dispatch_on : Bool → List ℕ → ℕ → List (ℕ × Session) → ConcentratorServer → Ran
  dispatch_on sends packet now [] v = done v
  dispatch_on sends packet now ((i, s) ∷ rest) v =
      send_picked sends packet i (pick_return_link now s) (dispatch_on sends packet now rest v) v

  unfoldable pub dispatch_downstream : Bool → List ℕ → ℕ → ConcentratorServer → Ran
  dispatch_downstream sends packet now v =
      dispatch_on sends packet now (newest_first (v.sessions)) v

-- One turn of `_reorder_ticker`, over the sessions that there are.
unfoldable pub tick_all : ℕ → List (ℕ × Session) → ConcentratorServer → Ran
tick_all now [] v = done v
tick_all now ((i, s) ∷ rest) v =
    let first = released i s (tick (s.reorder) now) v in
    let others = tick_all now rest (first.after) in if first.raised then first else others

unfoldable pub reorder_tick : ℕ → ConcentratorServer → Ran
reorder_tick now v = tick_all now (v.sessions) v

-- One turn of `_reaper`: the links that are silent leave, and the sessions that are left without one.
unfoldable pub reap_links : ℕ → Dict PeerLink → Dict PeerLink
reap_links now [] = []
reap_links now ((j, p) ∷ d) =
    let rest = reap_links now d in if alive now p then (j, p) ∷ rest else rest

unfoldable pub keep_session : ℕ → Session → Dict PeerLink → Dict Session → Dict Session
keep_session i s [] rest = rest
keep_session i s (l ∷ ls) rest = (i, record s { links = l ∷ ls }) ∷ rest

unfoldable pub reap_sessions : ℕ → Dict Session → Dict Session
reap_sessions now [] = []
reap_sessions now ((i, s) ∷ d) = keep_session i s (reap_links now (s.links)) (reap_sessions now d)

unfoldable pub reap : ℕ → ConcentratorServer → ConcentratorServer
reap now v = record v { sessions = reap_sessions now (v.sessions) }

-- What happens to a server: a datagram, a packet for a client, the ticker and the reaper.
pub data Event : Type 0 where
  datagram : Bool → List ℕ → Address → ℕ → Event
  from_device : Bool → List ℕ → ℕ → Event
  ticked : ℕ → Event
  reaped : ℕ → Event

module _ (a : Aead) where
  unfoldable pub step : Event → ConcentratorServer → ConcentratorServer
  step (datagram sends data' addr now) v = (datagram_received a sends data' addr now v).after
  step (from_device sends packet now) v = (dispatch_downstream a sends packet now v).after
  step (ticked now) v = (reorder_tick now v).after
  step (reaped now) v = reap now v

  unfoldable pub run : List Event → ConcentratorServer → ConcentratorServer
  run [] v = v
  run (e ∷ es) v = run es (step e v)
