-- ===== src/Server/Trusted.antt =====
-- turbobond/bond/server.py: whom the server answers. It learns the address of a peer from a datagram that
-- authenticates, and from nowhere else.
use turbobond.Base.{
  ℕ, Bool, Option, none, some, List, [], ◌∷◌, ltb, All, elem, if_keeps, Option-cases, inl, inr,
  zero, suc, ◌%◌, length, ◌+◌, get_elem?, keep,
}
use turbobond.Base.Dict.{Dict, lookup, insert, Each, insert-Each, erase-Each, lookup-Each, values}
use turbobond.Reorder.{ReorderBuffer, push}
use turbobond.Server.{
  PeerLink, Session, ConcentratorServer, Address, session_of, peer_of, put_session, put_peer,
  note_rejection, logged, close_link, write_all, released, deliver, alive,
}
use turbobond.Server.Downstream.{
  place, newest_first, reap_sessions, reap_links, keep_session, return_from,
}
use turbobond.Server.Reaping.{reap_links-Each}

module _ (T : Address → Type 0) where
  abbrev pub FromT : ℕ → Session → Type 0
  FromT i s = Each (λ j p. T (p.addr)) (s.links)

  -- Every address that the server keeps or has sent to is of the kind `T`.
  pub record Trusted (v : ConcentratorServer) : Type 0 where
    pub kept : Each FromT v.sessions
    pub sent_ok : All (λ (x : Address × List ℕ). T x.0) v.sent

  pub put_session-Trusted :
      (i : ℕ) (s : Session) (v : ConcentratorServer)
      → FromT i s
      → Trusted v
      → Trusted (put_session i s v)
  put_session-Trusted i s v o h = record {
    kept = insert-Each FromT i s (v.sessions) o (h.kept);
    sent_ok = h.sent_ok;
  }

  pub with_peer-FromT :
      (i : ℕ) (s : Session) (j : ℕ) (p : PeerLink)
      → FromT i s
      → T (p.addr)
      → FromT i (record s { links = insert j p (s.links) })
  with_peer-FromT i s j p o t = insert-Each (λ j p. T (p.addr)) j p (s.links) t o

  pub put_peer-Trusted :
      (i : ℕ) (s : Session) (j : ℕ) (p : PeerLink) (v : ConcentratorServer)
      → FromT i s
      → T (p.addr)
      → Trusted v
      → Trusted (put_peer i s j p v)
  put_peer-Trusted i s j p v o t h =
      put_session-Trusted i (record s { links = insert j p (s.links) }) v
        (with_peer-FromT i s j p o t) h

  pub note_rejection-Trusted :
      (addr : Address) (v : ConcentratorServer) → Trusted v → Trusted (note_rejection addr v)
  unfolding note_rejection
  note_rejection-Trusted addr v h =
      let w = record v { rejected_sources = addr.host ∷ v.rejected_sources } in
      if_keeps Trusted (elem (addr.host) (v.rejected_sources)) v w h
        (record { kept = h.kept; sent_ok = h.sent_ok })

  pub logged-Trusted :
      (sends : Bool) (j : ℕ) (p : PeerLink) (d : List ℕ) (v : ConcentratorServer)
      → T (p.addr)
      → Trusted v
      → Trusted (logged sends j p d v)
  logged-Trusted sends j p d v t h = record {
    kept = h.kept;
    sent_ok = if_keeps (All (λ (x : Address × List ℕ). T x.0)) sends _ _ (t, h.sent_ok) (h.sent_ok);
  }

  write_all-Trusted :
      (ps : List (List ℕ)) (v : ConcentratorServer) → Trusted v → Trusted (write_all ps v)
  unfolding write_all
  write_all-Trusted [] v h = h
  write_all-Trusted (p ∷ ps) v h =
      write_all-Trusted ps (record v { written = p ∷ v.written })
        (record { kept = h.kept; sent_ok = h.sent_ok })

  pub released-Trusted :
      (i : ℕ) (s : Session) (o : Option (ReorderBuffer (List ℕ) × List (List ℕ)))
      (v : ConcentratorServer)
      → FromT i s
      → Trusted v
      → Trusted ((released i s o v).after)
  unfolding released
  released-Trusted i s none v o h = h
  released-Trusted i s (some (b, ps)) v o h =
      write_all-Trusted ps _ (put_session-Trusted i (record s { reorder = b }) v o h)

  pub deliver-Trusted :
      (i : ℕ) (s : Session) (q : ℕ) (d : List ℕ) (now : ℕ) (v : ConcentratorServer)
      → FromT i s
      → Trusted v
      → Trusted ((deliver i s q d now v).after)
  unfolding deliver
  deliver-Trusted i s q [] now v o h = h
  deliver-Trusted i s q (b ∷ bs) now v o h =
      released-Trusted i s (push (s.reorder) q (b ∷ bs) now) v o h

  pub close_link-Trusted :
      (i : ℕ) (s : Session) (j : ℕ) (ls : Dict PeerLink) (v : ConcentratorServer)
      → Each (λ j p. T (p.addr)) ls
      → Trusted v
      → Trusted (close_link i s j ls v)
  unfolding close_link
  close_link-Trusted i s j [] v o h = record {
    kept = erase-Each FromT i (v.sessions) (h.kept);
    sent_ok = h.sent_ok;
  }
  close_link-Trusted i s j (l ∷ ls) v o h =
      put_session-Trusted i (record s { links = l ∷ ls }) v o h

  pub session_of-FromT :
      (i now : ℕ) (v : ConcentratorServer) → Trusted v → FromT i (session_of i now v)
  unfolding session_of
  session_of-FromT i now v h = elim (Option-cases (lookup i (v.sessions))) [
    | inl e ↦ rw (e, session_of) tt
    | inr (s, e) ↦ rw (e, session_of) (lookup-Each FromT i s (v.sessions) (h.kept) e)
  ]

  -- The peer has the address that its datagram came from.
  pub peer_of-T :
      (j : ℕ) (addr : Address) (now : ℕ) (s : Session) → T addr → T ((peer_of j addr now s).addr)
  unfolding peer_of
  peer_of-T j addr now s t = elim (Option-cases (lookup j (s.links))) [
    | inl e ↦ rw (e, peer_of) t
    | inr (p, e) ↦ rw (e, peer_of) t
  ]

  keep_session-FromT :
      (i : ℕ) (s : Session) (ls : Dict PeerLink) (rest : Dict Session)
      → Each (λ j p. T (p.addr)) ls
      → Each FromT rest
      → Each FromT (keep_session i s ls rest)
  unfolding keep_session
  keep_session-FromT i s [] rest o r = r
  keep_session-FromT i s (l ∷ ls) rest o r = (o, r)

  pub reap_sessions-FromT :
      (now : ℕ) (d : Dict Session) → Each FromT d → Each FromT (reap_sessions now d)
  unfolding reap_sessions
  reap_sessions-FromT now [] o = o
  reap_sessions-FromT now ((i, s) ∷ d) (o, os) =
      keep_session-FromT i s (reap_links now (s.links)) (reap_sessions now d)
        (reap_links-Each (λ j p. T (p.addr)) now (s.links) o) (reap_sessions-FromT now d os)

  place-FromT :
      (x : ℕ × Session) (xs : Dict Session)
      → FromT x.0 x.1
      → Each FromT xs
      → Each FromT (place x xs)
  unfolding place
  place-FromT (i, s) [] o os = (o, os)
  place-FromT (i, s) ((j, t) ∷ ys) o (p, os) =
      if_keeps (Each FromT) (ltb (s.created) (t.created)) _ _ (p, place-FromT (i, s) ys o os)
        (o, (p, os))

  pub newest_first-FromT : (xs : Dict Session) → Each FromT xs → Each FromT (newest_first xs)
  unfolding newest_first
  newest_first-FromT [] o = o
  newest_first-FromT ((i, s) ∷ xs) (o, os) =
      place-FromT (i, s) (newest_first xs) o (newest_first-FromT xs os)

  -- What the choice of a link gives: the session, and a link of it.
  unfoldable pub Picked : ℕ → Option PeerLink × Session → Type 0
  Picked i (none, s) = FromT i s
  Picked i (some p, s) = T (p.addr) × FromT i s

  get_elem-All :
      (ls : List PeerLink) (k : ℕ) (s : Session) (i : ℕ)
      → All (λ (p : PeerLink). T (p.addr)) ls
      → FromT i s
      → Picked i (get_elem? ls k, s)
  unfolding Picked
  get_elem-All [] k s i o f = f
  get_elem-All (l ∷ ls) zero s i o f = (o.0, f)
  get_elem-All (l ∷ ls) (suc k) s i o f = get_elem-All ls k s i o.1 f

  pub keep-values :
      (now : ℕ) (d : Dict PeerLink)
      → Each (λ j p. T (p.addr)) d
      → All (λ (p : PeerLink). T (p.addr)) (keep (alive now) (values d))
  unfolding values
  keep-values now [] o = tt
  keep-values now ((j, p) ∷ d) (o, os) =
      if_keeps (All (λ (p : PeerLink). T (p.addr))) (alive now p) _ _ (o, keep-values now d os)
        (keep-values now d os)

  pub return_from-Picked :
      (ls : List PeerLink) (i : ℕ) (s : Session)
      → All (λ (p : PeerLink). T (p.addr)) ls
      → FromT i s
      → Picked i (return_from ls s)
  unfolding return_from Picked
  return_from-Picked [] i s o f = f
  return_from-Picked (l ∷ ls) i s o f =
      get_elem-All (l ∷ ls) (s.cursor % length (l ∷ ls)) (record s { cursor = s.cursor + 1 }) i o f
