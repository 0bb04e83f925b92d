-- ===== src/Server/Valid.antt =====
-- turbobond/bond/server.py: sessions and links are filed under their ids, and no session is without a
-- link between two events.
use turbobond.Base.{
  ℕ, ◌≤◌, ◌≡◌, refl, sym, subst, Option, none, some, List, [], ◌∷◌, length, arith, Option-cases,
  inl, inr,
}
use turbobond.Base.Dict.{
  Dict, lookup, insert, Distinct, Each, insert-Distinct, insert-Each, lookup-Each,
}
use turbobond.Reorder.{ReorderBuffer, push}
use turbobond.Server.{
  PeerLink, Session, ConcentratorServer, Address, session_of, peer_of, put_session, put_peer,
  write_all, released, deliver,
}

-- The links of a session are filed under their ids, none twice.
pub record LinksOk (i : ℕ) (s : Session) : Type 0 where
  pub own_id : s.session_id ≡ i
  pub distinct : Distinct s.links
  pub keyed : Each (λ j p. p.link_id ≡ j) s.links

-- Besides, there is at least one.
pub record SessionOk (i : ℕ) (s : Session) : Type 0 where
  pub links_ok : LinksOk i s
  pub some_link : 1 ≤ length s.links

pub record IsValid (v : ConcentratorServer) : Type 0 where
  pub sessions_ok : Each SessionOk v.sessions
  pub distinct : Distinct v.sessions

length-insert_pos {ℓ} : {V : Type ℓ} (k : ℕ) (v : V) (d : Dict V) → 1 ≤ length (insert k v d)
unfolding insert
length-insert_pos k v [] = omega arith
length-insert_pos k v ((j, w) ∷ d) = ground arith

pub put_session-IsValid :
    (i : ℕ) (s : Session) (v : ConcentratorServer)
    → SessionOk i s
    → IsValid v
    → IsValid (put_session i s v)
put_session-IsValid i s v o h = record {
  sessions_ok = insert-Each SessionOk i s (v.sessions) o (h.sessions_ok);
  distinct = insert-Distinct i s (v.sessions) (h.distinct);
}

-- A session with one more peer.
pub with_peer-SessionOk :
    (i : ℕ) (s : Session) (j : ℕ) (p : PeerLink)
    → LinksOk i s
    → p.link_id ≡ j
    → SessionOk i (record s { links = insert j p (s.links) })
with_peer-SessionOk i s j p o e = record {
  links_ok = record {
    own_id = o.own_id;
    distinct = insert-Distinct j p (s.links) (o.distinct);
    keyed = insert-Each (λ j p. p.link_id ≡ j) j p (s.links) e (o.keyed);
  };
  some_link = length-insert_pos j p (s.links);
}

pub put_peer-IsValid :
    (i : ℕ) (s : Session) (j : ℕ) (p : PeerLink) (v : ConcentratorServer)
    → LinksOk i s
    → p.link_id ≡ j
    → IsValid v
    → IsValid (put_peer i s j p v)
put_peer-IsValid i s j p v o e h =
    put_session-IsValid i (record s { links = insert j p (s.links) }) v
      (with_peer-SessionOk i s j p o e) h

-- Validity is a matter of the sessions.
pub IsValid-of_sessions :
    (v w : ConcentratorServer) → w.sessions ≡ v.sessions → IsValid v → IsValid w
IsValid-of_sessions v w e h = record {
  sessions_ok = subst (Each SessionOk) (sym e) (h.sessions_ok);
  distinct = subst Distinct (sym e) (h.distinct);
}

write_all_sessions :
    (ps : List (List ℕ)) (v : ConcentratorServer) → (write_all ps v).sessions ≡ v.sessions
unfolding write_all
write_all_sessions [] v = refl
write_all_sessions (p ∷ ps) v = write_all_sessions ps (record v { written = p ∷ v.written })

-- Another buffer changes nothing of a session's links.
reorder-SessionOk :
    (i : ℕ) (s : Session) (b : ReorderBuffer (List ℕ))
    → SessionOk i s
    → SessionOk i (record s { reorder = b })
reorder-SessionOk i s b o = record {
  links_ok = record {
    own_id = o.links_ok.own_id;
    distinct = o.links_ok.distinct;
    keyed = o.links_ok.keyed;
  };
  some_link = o.some_link;
}

pub released-IsValid :
    (i : ℕ) (s : Session) (o : Option (ReorderBuffer (List ℕ) × List (List ℕ)))
    (v : ConcentratorServer)
    → SessionOk i s
    → IsValid v
    → IsValid ((released i s o v).after)
unfolding released
released-IsValid i s none v k h = h
released-IsValid i s (some (b, ps)) v k h =
    IsValid-of_sessions (put_session i (record s { reorder = b }) v)
      (write_all ps (put_session i (record s { reorder = b }) v))
      (write_all_sessions ps (put_session i (record s { reorder = b }) v))
      (put_session-IsValid i (record s { reorder = b }) v (reorder-SessionOk i s b k) h)

pub deliver-IsValid :
    (i : ℕ) (s : Session) (q : ℕ) (p : List ℕ) (now : ℕ) (v : ConcentratorServer)
    → SessionOk i s
    → IsValid v
    → IsValid ((deliver i s q p now v).after)
unfolding deliver
deliver-IsValid i s q [] now v k h = h
deliver-IsValid i s q (b ∷ bs) now v k h =
    released-IsValid i s (push (s.reorder) q (b ∷ bs) now) v k h

pub session_of-LinksOk :
    (i now : ℕ) (v : ConcentratorServer) → IsValid v → LinksOk i (session_of i now v)
unfolding session_of
session_of-LinksOk i now v h = elim (Option-cases (lookup i (v.sessions))) [
  | inl e ↦ rw (e, session_of) (record { own_id = refl; distinct = tt; keyed = tt })
  | inr (s, e) ↦
      rw (e, session_of) ((lookup-Each SessionOk i s (v.sessions) (h.sessions_ok) e).links_ok)
]

pub peer_of_id :
    (i j : ℕ) (addr : Address) (now : ℕ) (s : Session)
    → LinksOk i s
    → (peer_of j addr now s).link_id ≡ j
unfolding peer_of
peer_of_id i j addr now s o = elim (Option-cases (lookup j (s.links))) [
  | inl e ↦ rw (e, peer_of) refl
  | inr (p, e) ↦ rw (e, peer_of) (lookup-Each (λ j p. p.link_id ≡ j) j p (s.links) (o.keyed) e)
]
