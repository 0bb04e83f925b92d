-- ===== src/Server/Reaping.antt =====
-- turbobond/bond/server.py: the reaper removes exactly the silent links, and the sessions without one.
use turbobond.Base.{
  ℕ, ◌≡◌, refl, ◌∙◌, false, Option, none, some, [], ◌∷◌, if◌then◌else◌, ◌==◌, arith, Bool-cases,
  inl, inr,
}
use turbobond.Base.Dict.{Dict, lookup, has, Distinct, Each}
use turbobond.Server.{PeerLink, Session, ConcentratorServer, alive}
use turbobond.Server.Downstream.{reap_links, reap_sessions, keep_session, reap}
use turbobond.Server.Valid.{SessionOk, IsValid}

-- What the reaper leaves was there before.
reap_links-has :
    (now j : ℕ) (d : Dict PeerLink) → has j d ≡ false → has j (reap_links now d) ≡ false
unfolding reap_links has
reap_links-has now j [] e = e
reap_links-has now j ((k, p) ∷ d) e = ground (arith, reap_links-has now j d)

reap_links-Distinct : (now : ℕ) (d : Dict PeerLink) → Distinct d → Distinct (reap_links now d)
unfolding reap_links
reap_links-Distinct now [] u = u
reap_links-Distinct now ((k, p) ∷ d) u =
    ground (arith, reap_links-Distinct now d, reap_links-has now k d)

pub reap_links-Each :
    (P : ℕ → PeerLink → Type 0) (now : ℕ) (d : Dict PeerLink) → Each P d → Each P (reap_links now d)
unfolding reap_links
reap_links-Each P now [] u = u
reap_links-Each P now ((k, p) ∷ d) u = ground (arith, reap_links-Each P now d)

-- The entry that is left of one.
abbrev pub if_alive : ℕ → Option PeerLink → Option PeerLink
if_alive now none = none
if_alive now (some p) = if alive now p then some p else none

lookup_absent {ℓ} : {V : Type ℓ} (k : ℕ) (d : Dict V) → has k d ≡ false → lookup k d ≡ none
unfolding lookup has
lookup_absent k [] e = refl
lookup_absent k ((j, v) ∷ d) e = ground (arith, lookup_absent k d)

lookup-reap_links :
    (now j : ℕ) (d : Dict PeerLink)
    → Distinct d
    → lookup j (reap_links now d) ≡ if_alive now (lookup j d)
unfolding reap_links lookup
lookup-reap_links now j [] u = refl
lookup-reap_links now j ((k, p) ∷ d) u = ground (
  arith,
  lookup-reap_links now j d,
  lookup_absent k d,
  reap_links-has now k d,
  lookup_absent k (reap_links now d),
)

-- The link of a session, if the server has both.
abbrev pub link_of : ℕ → Option Session → Option PeerLink
link_of j none = none
link_of j (some s) = lookup j (s.links)

unfoldable pub link_at : ℕ → ℕ → Dict Session → Option PeerLink
link_at i j d = link_of j (lookup i d)

keep_session-has :
    (i k : ℕ) (s : Session) (ls : Dict PeerLink) (rest : Dict Session)
    → (i == k) ≡ false
    → has k (keep_session i s ls rest) ≡ has k rest
unfolding keep_session has
keep_session-has i k s [] rest e = refl
keep_session-has i k s (l ∷ ls) rest e = rw (e) refl

reap_sessions-has :
    (now k : ℕ) (d : Dict Session) → has k d ≡ false → has k (reap_sessions now d) ≡ false
unfolding reap_sessions has
reap_sessions-has now k [] e = e
reap_sessions-has now k ((i, s) ∷ d) e =
    keep_session-has i k s (reap_links now (s.links)) (reap_sessions now d) (ground (arith, e))
    ∙ reap_sessions-has now k d (ground (arith, e))

keep_session-Valid :
    (now i : ℕ) (s : Session) (ls : Dict PeerLink) (rest : Dict Session)
    → s.session_id ≡ i
    → Distinct ls
    → Each (λ j p. p.link_id ≡ j) ls
    → has i rest ≡ false
    → Each SessionOk rest
    → Distinct rest
    → Each SessionOk (keep_session i s ls rest) × Distinct (keep_session i s ls rest)
unfolding keep_session
keep_session-Valid now i s [] rest e u k n r d = (r, d)
keep_session-Valid now i s (l ∷ ls) rest e u k n r d = (
  (
    record { links_ok = record { own_id = e; distinct = u; keyed = k }; some_link = omega arith },
    r,
  ),
  (n, d),
)

reap_sessions-Valid :
    (now : ℕ) (d : Dict Session)
    → Each SessionOk d
    → Distinct d
    → Each SessionOk (reap_sessions now d) × Distinct (reap_sessions now d)
unfolding reap_sessions
reap_sessions-Valid now [] o u = (o, u)
reap_sessions-Valid now ((i, s) ∷ d) (o, os) (n, u) =
    let rest = reap_sessions-Valid now d os u in
    keep_session-Valid now i s (reap_links now (s.links)) (reap_sessions now d) (o.links_ok.own_id)
      (reap_links-Distinct now (s.links) (o.links_ok.distinct))
      (reap_links-Each (λ j p. p.link_id ≡ j) now (s.links) (o.links_ok.keyed))
      (reap_sessions-has now i d n) rest.0 rest.1

pub reap-IsValid : (now : ℕ) (v : ConcentratorServer) → IsValid v → IsValid (reap now v)
unfolding reap
reap-IsValid now v h =
    let r = reap_sessions-Valid now (v.sessions) (h.sessions_ok) (h.distinct) in
    record { sessions_ok = r.0; distinct = r.1 }

link_at-keep_session :
    (i k j : ℕ) (s : Session) (ls : Dict PeerLink) (rest : Dict Session)
    → has i rest ≡ false
    → link_at k j (keep_session i s ls rest) ≡ (if i == k then lookup j ls else link_at k j rest)
unfolding keep_session link_at lookup
link_at-keep_session i k j s [] rest n = ground (arith, lookup_absent i rest)
link_at-keep_session i k j s (l ∷ ls) rest n = ground arith

link_at-reap_sessions :
    (now k j : ℕ) (d : Dict Session)
    → Each SessionOk d
    → Distinct d
    → link_at k j (reap_sessions now d) ≡ if_alive now (link_at k j d)
unfolding reap_sessions link_at lookup
link_at-reap_sessions now k j [] o u = refl
link_at-reap_sessions now k j ((i, s) ∷ d) (o, os) (n, u) =
    link_at-keep_session i k j s (reap_links now s.links) (reap_sessions now d)
      (reap_sessions-has now i d n)
    ∙ elim (Bool-cases (i == k)) [
      | inl e ↦ rw (e) (lookup-reap_links now j s.links o.links_ok.distinct)
      | inr e ↦ rw (e) (link_at-reap_sessions now k j d os u)
    ]

-- On a valid server the reaper leaves exactly the links that are alive, as they were, in the sessions
-- that they were in.
pub link_at-reap :
    (now i j : ℕ) (v : ConcentratorServer)
    → IsValid v
    → link_at i j ((reap now v).sessions) ≡ if_alive now (link_at i j (v.sessions))
unfolding reap
link_at-reap now i j v h = link_at-reap_sessions now i j (v.sessions) (h.sessions_ok) (h.distinct)
