-- ===== src/Auth/Sessions.antt =====
-- turbobond/app/auth.py: which sessions a cookie can open.
use turbobond.Base.{
  ℕ, ◌-◌, ◌≤◌, ◌≡◌, ◌≢◌, refl, sym, subst, ap, ◌∙◌, Bool, not, Option, none, some, [], ◌∷◌, All,
  if_split, ltb, arith,
}
use turbobond.Base.Text.{text_eq, text_eq_iff, is_empty, text_length}
use turbobond.Base.TextDict.{TextDict, text_lookup, text_erase, text_lookup-text_erase}
use Prim.Native.String.{String}
use turbobond.Auth.{
  AuthManager, Session, Passwords, Serializer, Loaded, signature_expired, bad_signature, no_dict,
  payload, resolve, resolve_loaded, resolve_session, sign_out, change_password, Changed, changed,
  kept,
}

-- What a token opened: a session that is kept under the id in the token, not older than its time to
-- live, with the time of this use.
abbrev pub Live : Serializer → ℕ → String → AuthManager → Session → Type 0
Live z now token m r =
    (sid : String) × (s : Session) × (z.loads now (m.session_ttl_s) token ≡ payload sid)
    × (text_lookup sid (m.sessions) ≡ some s)
    × (now - s.created ≤ m.session_ttl_s)
    × (r ≡ record s { last_seen = now })

abbrev Opened : (Session → Type 0) → Option Session → Type 0
Opened P none = Unit
Opened P (some r) = P r

resolve_session-Opened :
    (now : ℕ) (o : Option Session) (m : AuthManager) (P : Session → Type 0)
    → ((s : Session)
        → o ≡ some s
        → now - s.created ≤ m.session_ttl_s
        → P (record s { last_seen = now }))
    → Opened P ((resolve_session now o m).0)
unfolding resolve_session
resolve_session-Opened now none m P f = tt
resolve_session-Opened now (some s) m P f =
    if_split (λ (r : Option Session × AuthManager). Opened P (r.0))
      (ltb (m.session_ttl_s) (now - s.created)) _ _ (λ e. tt) (λ e. f s refl (ground (arith, e)))

resolve_loaded-Opened :
    (now : ℕ) (l : Loaded) (m : AuthManager) (P : Session → Type 0)
    → ((sid : String) (s : Session)
        → l ≡ payload sid
        → text_lookup sid (m.sessions) ≡ some s
        → now - s.created ≤ m.session_ttl_s
        → P (record s { last_seen = now }))
    → Opened P ((resolve_loaded now l m).0)
unfolding resolve_loaded
resolve_loaded-Opened now signature_expired m P f = tt
resolve_loaded-Opened now bad_signature m P f = tt
resolve_loaded-Opened now no_dict m P f = tt
resolve_loaded-Opened now (payload sid) m P f =
    resolve_session-Opened now (text_lookup sid (m.sessions)) m P (λ s. f sid s refl)

resolve-Opened :
    (z : Serializer) (now : ℕ) (token : String) (m : AuthManager)
    → Opened (Live z now token m) ((resolve z now (some token) m).0)
unfolding resolve
resolve-Opened z now token m =
    if_split (λ (r : Option Session × AuthManager). Opened (Live z now token m) (r.0))
      (is_empty token) _ _ (λ e. tt)
      (λ e.
        resolve_loaded-Opened now (z.loads now (m.session_ttl_s) token) m (Live z now token m)
          (λ sid s l k t. (sid, s, l, k, t, refl)))

-- A cookie opens a session only if its signature is good and not too old, the server still keeps the
-- session under the id in the cookie, and the session is not older than its time to live.
pub resolve-Live :
    (z : Serializer) (now : ℕ) (token : String) (m : AuthManager) (r : Session)
    → (resolve z now (some token) m).0 ≡ some r
    → Live z now token m r
resolve-Live z now token m r e =
    subst (Opened (Live z now token m)) e (resolve-Opened z now token m)

-- Each session is kept under its own id.
abbrev pub Keyed : TextDict Session → Type 0
Keyed d = All (λ (e : String × Session). e.1.sid ≡ e.0) d

Keyed-lookup :
    (k : String) (s : Session) (d : TextDict Session)
    → Keyed d
    → text_lookup k d ≡ some s
    → s.sid ≡ k
unfolding text_lookup
Keyed-lookup k s [] o e = absurd (ground (arith, e))
Keyed-lookup k s ((j, t) ∷ d) (o, os) e =
    ground (arith, o, e, text_eq_iff j k, Keyed-lookup k s d os)

Keyed-erase : (k : String) (d : TextDict Session) → Keyed d → Keyed (text_erase k d)
unfolding text_erase
Keyed-erase k [] o = tt
Keyed-erase k ((j, t) ∷ d) (o, os) =
    if_split Keyed (text_eq j k) _ _ (λ e. Keyed-erase k d os) (λ e. (o, Keyed-erase k d os))

-- After a sign-out no cookie opens the session that was signed out.
pub resolve-sign_out :
    (z : Serializer) (now : ℕ) (token : String) (m : AuthManager) (s r : Session)
    → Keyed (m.sessions)
    → (resolve z now (some token) (sign_out (some s) m)).0 ≡ some r
    → r.sid ≢ s.sid
unfolding sign_out
resolve-sign_out z now token m s r o e same =
    let (sid, t, _, k, _, q) = resolve-Live z now token (sign_out (some s) m) r e in
    let own =
      Keyed-lookup sid t (text_erase (s.sid) (m.sessions)) (Keyed-erase (s.sid) (m.sessions) o) k in
    let gone = text_lookup-text_erase (s.sid) sid (m.sessions) in
    ground (arith, k, gone, own, same, ap (λ x. x.sid) q, text_eq_iff (s.sid) sid)

change_password-kept :
    (h : Passwords) (saves : Bool) (salt : ℕ) (s : Session) (current new : String) (m : AuthManager)
    → (change_password h saves salt s current new m).0 ≡ changed
    → (change_password h saves salt s current new m).1.sessions
      ≡ kept (text_lookup (s.sid) (m.sessions))
unfolding change_password
change_password-kept h saves salt s current new m =
    let P : Changed × AuthManager → Type 0 =
      λ r. r.0 ≡ changed → r.1.sessions ≡ kept (text_lookup (s.sid) (m.sessions)) in
    if_split P (not (h.verify_password current (m.password_hash))) _ _
      (λ e c. absurd (ground (arith, c)))
      (λ e.
        if_split P (ltb (text_length new) 8) _ _ (λ f c. absurd (ground (arith, c)))
          (λ f. if_split P (not saves) _ _ (λ g c. absurd (ground (arith, c))) (λ g c. refl)))

-- What is kept is kept under its id.
lookup-kept :
    (sid : String) (o : Option Session) (t : Session)
    → text_lookup sid (kept o) ≡ some t
    → o ≡ some t
unfolding kept text_lookup
lookup-kept sid none t e = absurd (ground (arith, e))
lookup-kept sid (some s) t e = ground (arith, e)

-- After a change of the password that was saved, a cookie opens no session but the one that asked for
-- the change.
pub resolve-change_password :
    (h : Passwords) (z : Serializer) (saves : Bool) (salt now : ℕ) (s r : Session)
    (current new token : String) (m : AuthManager)
    → Keyed (m.sessions)
    → (change_password h saves salt s current new m).0 ≡ changed
    → (resolve z now (some token) ((change_password h saves salt s current new m).1)).0 ≡ some r
    → r.sid ≡ s.sid
resolve-change_password h z saves salt now s r current new token m o c e =
    let w = (change_password h saves salt s current new m).1 in
    let (sid, t, _, k, _, q) = resolve-Live z now token w r e in
    let only =
      lookup-kept sid (text_lookup (s.sid) (m.sessions)) t
        (sym (ap (text_lookup sid) (change_password-kept h saves salt s current new m c)) ∙ k) in
    ap (λ x. x.sid) q ∙ Keyed-lookup (s.sid) t (m.sessions) o only
