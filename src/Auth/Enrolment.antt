-- ===== src/Auth/Enrolment.antt =====
-- turbobond/app/auth.py: the first sign-in, and the cookie of a session.
use turbobond.Base.{
  ℕ, zero, suc, ◌-◌, ◌≤◌, ◌≡◌, refl, subst, ◌∙◌, true, false, not, none, some, [], if_split, ltb,
  arith, Bool-cases, inl, inr,
}
use turbobond.Base.Text.{text_eq, text_eq_refl, text_eq_iff, is_empty, or_text, text_length}
use turbobond.Base.TextDict.{text_lookup, text_insert, text_lookup-text_insert_self}
use Prim.Native.String.{String}
use turbobond.Auth.{
  AuthManager, Session, Passwords, IsPasswords, Serializer, IsSerializer, payload, Drawn, Result,
  ok, err, sign_in, check_password, unless_locked, locked_out_for, open_session, after_enrol, enrol,
  enrolled, credentials, resolve, resolve_loaded, resolve_session, issue_cookie, key_of, recent,
  remaining,
}

-- What a successful sign-in leaves: the session it returns is kept under its id, and is new.
abbrev pub Fresh : ℕ → AuthManager → Result Session → AuthManager → Type 0
Fresh now v (err e) m = Unit
Fresh now v (ok s) m =
    (text_lookup (s.sid) (m.sessions) ≡ some s)
    × (s.created ≡ now)
    × (m.session_ttl_s ≡ v.session_ttl_s)

open_session-Fresh :
    (key remote : String) (now : ℕ) (d : Drawn) (v m : AuthManager)
    → m.session_ttl_s ≡ v.session_ttl_s
    → (let r = open_session key remote now d m in Fresh now v (r.0) (r.1))
unfolding open_session
open_session-Fresh key remote now d v m e =
    (text_lookup-text_insert_self (d.sid) _ (m.sessions), refl, e)

after_enrol-Fresh :
    (h : Passwords) (key u p remote : String) (now : ℕ) (d : Drawn) (v m : AuthManager)
    → m.session_ttl_s ≡ v.session_ttl_s
    → (let r = after_enrol key remote now d (enrol h (d.salt) u p m) m in Fresh now v (r.0) (r.1))
unfolding enrol after_enrol
after_enrol-Fresh h key u p remote now d v m e =
    if_split (λ x. (let r = after_enrol key remote now d x m in Fresh now v (r.0) (r.1)))
      (ltb (text_length p) 8) _ _ (λ t. tt) (λ t. open_session-Fresh key remote now d v _ e)

check_password-Fresh :
    (h : Passwords) (key u p remote : String) (now : ℕ) (d : Drawn) (v m : AuthManager)
    → m.session_ttl_s ≡ v.session_ttl_s
    → (let r = check_password h key u p remote now d m in Fresh now v (r.0) (r.1))
unfolding check_password
check_password-Fresh h key u p remote now d v m e =
    let P : Result Session × AuthManager → Type 0 = λ r. Fresh now v (r.0) (r.1) in
    if_split P (is_empty p) _ _ (λ t. tt)
      (λ t.
        if_split P (not (enrolled m)) _ _ (λ f. after_enrol-Fresh h key u p remote now d v m e)
          (λ f.
            if_split P (credentials h u p m) _ _ (λ g. open_session-Fresh key remote now d v m e)
              (λ g. tt)))

unless_locked-Fresh :
    (h : Passwords) (key u p remote : String) (now : ℕ) (d : Drawn) (n : ℕ) (v m : AuthManager)
    → m.session_ttl_s ≡ v.session_ttl_s
    → (let r = unless_locked h key u p remote now d (n, m) in Fresh now v (r.0) (r.1))
unfolding unless_locked
unless_locked-Fresh h key u p remote now d zero v m e =
    check_password-Fresh h key u p remote now d v m e
unless_locked-Fresh h key u p remote now d (suc n) v m e = tt

sign_in-Fresh :
    (h : Passwords) (u p remote : String) (now : ℕ) (d : Drawn) (m : AuthManager)
    → (let r = sign_in h u p remote now d m in Fresh now m (r.0) (r.1))
unfolding sign_in locked_out_for
sign_in-Fresh h u p remote now d m =
    unless_locked-Fresh h (key_of remote) u p remote now d _ m _ refl

resolve-some :
    (z : Serializer) (now : ℕ) (token : String) (s : Session) (m : AuthManager)
    → is_empty token ≡ false
    → z.loads now (m.session_ttl_s) token ≡ payload (s.sid)
    → text_lookup (s.sid) (m.sessions) ≡ some s
    → now - s.created ≤ m.session_ttl_s
    → (resolve z now (some token) m).0 ≡ some (record s { last_seen = now })
unfolding resolve resolve_loaded resolve_session
resolve-some z now token s m e l k t =
    let young : ltb (m.session_ttl_s) (now - s.created) ≡ false = ground arith in
    rw (e) (rw (l) (rw (k) (rw (young) refl)))

-- The cookie of the session that a sign-in returned opens this session again at any time not before the
-- cookie's own, as long as neither the cookie nor the session is older than the time to live.
pub resolve-issue_cookie :
    (h : Passwords) (z : Serializer) (u p remote : String) (now issued later : ℕ) (d : Drawn)
    (m : AuthManager) (s : Session)
    → IsSerializer z
    → (sign_in h u p remote now d m).0 ≡ ok s
    → later - now ≤ m.session_ttl_s
    → issued ≤ later
    → later - issued ≤ m.session_ttl_s
    → (resolve z later (some (issue_cookie z issued s)) ((sign_in h u p remote now d m).1)).0
      ≡ some (record s { last_seen = later })
unfolding issue_cookie
resolve-issue_cookie h z u p remote now issued later d m s law e young forward fresh =
    let w = (sign_in h u p remote now d m).1 in
    let (k, c, t) = subst (λ r. Fresh now m r w) e (sign_in-Fresh h u p remote now d m) in
    resolve-some z later (z.dumps issued (s.sid) (s.username)) s w
      (law.not_empty issued (s.sid) (s.username))
      (law.loads_back issued later (w.session_ttl_s) (s.sid) (s.username) forward (omega arith)) k
      (omega arith)

pub long_not_empty : (p : String) → 8 ≤ text_length p → is_empty p ≡ false
unfolding text_length
long_not_empty p h = elim (Bool-cases (is_empty p)) [
  | inl e ↦ absurd (
      let q : p ≡ "" = ground (arith, e, text_eq_iff p "") in
      omega (arith, subst (λ x. 8 ≤ text_length x) q h))
  | inr e ↦ e
]

or_text_twice : (u v : String) → text_eq (or_text u (or_text u v)) (or_text u v) ≡ true
or_text_twice u v = elim (Bool-cases (is_empty u)) [
  | inl e ↦ rw (e) (text_eq_refl v)
  | inr e ↦ rw (e) (text_eq_refl u)
]

-- The account that `_enrol` makes.
abbrev made : Passwords → ℕ → String → String → AuthManager → AuthManager
made h salt u p m = record m {
  username = or_text u (m.username);
  password_hash = h.hash_password salt p;
}

check_password_enrols :
    (h : Passwords) (key u p remote : String) (now : ℕ) (d : Drawn) (m : AuthManager)
    → enrolled m ≡ false
    → 8 ≤ text_length p
    → check_password h key u p remote now d m
      ≡ open_session key remote now d (made h (d.salt) u p m)
unfolding check_password after_enrol enrol
check_password_enrols h key u p remote now d m e long =
    let l : ltb (text_length p) 8 ≡ false = ground arith in
    rw (long_not_empty p long) (rw (e) (rw (l) refl))

made_right :
    (h : Passwords) (key u p remote : String) (now : ℕ) (d : Drawn) (m : AuthManager)
    → IsPasswords h
    → (let r = open_session key remote now d (made h (d.salt) u p m) in
        ((s : Session) × (r.0 ≡ ok s)) × (enrolled (r.1) ≡ true) × (credentials h u p (r.1) ≡ true))
unfolding open_session enrolled credentials
made_right h key u p remote now d m law = (
  (_, refl),
  rw (law.not_empty (d.salt) p) refl,
  rw (or_text_twice u (m.username)) (law.verifies (d.salt) p),
)

-- The first sign-in from an address with no failures, with a password of eight characters or more,
-- makes the account: it opens a session, and the same name and password are right from then on.
pub sign_in_enrols :
    (h : Passwords) (u p remote : String) (now : ℕ) (d : Drawn) (m : AuthManager)
    → IsPasswords h
    → enrolled m ≡ false
    → text_lookup (key_of remote) (m.failures) ≡ none
    → 8 ≤ text_length p
    → (let r = sign_in h u p remote now d m in
        ((s : Session) × (r.0 ≡ ok s)) × (enrolled (r.1) ≡ true) × (credentials h u p (r.1) ≡ true))
unfolding sign_in locked_out_for recent remaining unless_locked enrolled
sign_in_enrols h u p remote now d m law e none_yet long =
    let key = key_of remote in
    let pruned : AuthManager = record m { failures = text_insert key [] (m.failures) } in
    let opened : sign_in h u p remote now d m ≡ check_password h key u p remote now d pruned =
      rw (none_yet) refl in
    rw (opened ∙ check_password_enrols h key u p remote now d pruned e long)
      (made_right h key u p remote now d pruned law)
