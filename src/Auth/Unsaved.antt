-- ===== src/Auth/Unsaved.antt =====
-- turbobond/app/auth.py: a change of the password that could not be written to disk.
use turbobond.Base.{
  ℕ, ◌-◌, ◌≤◌, ◌≡◌, refl, Bool, true, false, Option, none, some, ltb, if◌then◌else◌, arith,
}
use turbobond.Base.Text.{text_eq_refl, is_empty, text_length}
use turbobond.Base.TextDict.{text_lookup, text_insert, text_erase}
use Prim.Native.String.{String}
use turbobond.Auth.{
  AuthManager, Session, Passwords, IsPasswords, Serializer, Loaded, signature_expired,
  bad_signature, no_dict, payload, Drawn, ok, sign_in, check_password, unless_locked,
  locked_out_for, open_session, enrolled, credentials, resolve, resolve_loaded, resolve_session,
  change_password, not_saved, key_of, recent, remaining,
}
use turbobond.Auth.Enrolment.{long_not_empty}

-- The manager with another password hash.
abbrev rehashed : String → AuthManager → AuthManager
rehashed hash m = record m { password_hash = hash }

change_password-not_saved :
    (h : Passwords) (salt : ℕ) (s : Session) (current new : String) (m : AuthManager)
    → h.verify_password current (m.password_hash) ≡ true
    → 8 ≤ text_length new
    → change_password h false salt s current new m
      ≡ (not_saved, rehashed (h.hash_password salt new) m)
unfolding change_password
change_password-not_saved h salt s current new m v long =
    let l : ltb (text_length new) 8 ≡ false = ground arith in rw (v) (rw (l) refl)

-- The first component of a conditional depends on those of its branches.
first_if :
    {A B : Type 0} (b : Bool) (x y v w : A × B)
    → x.0 ≡ v.0
    → y.0 ≡ w.0
    → (let l : A × B = if b then x else y in let r : A × B = if b then v else w in l.0 ≡ r.0)
first_if true x y v w p q = p
first_if false x y v w p q = q

-- What a cookie opens does not depend on the password hash.
resolve_session-rehashed :
    (now : ℕ) (o : Option Session) (hash : String) (m : AuthManager)
    → (resolve_session now o (rehashed hash m)).0 ≡ (resolve_session now o m).0
unfolding resolve_session
resolve_session-rehashed now none hash m = refl
resolve_session-rehashed now (some s) hash m =
    let old = rehashed hash m in
    let seen = record s { last_seen = now } in
    first_if (ltb (m.session_ttl_s) (now - s.created))
      (none, record old { sessions = text_erase (s.sid) (m.sessions) })
      (some seen, record old { sessions = text_insert (s.sid) seen (m.sessions) })
      (none, record m { sessions = text_erase (s.sid) (m.sessions) })
      (some seen, record m { sessions = text_insert (s.sid) seen (m.sessions) }) refl refl

resolve_loaded-rehashed :
    (now : ℕ) (l : Loaded) (hash : String) (m : AuthManager)
    → (resolve_loaded now l (rehashed hash m)).0 ≡ (resolve_loaded now l m).0
unfolding resolve_loaded
resolve_loaded-rehashed now signature_expired hash m = refl
resolve_loaded-rehashed now bad_signature hash m = refl
resolve_loaded-rehashed now no_dict hash m = refl
resolve_loaded-rehashed now (payload sid) hash m =
    resolve_session-rehashed now (text_lookup sid (m.sessions)) hash m

resolve-rehashed :
    (z : Serializer) (now : ℕ) (token : Option String) (hash : String) (m : AuthManager)
    → (resolve z now token (rehashed hash m)).0 ≡ (resolve z now token m).0
unfolding resolve
resolve-rehashed z now none hash m = refl
resolve-rehashed z now (some token) hash m =
    let loaded = z.loads now (m.session_ttl_s) token in
    first_if (is_empty token) (none, rehashed hash m) (resolve_loaded now loaded (rehashed hash m))
      (none, m) (resolve_loaded now loaded m) refl (resolve_loaded-rehashed now loaded hash m)

-- The password that a hash was made of is right, from an address with no failures.
sign_in-rehashed :
    (h : Passwords) (salt : ℕ) (new remote : String) (later : ℕ) (d : Drawn) (m : AuthManager)
    → IsPasswords h
    → 8 ≤ text_length new
    → text_lookup (key_of remote) (m.failures) ≡ none
    → (t : Session) × ((sign_in h "" new remote later d (rehashed (h.hash_password salt new) m)).0
        ≡ ok t)
unfolding sign_in locked_out_for recent remaining unless_locked check_password enrolled credentials
    open_session
sign_in-rehashed h salt new remote later d m law long none_yet = (
  record {
    sid = d.sid;
    username = m.username;
    created = later;
    last_seen = later;
    csrf = d.csrf;
    remote = remote;
  },
  rw (none_yet) (
      rw (long_not_empty new long) (
        rw (law.not_empty salt new)
          (rw (text_eq_refl (m.username)) (rw (law.verifies salt new) refl)))),
)

-- A change to a password of eight characters or more, with the right current one, which cannot be
-- saved: the caller is told that it failed, and yet the new password signs in, from an address with no
-- failures, and every cookie opens at every time the session that it opened without the change.
pub change_password_unsaved :
    (h : Passwords) (z : Serializer) (salt : ℕ) (s : Session) (current new remote : String)
    (later : ℕ) (d : Drawn) (m : AuthManager)
    → IsPasswords h
    → h.verify_password current (m.password_hash) ≡ true
    → 8 ≤ text_length new
    → text_lookup (key_of remote) (m.failures) ≡ none
    → (let (answer, w) = change_password h false salt s current new m in
        (answer ≡ not_saved)
        × ((t : Session) × ((sign_in h "" new remote later d w).0 ≡ ok t))
        × ((now : ℕ) (token : Option String)
            → (resolve z now token w).0 ≡ (resolve z now token m).0))
change_password_unsaved h z salt s current new remote later d m law v long none_yet =
    rw (change_password-not_saved h salt s current new m v long) (
      refl,
      sign_in-rehashed h salt new remote later d m law long none_yet,
      λ now token. resolve-rehashed z now token (h.hash_password salt new) m,
    )
