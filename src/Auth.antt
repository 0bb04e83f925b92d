-- ===== src/Auth.antt =====
-- turbobond/app/auth.py: sign-in, its lockout, and the sessions. The password hashes and the signed
-- cookies of libraries are the parameters `Passwords` and `Serializer`, with laws; the time, the random
-- tokens and whether the configuration could be saved are arguments.
pub mod Lockout
pub mod Sessions
pub mod Enrolment
pub mod Unsaved
mod Tests
use turbobond.Base.{
  ℕ, zero, suc, ◌-◌, ◌≤◌, ◌≡◌, Bool, true, false, not, ◌&&◌, ◌||◌, Option, none, some, List, [],
  ◌∷◌, ◌++◌, ltb, leb, if◌then◌else◌, length, keep,
}
use turbobond.Base.Text.{text_eq, is_empty, or_text, text_length}
use turbobond.Base.TextDict.{TextDict, text_lookup, text_insert, text_erase}
use Prim.Native.String.{String}

abbrev pub max_failures : ℕ
max_failures = 8

abbrev pub lockout_s : ℕ
lockout_s = 300

pub record Session : Type 0 where
  pub sid : String
  pub username : String
  pub created : ℕ
  pub last_seen : ℕ
  pub csrf : String
  pub remote : String

-- `cfg.auth`, and what the manager keeps.
pub record AuthManager : Type 0 where
  pub username : String
  pub password_hash : String
  pub session_ttl_s : ℕ
  pub sessions : TextDict Session
  pub failures : TextDict (List ℕ)

-- The AuthErrors.
pub data AuthError : Type 0 where
  locked_out : ℕ → AuthError
  password_required : AuthError
  password_too_short : AuthError
  not_correct : AuthError
  csrf_missing : AuthError

pub data Result (A : Type 0) : Type 0 where
  ok : A → Result A
  err : AuthError → Result A

-- `hash_password` with the salt that it draws, and `verify_password`.
pub record Passwords : Type 0 where
  pub hash_password : ℕ → String → String
  pub verify_password : String → String → Bool

-- What the library documents: a hash is not empty and is that of the password it was made of.
pub record IsPasswords (h : Passwords) : Type 0 where
  pub not_empty : (salt : ℕ) (p : String) → is_empty (h.hash_password salt p) ≡ false
  pub verifies : (salt : ℕ) (p : String) → h.verify_password p (h.hash_password salt p) ≡ true

-- What `URLSafeTimedSerializer.loads` does with a token: it raises, or returns no dict, or a dict with
-- this "sid".
pub data Loaded : Type 0 where
  signature_expired : Loaded
  bad_signature : Loaded
  no_dict : Loaded
  payload : String → Loaded

-- `dumps` of a session id and a name at a time, and `loads` at a time with a `max_age`.
pub record Serializer : Type 0 where
  pub dumps : ℕ → String → String → String
  pub loads : ℕ → ℕ → String → Loaded

-- A token is not empty, and from the time of `dumps` on it loads within its age as what was dumped.
pub record IsSerializer (z : Serializer) : Type 0 where
  pub not_empty : (now : ℕ) (sid u : String) → is_empty (z.dumps now sid u) ≡ false
  pub loads_back :
      (now later age : ℕ) (sid u : String)
      → now ≤ later
      → later - now ≤ age
      → z.loads later age (z.dumps now sid u) ≡ payload sid

-- What `sign_in` draws at random: the session id, the CSRF token and the salt of a hash.
pub record Drawn : Type 0 where
  pub sid : String
  pub csrf : String
  pub salt : ℕ

unfoldable pub enrolled : AuthManager → Bool
enrolled m = not (is_empty (m.password_hash))

-- `_enrol`; a configuration that cannot be saved is only logged.
unfoldable pub enrol : Passwords → ℕ → String → String → AuthManager → Result AuthManager
enrol h salt username password m =
    if ltb (text_length password) 8
    then err password_too_short
    else ok (record m {
      username = or_text username (m.username);
      password_hash = h.hash_password salt password;
    })

-- `self._failures.get(key, [])`, without the attempts that are old.
unfoldable pub recent : ℕ → Option (List ℕ) → List ℕ
recent now none = []
recent now (some ts) = keep (λ t. ltb (now - t) lockout_s) ts

-- The seconds that remain of a lockout for these attempts.
unfoldable pub remaining : ℕ → List ℕ → ℕ
remaining now [] = 0
remaining now (t ∷ ts) = if leb max_failures (length (t ∷ ts)) then lockout_s - (now - t) else 0

-- `_locked_out`, with the pruned attempts put back.
unfoldable pub locked_out_for : String → ℕ → AuthManager → ℕ × AuthManager
locked_out_for key now m =
    let attempts = recent now (text_lookup key (m.failures)) in
    (remaining now attempts, record m { failures = text_insert key attempts (m.failures) })

-- `self._failures.setdefault(key, []).append(now)`
unfoldable pub append_to : ℕ → Option (List ℕ) → List ℕ
append_to now none = now ∷ []
append_to now (some ts) = ts ++ (now ∷ [])

unfoldable pub record_failure : String → ℕ → AuthManager → AuthManager
record_failure key now m = record m {
  failures = text_insert key (append_to now (text_lookup key (m.failures))) (m.failures);
}

-- The end of `sign_in`: the failures are forgotten and a session is opened.
unfoldable pub open_session :
    String → String → ℕ → Drawn → AuthManager → Result Session × AuthManager
open_session key remote now drawn m =
    let session : Session = record {
      sid = drawn.sid;
      username = m.username;
      created = now;
      last_seen = now;
      csrf = drawn.csrf;
      remote = remote;
    } in
    (
      ok session,
      record m {
        failures = text_erase key (m.failures);
        sessions = text_insert (drawn.sid) session (m.sessions);
      },
    )

unfoldable pub after_enrol :
    String → String → ℕ → Drawn → Result AuthManager → AuthManager → Result Session × AuthManager
after_enrol key remote now drawn (err e) m = (err e, m)
after_enrol key remote now drawn (ok enrolled_m) m = open_session key remote now drawn enrolled_m

-- Whether name and password are those of the account.
unfoldable pub credentials : Passwords → String → String → AuthManager → Bool
credentials h username password m =
    text_eq (or_text username (m.username)) (m.username)
    && h.verify_password password (m.password_hash)

-- `sign_in` after the lockout.
unfoldable pub check_password :
    Passwords
    → String
    → String
    → String
    → String
    → ℕ
    → Drawn
    → AuthManager
    → Result Session × AuthManager
check_password h key username password remote now drawn m =
    if is_empty password
    then (err password_required, m)
    else if not (enrolled m)
    then after_enrol key remote now drawn (enrol h (drawn.salt) username password m) m
    else if credentials h username password m
    then open_session key remote now drawn m
    else (err not_correct, record_failure key now m)

unfoldable pub unless_locked :
    Passwords
    → String
    → String
    → String
    → String
    → ℕ
    → Drawn
    → ℕ × AuthManager
    → Result Session × AuthManager
unless_locked h key username password remote now drawn (zero, m) =
    check_password h key username password remote now drawn m
unless_locked h key username password remote now drawn (suc s, m) = (err (locked_out (suc s)), m)

-- `remote or "unknown"`
abbrev pub key_of : String → String
key_of remote = or_text remote "unknown"

unfoldable pub sign_in :
    Passwords → String → String → String → ℕ → Drawn → AuthManager → Result Session × AuthManager
sign_in h username password remote now drawn m =
    unless_locked h (key_of remote) username password remote now drawn
      (locked_out_for (key_of remote) now m)

unfoldable pub issue_cookie : Serializer → ℕ → Session → String
issue_cookie z now s = z.dumps now (s.sid) (s.username)

-- The end of `resolve`, with what the sessions hold under the id of the token.
unfoldable pub resolve_session : ℕ → Option Session → AuthManager → Option Session × AuthManager
resolve_session now none m = (none, m)
resolve_session now (some s) m =
    if ltb (m.session_ttl_s) (now - s.created)
    then (none, record m { sessions = text_erase (s.sid) (m.sessions) })
    else let seen = record s { last_seen = now } in
      (some seen, record m { sessions = text_insert (s.sid) seen (m.sessions) })

unfoldable pub resolve_loaded : ℕ → Loaded → AuthManager → Option Session × AuthManager
resolve_loaded now signature_expired m = (none, m)
resolve_loaded now bad_signature m = (none, m)
resolve_loaded now no_dict m = (none, m)
resolve_loaded now (payload sid) m = resolve_session now (text_lookup sid (m.sessions)) m

-- `resolve`; no token is `none`.
unfoldable pub resolve : Serializer → ℕ → Option String → AuthManager → Option Session × AuthManager
resolve z now none m = (none, m)
resolve z now (some token) m =
    if is_empty token then (none, m) else resolve_loaded now (z.loads now (m.session_ttl_s) token) m

unfoldable pub sign_out : Option Session → AuthManager → AuthManager
sign_out none m = m
sign_out (some s) m = record m { sessions = text_erase (s.sid) (m.sessions) }

unfoldable pub sign_out_all : AuthManager → ℕ × AuthManager
sign_out_all m = (length (m.sessions), record m { sessions = [] })

unfoldable pub check_csrf : Session → Option String → Result Unit
check_csrf s none = err csrf_missing
check_csrf s (some token) =
    if is_empty token || not (text_eq token (s.csrf)) then err csrf_missing else ok tt

-- `keep`, which is what the sessions hold under the id of the caller's session.
unfoldable pub kept : Option Session → TextDict Session
kept none = []
kept (some s) = (s.sid, s) ∷ []

-- What `change_password` ends with: it returned, it refused, or the configuration was not saved.
pub data Changed : Type 0 where
  changed : Changed
  refused : AuthError → Changed
  not_saved : Changed

unfoldable pub change_password :
    Passwords → Bool → ℕ → Session → String → String → AuthManager → Changed × AuthManager
change_password h saves salt s current new m =
    if not (h.verify_password current (m.password_hash))
    then (refused not_correct, m)
    else if ltb (text_length new) 8
    then (refused password_too_short, m)
    else let hashed = record m { password_hash = h.hash_password salt new } in
      if not saves
      then (not_saved, hashed)
      else (changed, record hashed { sessions = kept (text_lookup (s.sid) (m.sessions)) })
