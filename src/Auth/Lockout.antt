-- ===== src/Auth/Lockout.antt =====
-- turbobond/app/auth.py: the lockout after too many failures.
use turbobond.Base.{
  ℕ, zero, suc, ◌+◌, ◌-◌, ◌≤◌, ◌<◌, ◌≡◌, min, refl, subst, ap, ◌∙◌, true, false, Option, none, some,
  List, [], ◌∷◌, ◌++◌, length, length-append, keep, All, All-append, All-map, inl, inr, ltb, leb,
  ltb→lt, lt→ltb, le→leb, arith, Bool-cases,
}
use turbobond.Base.Text.{is_empty}
use turbobond.Base.TextDict.{text_lookup, text_insert, text_lookup-text_insert_self}
use Prim.Native.String.{String}
use turbobond.Auth.{
  AuthManager, Session, Passwords, Drawn, Result, err, locked_out, not_correct, enrolled,
  credentials, sign_in, locked_out_for, unless_locked, check_password, record_failure, append_to,
  recent, remaining, key_of, lockout_s, max_failures,
}

-- One call of `sign_in`, but for the address.
pub record Attempt : Type 0 where
  pub username : String
  pub password : String
  pub now : ℕ
  pub drawn : Drawn

unfoldable pub attempts : Passwords → String → List Attempt → AuthManager → AuthManager
attempts h remote [] m = m
attempts h remote (a ∷ rest) m =
    attempts h remote rest ((sign_in h (a.username) (a.password) remote (a.now) (a.drawn) m).1)

-- The failures that are kept for an address.
abbrev pub noted : Option (List ℕ) → List ℕ
noted none = []
noted (some ts) = ts

abbrev pub failures_of : String → AuthManager → List ℕ
failures_of remote m = noted (text_lookup (key_of remote) (m.failures))

-- In the `lockout_s` seconds from `start`.
abbrev pub Within : ℕ → ℕ → Type 0
Within start t = (start ≤ t) × (t < start + lockout_s)

-- An attempt within these seconds, with a password that is not that of the account.
abbrev pub Wrong : Passwords → ℕ → AuthManager → Attempt → Type 0
Wrong h start m a =
    (is_empty (a.password) ≡ false)
    × (credentials h (a.username) (a.password) m ≡ false)
    × Within start (a.now)

keep-Within :
    (start now : ℕ) (ts : List ℕ)
    → now < start + lockout_s
    → All (Within start) ts
    → keep (λ t. ltb (now - t) lockout_s) ts ≡ ts
keep-Within start now [] h o = refl
keep-Within start now (t ∷ ts) h ((l, u), o) =
    let e : ltb (now - t) 300 ≡ true = lt→ltb _ _ (omega arith) in
    rw (e) (ap (◌∷◌ t) (keep-Within start now ts h o))

recent-Within :
    (start now : ℕ) (o : Option (List ℕ))
    → now < start + lockout_s
    → All (Within start) (noted o)
    → recent now o ≡ noted o
unfolding recent
recent-Within start now none h w = refl
recent-Within start now (some ts) h w = keep-Within start now ts h w

remaining_few : (now : ℕ) (ts : List ℕ) → length ts < max_failures → remaining now ts ≡ 0
unfolding remaining
remaining_few now [] h = refl
remaining_few now (t ∷ ts) h = ground arith

remaining_many :
    (start now : ℕ) (ts : List ℕ)
    → now < start + lockout_s
    → All (Within start) ts
    → max_failures ≤ length ts
    → 0 < remaining now ts
unfolding remaining
remaining_many start now [] h w l = absurd (omega arith)
remaining_many start now (t ∷ ts) h ((a, b), w) l =
    let e : leb 8 (length (t ∷ ts)) ≡ true = le→leb _ _ l in rw (e) (omega arith)

-- The account and the sessions are the same.
abbrev pub Same : AuthManager → AuthManager → Type 0
Same m n =
    (n.username ≡ m.username) × (n.password_hash ≡ m.password_hash) × (n.sessions ≡ m.sessions)

-- After `k` wrong attempts.
abbrev After : String → ℕ → ℕ → AuthManager → Type 0
After remote start k m =
    All (Within start) (failures_of remote m) × (min k 8 ≤ length (failures_of remote m))

abbrev pub Locked : AuthManager → Result Session × AuthManager → Type 0
Locked m r = (s : ℕ) × (r.0 ≡ err (locked_out s)) × Same m (r.1)

unless_locked_positive :
    (h : Passwords) (key u p remote : String) (now : ℕ) (d : Drawn) (n : ℕ) (m : AuthManager)
    → 0 < n
    → (s : ℕ) × (unless_locked h key u p remote now d (n, m) ≡ (err (locked_out s), m))
unfolding unless_locked
unless_locked_positive h key u p remote now d zero m l = absurd (omega arith)
unless_locked_positive h key u p remote now d (suc n) m l = (suc n, refl)

unless_locked_zero :
    (h : Passwords) (key u p remote : String) (now : ℕ) (d : Drawn) (n : ℕ) (m : AuthManager)
    → n ≡ 0
    → unless_locked h key u p remote now d (n, m) ≡ check_password h key u p remote now d m
unfolding unless_locked
unless_locked_zero h key u p remote now d n m e = rw (e) refl

check_password_wrong :
    (h : Passwords) (key u p remote : String) (now : ℕ) (d : Drawn) (m : AuthManager)
    → is_empty p ≡ false
    → enrolled m ≡ true
    → credentials h u p m ≡ false
    → check_password h key u p remote now d m ≡ (err not_correct, record_failure key now m)
unfolding check_password
check_password_wrong h key u p remote now d m f e c = rw (f) (rw (e) (rw (c) refl))

-- The address's failures with the kept ones put back.
abbrev pruned : String → AuthManager → AuthManager
pruned remote m = record m {
  failures = text_insert (key_of remote) (failures_of remote m) (m.failures);
}

pruned_lookup :
    (remote : String) (m : AuthManager)
    → text_lookup (key_of remote) ((pruned remote m).failures) ≡ some (failures_of remote m)
pruned_lookup remote m =
    text_lookup-text_insert_self (key_of remote) (failures_of remote m) (m.failures)

recorded :
    (remote : String) (now : ℕ) (m : AuthManager)
    → failures_of remote (record_failure (key_of remote) now (pruned remote m))
      ≡ failures_of remote m ++ (now ∷ [])
unfolding record_failure append_to
recorded remote now m =
    let key = key_of remote in
    let d = (pruned remote m).failures in
    ap noted (text_lookup-text_insert_self key (append_to now (text_lookup key d)) d)
    ∙ ap (append_to now) (pruned_lookup remote m)

sign_in_of :
    (h : Passwords) (start : ℕ) (u p remote : String) (now : ℕ) (d : Drawn) (m : AuthManager)
    → now < start + lockout_s
    → All (Within start) (failures_of remote m)
    → sign_in h u p remote now d m
      ≡ unless_locked h (key_of remote) u p remote now d (
        remaining now (failures_of remote m),
        record m { failures = text_insert (key_of remote) (failures_of remote m) (m.failures) },
      )
unfolding sign_in locked_out_for
sign_in_of h start u p remote now d m l w =
    rw (recent-Within start now (text_lookup (key_of remote) (m.failures)) l w) refl

-- Eight failures in the window lock the address out.
sign_in-Locked :
    (h : Passwords) (start : ℕ) (u p remote : String) (now : ℕ) (d : Drawn) (m : AuthManager)
    → Within start now
    → All (Within start) (failures_of remote m)
    → max_failures ≤ length (failures_of remote m)
    → Locked m (sign_in h u p remote now d m)
      × (failures_of remote ((sign_in h u p remote now d m).1) ≡ failures_of remote m)
sign_in-Locked h start u p remote now d m (a, b) w l =
    let (s, e) =
      unless_locked_positive h (key_of remote) u p remote now d
        (remaining now (failures_of remote m)) (pruned remote m)
        (remaining_many start now (failures_of remote m) b w l) in
    let e' = sign_in_of h start u p remote now d m b w ∙ e in
    rw (e') ((s, refl, (refl, refl, refl)), ap noted (pruned_lookup remote m))

Wrong-attempt :
    (h : Passwords) (start : ℕ) (remote : String) (a : Attempt) (m : AuthManager)
    → enrolled m ≡ true
    → Wrong h start m a
    → All (Within start) (failures_of remote m)
    → length (failures_of remote m) < max_failures
    → (let w = (sign_in h (a.username) (a.password) remote (a.now) (a.drawn) m).1 in
        Same m w × (failures_of remote w ≡ failures_of remote m ++ (a.now ∷ [])))
unfolding record_failure enrolled credentials
Wrong-attempt h start remote a m e (filled, bad, (_, l)) w few =
    let key = key_of remote in
    let e' =
      sign_in_of h start (a.username) (a.password) remote (a.now) (a.drawn) m l w
      ∙ unless_locked_zero h key (a.username) (a.password) remote (a.now) (a.drawn)
          (remaining (a.now) (failures_of remote m)) (pruned remote m)
          (remaining_few (a.now) (failures_of remote m) few)
      ∙ check_password_wrong h key (a.username) (a.password) remote (a.now) (a.drawn)
          (pruned remote m) filled e bad in
    rw (e') ((refl, refl, refl), recorded remote (a.now) m)

attempt-After :
    (h : Passwords) (start k : ℕ) (remote : String) (a : Attempt) (m : AuthManager)
    → enrolled m ≡ true
    → Wrong h start m a
    → After remote start k m
    → (let w = (sign_in h (a.username) (a.password) remote (a.now) (a.drawn) m).1 in
        Same m w × After remote start (k + 1) w)
attempt-After h start k remote a m e bad (w, l) =
    elim (Bool-cases (ltb (length (failures_of remote m)) 8)) [
      | inl few ↦
          let (same, f) = Wrong-attempt h start remote a m e bad w (ltb→lt _ _ few) in
          (
            same,
            rw (f) (
              All-append (Within start) (failures_of remote m) (a.now ∷ []) w (bad.2, tt),
              omega (arith, length-append (failures_of remote m) (a.now ∷ [])),
            ),
          )
      | inr many ↦
          let many' : 8 ≤ length (failures_of remote m) = ground arith in
          let ((s, _, same), f) =
            sign_in-Locked h start (a.username) (a.password) remote (a.now) (a.drawn) m (bad.2) w
              many' in
          (same, rw (f) (w, omega arith))
    ]

Wrong-Same :
    (h : Passwords) (start : ℕ) (m n : AuthManager) (a : Attempt)
    → Same m n
    → Wrong h start m a
    → Wrong h start n a
unfolding credentials
Wrong-Same h start m n a (u, p, _) (f, c, w) = (f, rw (u) (rw (p) c), w)

attempts-After :
    (h : Passwords) (start k : ℕ) (remote : String) (tries : List Attempt) (m : AuthManager)
    → enrolled m ≡ true
    → All (Wrong h start m) tries
    → After remote start k m
    → Same m (attempts h remote tries m)
      × After remote start (k + length tries) (attempts h remote tries m)
unfolding attempts enrolled
attempts-After h start k remote [] m e w o =
    ((refl, refl, refl), subst (λ i. After remote start i m) (omega arith) o)
attempts-After h start k remote (a ∷ rest) m e (bad, w) o =
    let m' = (sign_in h (a.username) (a.password) remote (a.now) (a.drawn) m).1 in
    let (same, o') = attempt-After h start k remote a m e bad o in
    let (u, p, ss) = same in
    let ((u', p', ss'), last) =
      attempts-After h start (k + 1) remote rest m' (rw (p) e)
        (All-map (λ x. Wrong-Same h start m m' x same) rest w) o' in
    (
      (u' ∙ u, p' ∙ p, ss' ∙ ss),
      subst (λ i. After remote start i (attempts h remote rest m')) (omega arith) last,
    )

-- Once an address has made eight or more attempts on an account with passwords that are not its own,
-- all within the lockout time and with no older failures, any further sign-in from that address within
-- this time is refused as locked out, whatever its password, and opens no session.
pub attempts_lock_out :
    (h : Passwords) (start : ℕ) (remote : String) (tries : List Attempt) (m : AuthManager)
    (username password : String) (now : ℕ) (drawn : Drawn)
    → enrolled m ≡ true
    → text_lookup (key_of remote) (m.failures) ≡ none
    → All (Wrong h start m) tries
    → max_failures ≤ length tries
    → Within start now
    → Locked m (sign_in h username password remote now drawn (attempts h remote tries m))
attempts_lock_out h start remote tries m username password now drawn e none_yet w enough within =
    let start_after : After remote start 0 m = rw (none_yet) (tt, omega arith) in
    let ((u, p, ss), (all_within, many)) =
      attempts-After h start 0 remote tries m e w start_after in
    let ((s, refused, (u', p', ss')), _) =
      sign_in-Locked h start username password remote now drawn (attempts h remote tries m) within
        all_within (omega arith) in
    (s, refused, (u' ∙ u, p' ∙ p, ss' ∙ ss))
