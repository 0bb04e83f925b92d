-- ===== src/Auth/Tests.antt =====
-- A manager with a concrete hash and concrete cookies, and the theorems on it.
use turbobond.Base.{
  ℕ, ◌≡◌, ◌≢◌, refl, true, false, Bool-cases, inl, inr, ap, some, Option, List, [], ◌∷◌, arith,
}
use turbobond.Base.Text.{is_empty, text_eq, text_eq_refl, text_length, text_eq_iff}
use turbobond.Base.TextDict.{text_lookup, text_erase}
use Prim.Native.String.{String}
use turbobond.Auth.{
  AuthManager, Session, Passwords, IsPasswords, Serializer, IsSerializer, Loaded, payload,
  bad_signature, Drawn, ok, sign_in, resolve, sign_out, change_password, issue_cookie, enrolled,
  credentials, check_password, unless_locked, locked_out_for, recent, remaining, open_session,
  after_enrol, enrol, resolve_loaded, resolve_session, kept, not_saved,
}
use turbobond.Auth.Lockout.{Attempt, attempts, Locked, attempts_lock_out}
use turbobond.Auth.Sessions.{Live, resolve-Live, resolve-sign_out, resolve-change_password}
use turbobond.Auth.Unsaved.{change_password_unsaved}
use turbobond.Auth.Enrolment.{resolve-issue_cookie, sign_in_enrols}

-- A hash that hides nothing, which is enough to meet the laws.
abbrev hash : String → String
hash p = String.◌∷◌ "h" p

abbrev plain : Passwords
plain = record {
  hash_password = λ salt p. hash p;
  verify_password = λ p stored. text_eq stored (hash p);
}

filled : (p : String) → is_empty (hash p) ≡ false
unfolding text_length
filled p = elim (Bool-cases (is_empty (hash p))) [
  | inl e ↦
      let q : hash p ≡ "" = ground (arith, e, text_eq_iff (hash p) "") in
      absurd (omega (arith, ap text_length q))
  | inr e ↦ e
]

plain-IsPasswords : IsPasswords plain
plain-IsPasswords = record {
  not_empty = λ salt p. filled p;
  verifies = λ salt p. text_eq_refl (hash p);
}

abbrev opened : String → Loaded
opened String.[] = bad_signature
opened (String.◌∷◌ c s) = payload s

abbrev signed : Serializer
signed = record { dumps = λ now sid u. hash sid; loads = λ now age token. opened token }

signed-IsSerializer : IsSerializer signed
signed-IsSerializer = record {
  not_empty = λ now sid u. filled sid;
  loads_back = λ now later age sid u forward h. refl;
}

abbrev fresh : AuthManager
fresh = record {
  username = "admin";
  password_hash = "";
  session_ttl_s = 100;
  sessions = [];
  failures = [];
}

abbrev drawn : Drawn
drawn = record { sid = "s1"; csrf = "c1"; salt = 7 }

abbrev own : Session
own = record {
  sid = "s1";
  username = "admin";
  created = 5;
  last_seen = 5;
  csrf = "c1";
  remote = "10.0.0.2";
}

abbrev account : AuthManager
account = record fresh { password_hash = "hlong enough"; sessions = ("s1", own) ∷ [] }

abbrev guess : ℕ → Attempt
guess t = record { username = "admin"; password = "guess"; now = t; drawn = drawn }

abbrev guesses : List Attempt
guesses = guess 10 ∷ guess 11 ∷ guess 12 ∷ guess 13 ∷ guess 14 ∷ guess 15 ∷ guess 16 ∷ guess 17 ∷ []

attempts_lock_out_example : Locked account (
    sign_in plain "admin" "long enough" "10.0.0.9" 20 drawn
      (attempts plain "10.0.0.9" guesses account))
unfolding credentials text_lookup enrolled
attempts_lock_out_example =
    attempts_lock_out plain 10 "10.0.0.9" guesses account "admin" "long enough" 20 drawn refl refl
      (
        (refl, refl, (omega arith, omega arith)),
        (
          (refl, refl, (omega arith, omega arith)),
          (
            (refl, refl, (omega arith, omega arith)),
            (
              (refl, refl, (omega arith, omega arith)),
              (
                (refl, refl, (omega arith, omega arith)),
                (
                  (refl, refl, (omega arith, omega arith)),
                  (
                    (refl, refl, (omega arith, omega arith)),
                    ((refl, refl, (omega arith, omega arith)), tt),
                  ),
                ),
              ),
            ),
          ),
        ),
      )
      (omega arith) (omega arith, omega arith)

resolve-Live_example : Live signed 20 "hs1" account (record own { last_seen = 20 })
unfolding resolve resolve_loaded resolve_session text_lookup
resolve-Live_example = resolve-Live signed 20 "hs1" account (record own { last_seen = 20 }) refl

abbrev other : Session
other = record own { sid = "s2" }

abbrev two : AuthManager
two = record account { sessions = ("s1", own) ∷ ("s2", other) ∷ [] }

resolve-sign_out_example : (record other { last_seen = 20 }).sid ≢ own.sid
unfolding resolve resolve_loaded resolve_session text_lookup sign_out text_erase
resolve-sign_out_example =
    resolve-sign_out signed 20 "hs2" two own (record other { last_seen = 20 }) (refl, (refl, tt))
      refl

resolve-change_password_example : (record own { last_seen = 20 }).sid ≡ own.sid
unfolding resolve resolve_loaded resolve_session text_lookup change_password kept text_length
resolve-change_password_example =
    resolve-change_password plain signed true 7 20 own (record own { last_seen = 20 }) "long enough"
      "also long enough" "hs1" two (refl, (refl, tt)) refl refl

change_password_unsaved_example :
    ((change_password plain false 7 own "long enough" "also long enough" two).0 ≡ not_saved)
    × ((t : Session) × ((sign_in plain "" "also long enough" "10.0.0.2" 30 drawn
            ((change_password plain false 7 own "long enough" "also long enough" two).1)).0
          ≡ ok t))
    × ((now : ℕ) (token : Option String)
        → (resolve signed now token
            ((change_password plain false 7 own "long enough" "also long enough" two).1)).0
          ≡ (resolve signed now token two).0)
unfolding text_lookup text_length
change_password_unsaved_example =
    change_password_unsaved plain signed 7 own "long enough" "also long enough" "10.0.0.2" 30 drawn
      two plain-IsPasswords refl (omega arith) refl

resolve-issue_cookie_example :
    (resolve signed 30
      (some (issue_cookie signed 6 own))
      ((sign_in plain "" "long enough" "10.0.0.2" 5 drawn fresh).1)).0
    ≡ some (record own { last_seen = 30 })
unfolding sign_in locked_out_for text_lookup recent remaining unless_locked check_password enrolled
    after_enrol enrol open_session text_length
resolve-issue_cookie_example =
    resolve-issue_cookie plain signed "" "long enough" "10.0.0.2" 5 6 30 drawn fresh own
      signed-IsSerializer refl (omega arith) (omega arith) (omega arith)

sign_in_enrols_example :
    ((s : Session) × ((sign_in plain "" "long enough" "10.0.0.2" 5 drawn fresh).0 ≡ ok s))
    × (enrolled ((sign_in plain "" "long enough" "10.0.0.2" 5 drawn fresh).1) ≡ true)
    × (credentials plain "" "long enough"
          ((sign_in plain "" "long enough" "10.0.0.2" 5 drawn fresh).1)
        ≡ true)
unfolding enrolled text_lookup text_length
sign_in_enrols_example =
    sign_in_enrols plain "" "long enough" "10.0.0.2" 5 drawn fresh plain-IsPasswords refl refl
      (omega arith)
