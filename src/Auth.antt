-- ===== src/Auth.antt =====
-- The console's login: internal/services/auth.go over the tables `users` and `sessions`, and the
-- lockout of internal/handlers/auth.go in front of it. bcrypt and the random token are parameters;
-- times are nanoseconds. An address without an entry in the map of the lockout is `none`.
pub mod Granted
pub mod Lockout
mod Tests
use airgapp_rpi.Base.{
  ℕ, ◌+◌, ◌-◌, ◌*◌, Bool, true, false, not, ◌&&◌, Option, none, some, List, [], ◌∷◌, ◌++◌, any,
  keep, ltb, leb, ◌==◌, if◌then◌else◌,
}
use airgapp_rpi.Base.Text.{Text, str_eq}
use airgapp_rpi.Gate.{second, minute}

abbrev pub day : ℕ
day = 24 * (60 * minute)

pub record User : Type 0 where
  pub id : ℕ
  pub username : Text
  pub password_hash : Text

pub record Session : Type 0 where
  pub token : Text
  pub user_id : ℕ
  pub expires_at : ℕ

pub record Accounts : Type 0 where
  pub users : List User
  pub next_user : ℕ
  pub sessions : List Session

pub data LoginResult : Type 0 where
  invalid_credentials token_taken : LoginResult
  granted : Text → LoginResult

abbrev pub find_user : (User → Bool) → List User → Option User
find_user p [] = none
find_user p (u ∷ users) = let rest = find_user p users in if p u then some u else rest

abbrev pub find_session : Text → List Session → Option Session
find_session token [] = none
find_session token (s ∷ sessions) =
    let rest = find_session token sessions in if str_eq s.token token then some s else rest

-- `DELETE FROM sessions WHERE token = ?`
unfoldable pub delete_session : Text → List Session → List Session
delete_session token [] = []
delete_session token (s ∷ sessions) =
    let rest = delete_session token sessions in if str_eq s.token token then rest else s ∷ rest

unfoldable pub reset_rows : Text → Text → List User → List User
reset_rows username hashed [] = []
reset_rows username hashed (u ∷ users) =
    let rest = reset_rows username hashed users in
    if str_eq u.username username then record u { password_hash = hashed } ∷ rest else u ∷ rest

-- `hash` is `bcrypt.GenerateFromPassword`, `none` its error; `matches` is that `CompareHashAndPassword` gives no error.
module _ (hash : Text → Option Text) (matches : Text → Text → Bool) where
  -- A name that is taken is refused by the table: `none`, as for a password that cannot be hashed.
  unfoldable pub create_user : Text → Text → Accounts → Option Accounts
  create_user username password st = elim (hash password) [
    | none ↦ none
    | some hashed ↦
        if any (λ u. str_eq u.username username) st.users
        then none
        else some (record st {
          users =
              st.users
              ++ record { id = st.next_user; username = username; password_hash = hashed } ∷ [];
          next_user = st.next_user + 1;
        })
  ]

  unfoldable pub reset_password : Text → Text → Accounts → Option Accounts
  reset_password username password st = elim (hash password) [
    | none ↦ none
    | some hashed ↦
        if any (λ u. str_eq u.username username) st.users
        then some (record st { users = reset_rows username hashed st.users })
        else none
  ]

  unfoldable pub login : ℕ → Text → Text → Text → Accounts → LoginResult × Accounts
  login now username password token st =
      elim (find_user (λ u. str_eq u.username username) st.users) [
        | none ↦ (invalid_credentials, st)
        | some user ↦
            if not (matches user.password_hash password)
            then (invalid_credentials, st)
            else if any (λ s. str_eq s.token token) st.sessions
            then (token_taken, st)
            else (
              granted token,
              record st {
                sessions =
                    record { token = token; user_id = user.id; expires_at = now + day }
                    ∷ st.sessions;
              },
            )
      ]

-- `ValidateSession`: the user, and the tables with an expired session removed.
unfoldable pub validate_session : ℕ → Text → Accounts → Option User × Accounts
validate_session now token st = elim (find_session token st.sessions) [
  | none ↦ (none, st)
  | some s ↦ elim (find_user (λ u. u.id == s.user_id) st.users) [
    | none ↦ (none, st)
    | some user ↦
        if ltb s.expires_at now
        then (none, record st { sessions = delete_session token st.sessions })
        else (some user, st)
  ]
]

unfoldable pub logout : Text → Accounts → Accounts
logout token st = record st { sessions = delete_session token st.sessions }

unfoldable pub clean_expired_sessions : ℕ → Accounts → Accounts
clean_expired_sessions now st = record st {
  sessions = keep (λ s. not (ltb s.expires_at now)) st.sessions;
}

-- `loginBucket` of internal/handlers/auth.go; a `lock_until` of 0 is the zero time.
pub record Bucket : Type 0 where
  pub failures : ℕ
  pub first_hit : ℕ
  pub lock_until : ℕ

abbrev pub login_max_failures : ℕ
login_max_failures = 5

abbrev pub login_window : ℕ
login_window = minute

abbrev pub login_lockout : ℕ
login_lockout = 2 * minute

-- The remaining lockout, if there is one.
unfoldable pub login_locked : ℕ → Option Bucket → Option ℕ
login_locked now none = none
login_locked now (some b) = if ltb now b.lock_until then some (b.lock_until - now) else none

unfoldable pub record_login_failure : ℕ → Option Bucket → Bucket
record_login_failure now none = record { failures = 1; first_hit = now; lock_until = 0 }
record_login_failure now (some b) =
    if ltb login_window (now - b.first_hit)
    then record { failures = 1; first_hit = now; lock_until = 0 }
    else if leb login_max_failures (b.failures + 1)
    then record b { failures = b.failures + 1; lock_until = now + login_lockout }
    else record b { failures = b.failures + 1 }

pub data Answer : Type 0 where
  too_many_requests : ℕ → Answer
  bad_request unauthorized : Answer
  logged_in : Text → Answer

-- `Login` of the handler for one address: what is asked of the service, as a function of the tables,
-- or `none` for a body that cannot be decoded.
unfoldable pub handle_login :
    ℕ
    → Option (Accounts → LoginResult × Accounts)
    → Option Bucket × Accounts
    → Answer × (Option Bucket × Accounts)
handle_login now request (bucket, st) = elim (login_locked now bucket) [
  | some left ↦ (too_many_requests left, (bucket, st))
  | none ↦ elim request [
    | none ↦ (bad_request, (bucket, st))
    | some ask ↦
        let (result, after) = ask st in
        elim result [
          | granted token ↦ (logged_in token, (none, after))
          | _ ↦ (unauthorized, (some (record_login_failure now bucket), after))
        ]
  ]
]
