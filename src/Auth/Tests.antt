-- ===== src/Auth/Tests.antt =====
-- Runs of Auth on concrete accounts.
use airgapp_rpi.Base.{
  ℕ, ◌+◌, ◌-◌, ◌*◌, ◌≡◌, ◌≤◌, refl, Bool, Option, none, some, List, [], ◌∷◌, ◌++◌, arith,
}
use airgapp_rpi.Base.Text.{Text, codes, str_eq}
use airgapp_rpi.Gate.{second}
use airgapp_rpi.Auth.{
  day, User, Accounts, too_many_requests, unauthorized, login_lockout, create_user, reset_password,
  login, LoginResult, validate_session, delete_session, logout, login_locked, handle_login,
}
use airgapp_rpi.Auth.Lockout.{Try, send, send_all, fifth_failure-locks}
use airgapp_rpi.Auth.Granted.{
  Op, create, enter, leave, step, run, IsGranted, validate_session-IsGranted,
}

-- A hash that puts one byte before the password, and refuses the empty one.
abbrev hash : Text → Option Text
hash [] = none
hash (c ∷ password) = some (b'#' ∷ c ∷ password)

abbrev matches : Text → Text → Bool
matches hashed password = str_eq hashed (b'#' ∷ password)

abbrev no_accounts : Accounts
no_accounts = record { users = []; next_user = 1; sessions = [] }

abbrev ops : List Op
ops =
    create (codes "admin") (codes "secret")
    ∷ enter 10 (codes "admin") (codes "wrong") (codes "t0")
    ∷ enter 20 (codes "admin") (codes "secret") (codes "t1")
    ∷ []

abbrev admin : User
admin = record { id = 1; username = codes "admin"; password_hash = codes "#secret" }

abbrev one_admin : Accounts
one_admin = record { users = admin ∷ []; next_user = 2; sessions = [] }

abbrev right : Accounts → LoginResult × Accounts
right st = login hash matches (5 * second) (codes "admin") (codes "secret") (codes "t2") st

test_validate : (validate_session 30 (codes "t1") (run hash matches ops no_accounts)).0 ≡ some admin
unfolding validate_session run step create_user login str_eq
test_validate = refl

test_refused : (validate_session 30 (codes "t0") (run hash matches ops no_accounts)).0 ≡ none
unfolding validate_session run step create_user login str_eq
test_refused = refl

test_expired :
    (validate_session (20 + day + 1) (codes "t1") (run hash matches ops no_accounts)).0 ≡ none
unfolding validate_session run step create_user login str_eq
test_expired = refl

test_logout :
    (validate_session 30
      (codes "t1")
      (run hash matches (ops ++ leave (codes "t1") ∷ []) no_accounts)).0
    ≡ none
unfolding validate_session run step create_user login logout delete_session str_eq
test_logout = refl

test_reset : reset_password hash matches (codes "nobody") (codes "x") no_accounts ≡ none
unfolding reset_password
test_reset = refl

test_failure :
    (handle_login 0
      (some (login hash matches 0 (codes "a") (codes "b") (codes "t")))
      (none, no_accounts)).0
    ≡ unauthorized
unfolding handle_login login login_locked
test_failure = refl

validate_session-IsGranted_example :
    (expires_at : ℕ) × IsGranted hash matches no_accounts ops (codes "t1") expires_at
    × (30 ≤ expires_at)
unfolding validate_session run step create_user login str_eq
validate_session-IsGranted_example =
    validate_session-IsGranted hash matches no_accounts ops 30 (codes "t1") admin refl refl

abbrev guess : ℕ → Try
guess t = record { at = t; username = codes "admin"; password = codes "guess"; token = codes "t9" }

abbrev guesses : List Try
guesses = guess 0 ∷ guess 1 ∷ guess 2 ∷ guess 3 ∷ []

fifth_failure-locks_example :
    ((send hash matches (guess (4 * second)) (send_all hash matches guesses (none, one_admin))).0
      ≡ unauthorized)
    × ((send hash matches
          (guess (4 * second))
          (send_all hash matches guesses (none, one_admin))).1.1
        ≡ one_admin)
    × (handle_login
          (5 * second)
          (some right)
          (send hash matches
            (guess (4 * second))
            (send_all hash matches guesses (none, one_admin))).1
        ≡ (
          too_many_requests (4 * second + login_lockout - 5 * second),
          (send hash matches
              (guess (4 * second))
              (send_all hash matches guesses (none, one_admin))).1,
        ))
unfolding login str_eq
fifth_failure-locks_example =
    fifth_failure-locks hash matches (guess 0) (guess (4 * second))
      (guess 1 ∷ guess 2 ∷ guess 3 ∷ []) (5 * second) (some right) one_admin refl
      (refl, (refl, (refl, tt))) refl refl refl refl (omega arith)
