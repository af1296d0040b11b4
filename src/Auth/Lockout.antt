-- ===== src/Auth/Lockout.antt =====
-- How many wrong passwords the login of internal/handlers/auth.go takes from one address.
use airgapp_rpi.Base.{
  ℕ, ◌+◌, ◌-◌, ◌≤◌, ◌<◌, ◌≡◌, refl, ap, ◌∙◌, Bool, true, Option, none, some, List, [], ◌∷◌, length,
  all, map, All, arith, leb, Option-cases, Bool-cases, inl, inr,
}
use airgapp_rpi.Auth.{
  Bucket, login_window, login_lockout, login_locked, record_login_failure, Accounts, LoginResult,
  Answer, too_many_requests, unauthorized, invalid_credentials, find_user, login, handle_login,
}
use airgapp_rpi.Base.Text.{Text, str_eq}

-- Failures at the given times, one after the other.
unfoldable pub fail_all : List ℕ → Bucket → Bucket
fail_all [] b = b
fail_all (t ∷ times) b = fail_all times (record_login_failure t (some b))

-- The times lie within a minute of the first failure.
abbrev pub is_within : ℕ → ℕ → Bool
is_within first t = leb (t - first) login_window

fail_one-failures :
    (t : ℕ) (b : Bucket)
    → is_within b.first_hit t ≡ true
    → ((record_login_failure t (some b)).failures ≡ b.failures + 1)
      × ((record_login_failure t (some b)).first_hit ≡ b.first_hit)
unfolding record_login_failure
fail_one-failures t b h = (ground arith, ground arith)

fail_all-failures :
    (times : List ℕ) (b : Bucket)
    → all (is_within b.first_hit) times ≡ true
    → ((fail_all times b).failures ≡ b.failures + length times)
      × ((fail_all times b).first_hit ≡ b.first_hit)
unfolding fail_all
fail_all-failures [] b h = (omega arith, refl)
fail_all-failures (t ∷ times) b h =
    let (f, e) = fail_one-failures t b (ground arith) in
    let later : all (is_within (record_login_failure t (some b)).first_hit) times ≡ true =
      rw e (ground arith) in
    let (g, k) = fail_all-failures times (record_login_failure t (some b)) later in
    (omega (arith, g, f), k ∙ e)

fail_one-lock :
    (t : ℕ) (b : Bucket)
    → is_within b.first_hit t ≡ true
    → b.failures + 1 < 5
    → (record_login_failure t (some b)).lock_until ≡ b.lock_until
unfolding record_login_failure
fail_one-lock t b h few = ground arith

fail_all-lock :
    (times : List ℕ) (b : Bucket)
    → all (is_within b.first_hit) times ≡ true
    → b.failures + length times < 5
    → (fail_all times b).lock_until ≡ b.lock_until
unfolding fail_all
fail_all-lock [] b h few = refl
fail_all-lock (t ∷ times) b h few =
    let (f, e) = fail_one-failures t b (ground arith) in
    let later : all (is_within (record_login_failure t (some b)).first_hit) times ≡ true =
      rw e (ground arith) in
    fail_all-lock times (record_login_failure t (some b)) later (omega (arith, f, few))
    ∙ fail_one-lock t b (ground arith) (omega (arith, few))

last_failure-locks :
    (last now : ℕ) (b : Bucket)
    → is_within b.first_hit last ≡ true
    → 4 ≤ b.failures
    → now < last + login_lockout
    → login_locked now (some (record_login_failure last (some b)))
      ≡ some (last + login_lockout - now)
unfolding login_locked record_login_failure
last_failure-locks last now b h many soon = ground arith

handle_login-locked :
    (now left : ℕ) (request : Option (Accounts → LoginResult × Accounts)) (bucket : Option Bucket)
    (st : Accounts)
    → login_locked now bucket ≡ some left
    → handle_login now request (bucket, st) ≡ (too_many_requests left, (bucket, st))
unfolding handle_login
handle_login-locked now left request bucket st h = rw (h, handle_login) refl

start : ℕ → Bucket
start first = record_login_failure first none

start-bucket :
    (first : ℕ) → start first ≡ record { failures = 1; first_hit = first; lock_until = 0 }
unfolding start record_login_failure
start-bucket first = refl

-- Up to the fourth failure within a minute of the first, the address is not locked at any time.
early_failures-unlocked :
    (first now : ℕ) (times : List ℕ)
    → all (is_within first) times ≡ true
    → length times ≤ 3
    → login_locked now (some (fail_all times (record_login_failure first none))) ≡ none
unfolding start login_locked
early_failures-unlocked first now times h few =
    let open_still : (fail_all times (start first)).lock_until ≡ 0 = rw (start-bucket first) (
      fail_all-lock times (record { failures = 1; first_hit = first; lock_until = 0 }) h
        (omega (arith, few))) in
    rw open_still (ground arith)

-- A login that is sent, with the token that would be drawn for it.
pub record Try : Type 0 where
  pub at : ℕ
  pub username : Text
  pub password : Text
  pub token : Text

zero_lock-unlocked : (now : ℕ) (b : Bucket) → b.lock_until ≡ 0 → login_locked now (some b) ≡ none
unfolding login_locked
zero_lock-unlocked now b h = rw h (ground arith)

module _ (hash : Text → Option Text) (matches : Text → Text → Bool) where
  -- The handler on one login, and on several, one after the other.
  unfoldable pub send : Try → Option Bucket × Accounts → Answer × (Option Bucket × Accounts)
  send a st = handle_login a.at (some (login hash matches a.at a.username a.password a.token)) st

  unfoldable pub send_all : List Try → Option Bucket × Accounts → Option Bucket × Accounts
  send_all [] st = st
  send_all (a ∷ tries) st = send_all tries (send a st).1

  -- The password is wrong, or there is no such user.
  abbrev pub IsWrong : Accounts → Try → Type 0
  IsWrong st a = (login hash matches a.at a.username a.password a.token st).0 ≡ invalid_credentials

  wrong-tables :
      (st : Accounts) (a : Try)
      → IsWrong st a
      → login hash matches a.at a.username a.password a.token st ≡ (invalid_credentials, st)
  unfolding login
  wrong-tables st a w =
      elim (Option-cases (find_user (λ u. str_eq u.username a.username) st.users)) [
        | inl e ↦ rw (e, login) refl
        | inr (u, e) ↦ elim (Bool-cases (matches u.password_hash a.password)) [
          | inr m ↦ rw (e, m, login) refl
          | inl m ↦ absurd (ground (arith, e, m))
        ]
      ]

  send-wrong :
      (bucket : Option Bucket) (st : Accounts) (a : Try)
      → login_locked a.at bucket ≡ none
      → IsWrong st a
      → send a (bucket, st) ≡ (unauthorized, (some (record_login_failure a.at bucket), st))
  unfolding send handle_login
  send-wrong bucket st a free w =
      rw (free, wrong-tables st a w, handle_login, wrong-tables st a w) refl

  send_all-wrong :
      (tries : List Try) (b : Bucket) (st : Accounts)
      → b.lock_until ≡ 0
      → b.failures + length tries < 5
      → all (λ a. is_within b.first_hit a.at) tries ≡ true
      → All (IsWrong st) tries
      → send_all tries (some b, st) ≡ (some (fail_all (map (λ a. a.at) tries) b), st)
  unfolding send_all fail_all
  send_all-wrong [] b st z few h w = refl
  send_all-wrong (a ∷ tries) b st z few h (wrong, w) =
      let (f, e) = fail_one-failures a.at b (ground arith) in
      let next = record_login_failure a.at (some b) in
      let still : next.lock_until ≡ 0 =
        fail_one-lock a.at b (ground arith) (omega (arith, few)) ∙ z in
      let later : all (λ t. is_within next.first_hit t.at) tries ≡ true = rw e (ground arith) in
      rw (send-wrong (some b) st a (zero_lock-unlocked a.at b z) wrong)
        (send_all-wrong tries next st still (omega (arith, f, few)) later w)

  all-times :
      (first : ℕ) (tries : List Try)
      → all (λ a. is_within first a.at) tries ≡ true
      → all (is_within first) (map (λ a. a.at) tries) ≡ true
  all-times first [] h = refl
  all-times first (a ∷ tries) h = ground (arith, all-times first tries)

  length-times : (tries : List Try) → length (map (λ a. a.at) tries) ≡ length tries
  length-times [] = refl
  length-times (a ∷ tries) = omega (arith, length-times tries)

  -- Five logins with wrong passwords are sent from an address without an entry, the others within a
  -- minute of the first. The fifth is answered like a wrong password, and changes no table; it locks
  -- the address: for two minutes from it, every login of the address, whatever it asks, is answered
  -- with the time that is left, and changes nothing.
  pub fifth_failure-locks :
      (first last : Try) (tries : List Try) (now : ℕ)
      (request : Option (Accounts → LoginResult × Accounts)) (st : Accounts)
      → IsWrong st first
      → All (IsWrong st) tries
      → IsWrong st last
      → length tries ≡ 3
      → all (λ a. is_within first.at a.at) tries ≡ true
      → is_within first.at last.at ≡ true
      → now < last.at + login_lockout
      → ((send last (send_all (first ∷ tries) (none, st))).0 ≡ unauthorized)
        × ((send last (send_all (first ∷ tries) (none, st))).1.1 ≡ st)
        × (handle_login now request (send last (send_all (first ∷ tries) (none, st))).1 ≡ (
          too_many_requests (last.at + login_lockout - now),
          (send last (send_all (first ∷ tries) (none, st))).1,
        ))
  unfolding start login_locked send_all
  fifth_failure-locks first last tries now request st w ws wl three h k soon =
      let b : Bucket = record { failures = 1; first_hit = first.at; lock_until = 0 } in
      let four = fail_all (map (λ a. a.at) tries) b in
      let times = all-times first.at tries h in
      let many = length-times tries in
      let (f, e) = fail_all-failures (map (λ a. a.at) tries) b times in
      let open_still : four.lock_until ≡ 0 =
        fail_all-lock (map (λ a. a.at) tries) b times (omega (arith, many, three)) in
      let begun : (send first (none, st)).1 ≡ (some b, st) =
        ap (λ r. r.1) (send-wrong none st first refl w)
        ∙ ap (λ c. (some c, st)) (start-bucket first.at) in
      let state : send_all tries (send first (none, st)).1 ≡ (some four, st) =
        ap (send_all tries) begun ∙ send_all-wrong tries b st refl (omega (arith, three)) h ws in
      let answer : send last (send_all tries (send first (none, st)).1)
          ≡ (unauthorized, (some (record_login_failure last.at (some four)), st)) =
        ap (send last) state
        ∙ send-wrong (some four) st last (zero_lock-unlocked last.at four open_still) wl in
      let within : is_within four.first_hit last.at ≡ true = rw e k in
      let locked =
        last_failure-locks last.at now four within (omega (arith, f, many, three)) soon in
      rw answer
        (refl, refl, handle_login-locked now (last.at + login_lockout - now) request _ st locked)
