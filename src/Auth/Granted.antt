-- ===== src/Auth/Granted.antt =====
-- Where a session of internal/services/auth.go comes from.
use airgapp_rpi.Base.{
  ℕ, ◌+◌, ◌≤◌, ◌≡◌, refl, sym, ap, subst, ◌∙◌, Bool, not, Option, none, some, List, [], ◌∷◌, ◌++◌,
  append_assoc, append-nil, any, All, arith, ltb, ◌==◌, Option-cases, Bool-cases, inl, inr, ◌⊎◌,
}
use airgapp_rpi.Base.Lists.{keep-All}
use airgapp_rpi.Base.Text.{Text, str_eq, str_eq-eq}
use airgapp_rpi.Auth.{
  day, User, Session, Accounts, granted, find_user, find_session, delete_session, create_user,
  reset_password, login, validate_session, logout, clean_expired_sessions,
}

pub data Op : Type 0 where
  create reset : Text → Text → Op
  enter : ℕ → Text → Text → Text → Op
  validate : ℕ → Text → Op
  leave : Text → Op
  clean : ℕ → Op

abbrev pub or_as_it_was : Option Accounts → Accounts → Accounts
or_as_it_was none st = st
or_as_it_was (some new) st = new

module _ (hash : Text → Option Text) (matches : Text → Text → Bool) where
  unfoldable pub step : Op → Accounts → Accounts
  step (create username password) st =
      or_as_it_was (create_user hash matches username password st) st
  step (reset username password) st =
      or_as_it_was (reset_password hash matches username password st) st
  step (enter now username password token) st =
      (login hash matches now username password token st).1
  step (validate now token) st = (validate_session now token st).1
  step (leave token) st = logout token st
  step (clean now) st = clean_expired_sessions now st

  unfoldable pub run : List Op → Accounts → Accounts
  run [] st = st
  run (op ∷ ops) st = run ops (step op st)

  -- An accepted login among the operations that made the session.
  pub record IsGranted (start : Accounts) (ops : List Op) (token : Text) (expires_at : ℕ)
      : Type 0 where
    pub before : List Op
    pub behind : List Op
    pub at_time : ℕ
    pub username : Text
    pub password : Text
    pub among : ops ≡ before ++ enter at_time username password token ∷ behind
    pub accepted :
        (login hash matches at_time username password token (run before start)).0 ≡ granted token
    pub lasts : expires_at ≡ at_time + day

  run-snoc :
      (ops : List Op) (op : Op) (st : Accounts) → run (ops ++ op ∷ []) st ≡ step op (run ops st)
  unfolding run
  run-snoc [] op st = refl
  run-snoc (o ∷ ops) op st = run-snoc ops op (step o st)

  module _ (start : Accounts) where
    Origin : List Op → Session → Type 0
    Origin ops s = IsGranted start ops s.token s.expires_at

    later-Origin :
        (ops : List Op) (op : Op) (s : Session) → Origin ops s → Origin (ops ++ op ∷ []) s
    unfolding Origin
    later-Origin ops op s o = record {
      before = o.before;
      behind = o.behind ++ op ∷ [];
      at_time = o.at_time;
      username = o.username;
      password = o.password;
      among =
          ap (λ xs. xs ++ op ∷ []) o.among
          ∙ append_assoc o.before (enter o.at_time o.username o.password s.token ∷ o.behind)
              (op ∷ []);
      accepted = o.accepted;
      lasts = o.lasts;
    }

    later_ones :
        (ops : List Op) (op : Op) (ss : List Session)
        → All (Origin ops) ss
        → All (Origin (ops ++ op ∷ [])) ss
    later_ones ops op [] h = tt
    later_ones ops op (s ∷ ss) (o, h) = (later-Origin ops op s o, later_ones ops op ss h)

    delete-Origin :
        (ops : List Op) (token : Text) (ss : List Session)
        → All (Origin ops) ss
        → All (Origin ops) (delete_session token ss)
    unfolding delete_session
    delete-Origin ops token [] h = tt
    delete-Origin ops token (s ∷ ss) (o, h) = elim (Bool-cases (str_eq s.token token)) [
      | inl e ↦ rw e (delete-Origin ops token ss h)
      | inr e ↦ rw e (o, delete-Origin ops token ss h)
    ]

    -- What each operation does to the sessions.
    create-sessions :
        (username password : Text) (st : Accounts)
        → (or_as_it_was (create_user hash matches username password st) st).sessions ≡ st.sessions
    unfolding create_user
    create-sessions username password st = elim (Option-cases (hash password)) [
      | inl e ↦ ground (arith, e)
      | inr (hashed, e) ↦ ground (arith, e)
    ]

    reset-sessions :
        (username password : Text) (st : Accounts)
        → (or_as_it_was (reset_password hash matches username password st) st).sessions
          ≡ st.sessions
    unfolding reset_password
    reset-sessions username password st = elim (Option-cases (hash password)) [
      | inl e ↦ ground (arith, e)
      | inr (hashed, e) ↦ ground (arith, e)
    ]

    login-sessions :
        (now : ℕ) (username password token : Text) (st : Accounts)
        → ((login hash matches now username password token st).1 ≡ st)
          ⊎ (((login hash matches now username password token st).0 ≡ granted token)
              × (id : ℕ) × ((login hash matches now username password token st).1.sessions
                  ≡ record { token = token; user_id = id; expires_at = now + day } ∷ st.sessions))
    unfolding login
    login-sessions now username password token st =
        elim (Option-cases (find_user (λ u. str_eq u.username username) st.users)) [
          | inl e ↦ inl (rw (e, login) refl)
          | inr (u, e) ↦ elim (Bool-cases (matches u.password_hash password)) [
            | inr m ↦ inl (rw (e, m, login) refl)
            | inl m ↦ elim (Bool-cases (any (λ s. str_eq s.token token) st.sessions)) [
              | inl t ↦ inl (rw (e, m, t, login) refl)
              | inr t ↦ inr (rw (e, m, t, login) (refl, u.id, refl))
            ]
          ]
        ]

    validate-sessions :
        (now : ℕ) (token : Text) (st : Accounts)
        → ((validate_session now token st).1.sessions ≡ st.sessions)
          ⊎ ((validate_session now token st).1.sessions ≡ delete_session token st.sessions)
    unfolding validate_session
    validate-sessions now token st = elim (Option-cases (find_session token st.sessions)) [
      | inl e ↦ inl (rw (e, validate_session) refl)
      | inr (s, e) ↦ elim (Option-cases (find_user (λ u. u.id == s.user_id) st.users)) [
        | inl u ↦ inl (rw (e, u, validate_session) refl)
        | inr (user, u) ↦ elim (Bool-cases (ltb s.expires_at now)) [
          | inl x ↦ inr (rw (e, u, x, validate_session) refl)
          | inr x ↦ inl (rw (e, u, x, validate_session) refl)
        ]
      ]
    ]

    own-Origin :
        (ops : List Op) (now : ℕ) (username password token : Text) (id : ℕ)
        → (login hash matches now username password token (run ops start)).0 ≡ granted token
        → Origin
            (ops ++ enter now username password token ∷ [])
            (record { token = token; user_id = id; expires_at = now + day })
    unfolding Origin
    own-Origin ops now username password token id ok = record {
      before = ops;
      behind = [];
      at_time = now;
      username = username;
      password = password;
      among = refl;
      accepted = ok;
      lasts = refl;
    }

    step-Origin :
        (ops : List Op) (op : Op)
        → All (Origin ops) (run ops start).sessions
        → All (Origin (ops ++ op ∷ [])) (step op (run ops start)).sessions
    unfolding step logout clean_expired_sessions
    step-Origin ops (create username password) h =
        rw (create-sessions username password (run ops start))
          (later_ones ops (create username password) _ h)
    step-Origin ops (reset username password) h =
        rw (reset-sessions username password (run ops start))
          (later_ones ops (reset username password) _ h)
    step-Origin ops (enter now username password token) h =
        let st = run ops start in
        let kept = later_ones ops (enter now username password token) st.sessions h in
        elim (login-sessions now username password token st) [
          | inl same ↦ rw same kept
          | inr (ok, id, grown) ↦ rw grown (own-Origin ops now username password token id ok, kept)
        ]
    step-Origin ops (validate now token) h =
        let st = run ops start in
        elim (validate-sessions now token st) [
          | inl same ↦ rw same (later_ones ops (validate now token) st.sessions h)
          | inr less ↦ rw less (
              later_ones ops (validate now token) (delete_session token st.sessions)
                (delete-Origin ops token st.sessions h))
        ]
    step-Origin ops (leave token) h =
        later_ones ops (leave token) _ (delete-Origin ops token (run ops start).sessions h)
    step-Origin ops (clean now) h =
        later_ones ops (clean now) _
          (keep-All (Origin ops) (λ s. not (ltb s.expires_at now)) (run ops start).sessions h)

    run-Origin :
        (before rest : List Op)
        → All (Origin before) (run before start).sessions
        → All (Origin (before ++ rest)) (run (before ++ rest) start).sessions
    run-Origin before [] h =
        subst (λ ops. All (Origin ops) (run ops start).sessions) (sym (append-nil before)) h
    run-Origin before (op ∷ rest) h =
        subst (λ ops. All (Origin ops) (run ops start).sessions)
          (append_assoc before (op ∷ []) rest)
          (run-Origin (before ++ op ∷ []) rest
            (rw (run-snoc before op start) (step-Origin before op h)))

    found-Origin :
        (ops : List Op) (token : Text) (s : Session) (ss : List Session)
        → All (Origin ops) ss
        → find_session token ss ≡ some s
        → IsGranted start ops token s.expires_at
    unfolding Origin
    found-Origin ops token s [] h e = absurd cc
    found-Origin ops token s (x ∷ ss) (o, h) e = elim (Bool-cases (str_eq x.token token)) [
      | inl q ↦
          let same : x ≡ s = ground arith in
          subst (IsGranted start ops token) (ap (λ y. y.expires_at) same)
            (subst (λ t. IsGranted start ops t x.expires_at) (str_eq-eq x.token token q) o)
      | inr q ↦ found-Origin ops token s ss h (ground arith)
    ]

    validated-session :
        (now : ℕ) (token : Text) (st : Accounts) (user : User)
        → (validate_session now token st).0 ≡ some user
        → (s : Session) × (find_session token st.sessions ≡ some s) × (now ≤ s.expires_at)
    unfolding validate_session
    validated-session now token st user h = elim (Option-cases (find_session token st.sessions)) [
      | inl e ↦ absurd (ground (arith, e))
      | inr (s, e) ↦ (s, e, ground (arith, e))
    ]

  -- Whatever is called, in any order, from tables without sessions: a token that `ValidateSession`
  -- accepts was handed out by an accepted login before, at most 24 hours ago.
  pub validate_session-IsGranted :
      (start : Accounts) (ops : List Op) (now : ℕ) (token : Text) (user : User)
      → start.sessions ≡ []
      → (validate_session now token (run ops start)).0 ≡ some user
      → (expires_at : ℕ) × IsGranted start ops token expires_at × (now ≤ expires_at)
  unfolding run
  validate_session-IsGranted start ops now token user none_yet h =
      let (s, found, fresh) = validated-session start now token (run ops start) user h in
      let nothing : All (Origin start []) start.sessions =
        subst (All (Origin start [])) (sym none_yet) tt in
      let all_origin = run-Origin start [] ops nothing in
      (
        s.expires_at,
        found-Origin start ops token s (run ops start).sessions all_origin found,
        fresh,
      )
