-- ===== src/Service/Sessions.antt =====
-- The sessions on the map (internal/services/tesla_session.go): the idle reaper, the revocation of
-- a token's sessions, and the timeout of an exchange.
use airgapp_rpi.Base.{
  ℕ, ◌+◌, ◌-◌, ◌≤◌, ◌<◌, ◌≡◌, ◌≢◌, refl, ap, ◌∙◌, sym, subst, Bool, true, false, none, some, List,
  [], ◌∷◌, map, ◌==◌, ==_iff, if◌then◌else◌, any, keep, All, arith, Bool-cases, Option-cases, inl,
  inr,
}
use airgapp_rpi.Gate.{second}
use airgapp_rpi.Service.{
  Entry, Service, gone, reaped, sleeps, session_ttl, max_timeout, clamp_timeout, close,
  close_quietly, close_each, close_for_token, revoke, get, find_entry, has_id, without_id,
  reaper_round, reap_entry, touch, forget_pending,
}

-- The wait of an exchange is never zero and never longer than the maximum, and a caller's timeout
-- in that range is used as it is.
clamp_timeout-bounds :
    (timeout : ℕ)
    → (0 < clamp_timeout timeout)
      × (clamp_timeout timeout ≤ max_timeout)
      × (0 < timeout → timeout ≤ max_timeout → clamp_timeout timeout ≡ timeout)
unfolding clamp_timeout
clamp_timeout-bounds timeout = (ground arith, ground arith, λ h k. ground arith)

find-without_id : (id : ℕ) (es : List Entry) → find_entry id (without_id id es) ≡ none
find-without_id id [] = refl
find-without_id id (e ∷ es) = ground (arith, find-without_id id es)

without : Service → ℕ → Service
without s id = record s { sessions = without_id id s.sessions; releasing = s.releasing + 1 }

-- A round of the reaper that finds the session idle for its time to live takes it off the map.
round-reaps :
    (s : Service) (id now : ℕ) (e : Entry)
    → get s id ≡ some e
    → e.last_used + session_ttl ≤ now
    → (u : Service) × (reaper_round s id now ≡ reaped u) × (get u id ≡ none)
unfolding reaper_round get without
round-reaps s id now e g l =
    (without s id, rw (g, reap_entry) (ground arith), find-without_id id s.sessions)

sleeps-inv :
    (s : Service) (id now wait : ℕ)
    → reaper_round s id now ≡ sleeps wait
    → (e : Entry) × (get s id ≡ some e) × (e.last_used + session_ttl ≤ now + wait)
unfolding reaper_round
sleeps-inv s id now wait r = elim (Option-cases (get s id)) [
  | inl n ↦ absurd (gone≢sleeps (rw n at r))
  | inr (e, g) ↦ (e, g, entry-wait e (rw g at r))
]
  where
    gone≢sleeps : gone ≢ sleeps wait
    gone≢sleeps q = cc

    entry-wait :
        (e : Entry)
        → reap_entry s id now (some e) ≡ sleeps wait
        → e.last_used + session_ttl ≤ now + wait
    entry-wait e q = ground arith

-- A session that the reaper left alone and nobody has used since is gone when the reaper wakes up:
-- the round after the sleep takes it off the map.
pub idle_session_reaped :
    (s u : Service) (id now later wait : ℕ)
    → reaper_round s id now ≡ sleeps wait
    → get u id ≡ get s id
    → now + wait ≤ later
    → (v : Service) × (reaper_round u id later ≡ reaped v) × (get v id ≡ none)
idle_session_reaped s u id now later wait r g l =
    let (e, f, k) = sleeps-inv s id now wait r in
    round-reaps u id later e (g ∙ f) (omega (arith, k))

find-touch :
    (id used : ℕ) (es : List Entry) (e : Entry)
    → find_entry id es ≡ some e
    → find_entry id (map (λ f. if f.id == id then record f { last_used = used } else f) es)
      ≡ some (record e { last_used = used })
find-touch id used [] e g = cc
find-touch id used (f ∷ es) e g = ground (arith, find-touch id used es e)

-- The reaper takes nothing that was used within the time to live: after a touch of a session on the
-- map, every round before the time to live is over sleeps on, until a second after it is.
touched_session_stays :
    (s : Service) (id used now : ℕ) (e : Entry)
    → get s id ≡ some e
    → now < used + session_ttl
    → reaper_round (touch s id used) id now ≡ sleeps (used + session_ttl - now + second)
unfolding reaper_round get touch
touched_session_stays s id used now e g l =
    rw (find-touch id used s.sessions e g, reap_entry) (ground arith)

abbrev has : ℕ → List ℕ → Bool
has id ids = any (λ i. i == id) ids

abbrev IsListed : ℕ → List ℕ → Entry → Type 0
IsListed owner ids e = e.owner ≡ owner → has e.id ids ≡ true

abbrev without_all : List ℕ → List Entry → List Entry
without_all [] es = es
without_all (id ∷ ids) es = without_all ids (without_id id es)

without-absent : (id : ℕ) (es : List Entry) → has_id id es ≡ false → without_id id es ≡ es
without-absent id [] h = refl
without-absent id (e ∷ es) h = ground (arith, without-absent id es)

close_quietly-sessions :
    (s : Service) (id : ℕ) → (close_quietly s id).sessions ≡ without_id id s.sessions
unfolding close
close_quietly-sessions s id = ground (arith, without-absent id s.sessions)

close_each-sessions :
    (ids : List ℕ) (s : Service) → (close_each s ids).sessions ≡ without_all ids s.sessions
close_each-sessions [] s = refl
close_each-sessions (id ∷ ids) s =
    close_each-sessions ids (close_quietly s id)
    ∙ ap (without_all ids) (close_quietly-sessions s id)

without-IsListed :
    (owner id : ℕ) (ids : List ℕ) (es : List Entry)
    → All (IsListed owner (id ∷ ids)) es
    → All (IsListed owner ids) (without_id id es)
without-IsListed owner id ids [] h = tt
without-IsListed owner id ids (e ∷ es) (p, h) = elim (Bool-cases (e.id == id)) [
  | inl q ↦ rw (q, All, keep) (without-IsListed owner id ids es h)
  | inr q ↦ rw (q, All, keep) (λ o. ground arith, without-IsListed owner id ids es h)
]

none-left :
    (owner : ℕ) (ids : List ℕ) (es : List Entry)
    → All (IsListed owner ids) es
    → All (λ e. e.owner ≢ owner) (without_all ids es)
none-left owner [] [] h = tt
none-left owner [] (e ∷ es) (p, h) = (λ o. ground arith, none-left owner [] es h)
none-left owner (id ∷ ids) es h =
    none-left owner ids (without_id id es) (without-IsListed owner id ids es h)

list-more :
    (owner id : ℕ) (ids : List ℕ) (es : List Entry)
    → All (IsListed owner ids) es
    → All (IsListed owner (id ∷ ids)) es
list-more owner id ids [] h = tt
list-more owner id ids (e ∷ es) (p, h) = (λ o. ground arith, list-more owner id ids es h)

abbrev owned_ids : ℕ → List Entry → List ℕ
owned_ids owner es = map (λ e. e.id) (keep (λ e. e.owner == owner) es)

forget_pending-sessions : (s : Service) (owner : ℕ) → (forget_pending s owner).sessions ≡ s.sessions
forget_pending-sessions s owner = ground arith

owned-IsListed : (owner : ℕ) (es : List Entry) → All (IsListed owner (owned_ids owner es)) es
owned-IsListed owner [] = tt
owned-IsListed owner (e ∷ es) = elim (Bool-cases (e.owner == owner)) [
  | inl q ↦
      subst (λ ids. All (IsListed owner ids) (e ∷ es)) (sym (ap_owned q))
        (λ o. ground arith, list-more owner e.id _ es (owned-IsListed owner es))
  | inr q ↦
      subst (λ ids. All (IsListed owner ids) (e ∷ es)) (sym (skip_owned q))
        (λ o. ground (arith, ==_iff e.owner owner), owned-IsListed owner es)
]
  where
    ap_owned : (e.owner == owner) ≡ true → owned_ids owner (e ∷ es) ≡ e.id ∷ owned_ids owner es
    ap_owned q = ground arith

    skip_owned : (e.owner == owner) ≡ false → owned_ids owner (e ∷ es) ≡ owned_ids owner es
    skip_owned q = ground arith

-- Deleting or revoking a token ends its sessions: after `CloseForToken` with an id other than 0, and
-- with nothing in between its steps, no session on the map belongs to this token.
close_for_token-clears :
    (s : Service) (owner : ℕ)
    → owner ≢ 0
    → All (λ e. e.owner ≢ owner) (close_for_token s owner).sessions
unfolding close_for_token revoke
close_for_token-clears s owner n = elim (Bool-cases (owner == 0)) [
  | inl q ↦ absurd (ground arith)
  | inr q ↦ rw q (
      subst (All (λ e. e.owner ≢ owner))
        (sym (close_each-sessions (owned_ids owner s.sessions) (forget_pending s owner)))
        (none-left owner (owned_ids owner s.sessions) (forget_pending s owner).sessions
          (rw (forget_pending-sessions s owner) (owned-IsListed owner s.sessions))))
]
