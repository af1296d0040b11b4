-- ===== src/Service.antt =====
-- internal/services/tesla_session.go, `BLESessionService`, with the adapter lock of
-- internal/services/tesla.go. Each operation below is one section under `s.mu`; Race puts them
-- together into the goroutines of `Open`, `Close` and `CloseForToken`, in any interleaving.
--
-- `slot` is the channel of `bleLock`: full while someone holds the adapter. `pendingCancel` is kept
-- as whether it is nil: that a context is cancelled shows only in when a waiting `Open` gives up.
-- `bumps` counts how often `openSeq` went up; the program has no such field.
pub mod Sessions
pub mod Race
mod Tests
use airgapp_rpi.Base.{
  ℕ, ◌+◌, ◌-◌, ◌*◌, ◌%◌, ◌^◌, Bool, true, false, not, ◌&&◌, Option, none, some, List, [], ◌∷◌, map,
  ltb, leb, ◌==◌, if◌then◌else◌, any, keep,
}
use airgapp_rpi.Base.Text.{Text}
use airgapp_rpi.Gate.{second, minute}
use airgapp_rpi.Wire.{u64}

abbrev pub session_ttl : ℕ
session_ttl = 5 * minute

abbrev pub default_timeout : ℕ
default_timeout = 5 * second

abbrev pub max_timeout : ℕ
max_timeout = 30 * second

-- The first lines of `Exchange`; a timeout of 0 stands for every value that is not positive.
unfoldable pub clamp_timeout : ℕ → ℕ
clamp_timeout timeout =
    let t = if timeout == 0 then default_timeout else timeout in
    if ltb max_timeout t then max_timeout else t

-- What the map holds of an `internalSession`.
pub record Entry : Type 0 where
  pub id : ℕ
  pub owner : ℕ
  pub last_used : ℕ

pub record Service : Type 0 where
  pub sessions : List Entry
  pub open_seq : ℕ
  pub pending : Bool
  pub pending_owner : ℕ
  pub slot : Bool
  pub releasing : ℕ
  pub bumps : ℕ

-- `NewBLESessionService`
unfoldable pub new_service : Service
new_service = record {
  sessions = [];
  open_seq = 0;
  pending = false;
  pending_owner = 0;
  slot = false;
  releasing = 0;
  bumps = 0;
}

-- `Unlock`: `none` is the panic of unlocking what is not locked.
unfoldable pub unlock : Service → Option Service
unlock s = if s.slot then some (record s { slot = false }) else none

-- `Lock` where the channel has room.
unfoldable pub try_lock : Service → Option Service
try_lock s = if s.slot then none else some (record s { slot = true })

unfoldable pub begin_open : Service → ℕ → Service × ℕ
begin_open s owner =
    let seq = u64 (s.open_seq + 1) in
    (record s { open_seq = seq; pending = true; pending_owner = owner; bumps = s.bumps + 1 }, seq)

unfoldable pub end_open : Service → ℕ → Service
end_open s seq = if s.open_seq == seq then record s { pending = false; pending_owner = 0 } else s

abbrev pub has_id : ℕ → List Entry → Bool
has_id id es = any (λ e. e.id == id) es

abbrev pub without_id : ℕ → List Entry → List Entry
without_id id es = keep (λ e. not (e.id == id)) es

abbrev pub find_entry : ℕ → List Entry → Option Entry
find_entry id [] = none
find_entry id (e ∷ es) = if e.id == id then some e else find_entry id es

unfoldable pub get : Service → ℕ → Option Entry
get s id = find_entry id s.sessions

-- The locked part of `Close`: the session leaves the map, and its release is still to run.
unfoldable pub close : Service → ℕ → Option Service
close s id =
    if has_id id s.sessions
    then some (record s { sessions = without_id id s.sessions; releasing = s.releasing + 1 })
    else none

-- The snapshot of `preemptExisting`.
abbrev pub session_ids : Service → List ℕ
session_ids s = map (λ e. e.id) s.sessions

-- `Close`, where `ErrBLESessionNotFound` is dropped.
abbrev pub close_quietly : Service → ℕ → Service
close_quietly s id = elim (close s id) [ none ↦ s | some s' ↦ s' ]

abbrev pub close_each : Service → List ℕ → Service
close_each s [] = s
close_each s (id ∷ ids) = close_each (close_quietly s id) ids

-- The locked part of `CloseForToken`: the pending `Open` of this owner is superseded, and the ids
-- of its sessions are taken.
abbrev forget_pending : Service → ℕ → Service
forget_pending s owner =
    if s.pending && (s.pending_owner == owner)
    then record s {
      pending = false;
      pending_owner = 0;
      open_seq = u64 (s.open_seq + 1);
      bumps = s.bumps + 1;
    }
    else s

unfoldable pub revoke : Service → ℕ → Service × List ℕ
revoke s owner =
    if owner == 0
    then (s, [])
    else (forget_pending s owner, map (λ e. e.id) (keep (λ e. e.owner == owner) s.sessions))

-- `CloseForToken` with nothing in between: the state it leaves.
unfoldable pub close_for_token : Service → ℕ → Service
unfolding revoke close
close_for_token s owner = let (s', ids) = revoke s owner in close_each s' ids

-- The locked part at the end of `Open`: `none` is `ErrBLEOpenSuperseded`.
unfoldable pub register_session : Service → ℕ → ℕ → ℕ → ℕ → Option Service
register_session s seq id owner now =
    if not (s.open_seq == seq)
    then none
    else some
        (record s { sessions = record { id = id; owner = owner; last_used = now } ∷ s.sessions })

-- `CurrentSession`
unfoldable pub current_session : Service → Option ℕ
current_session s = elim s.sessions [ [] ↦ none | e ∷ es ↦ some e.id ]

unfoldable pub touch : Service → ℕ → ℕ → Service
touch s id now = record s {
  sessions = map (λ e. if e.id == id then record e { last_used = now } else e) s.sessions;
}

-- One round of `reaper`: the session is gone, it is reaped, or the reaper sleeps.
pub data Reaped : Type 0 where
  gone : Reaped
  reaped : Service → Reaped
  sleeps : ℕ → Reaped

abbrev reap_entry : Service → ℕ → ℕ → Option Entry → Reaped
reap_entry s id now none = gone
reap_entry s id now (some e) =
    if leb (e.last_used + session_ttl) now
    then reaped (record s { sessions = without_id id s.sessions; releasing = s.releasing + 1 })
    else sleeps (e.last_used + session_ttl - now + second)

unfoldable pub reaper_round : Service → ℕ → ℕ → Reaped
unfolding get
reaper_round s id now = reap_entry s id now (get s id)
