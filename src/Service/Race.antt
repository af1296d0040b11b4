-- ===== src/Service/Race.antt =====
-- The goroutines of `Open`, `Close`, the reaper, `CloseForToken` and of the pairing, which takes the
-- same lock, in any interleaving.
pub mod Adapter
pub mod Supersede
pub mod Newest
use airgapp_rpi.Base.{
  ℕ, zero, suc, ◌+◌, ◌-◌, ◌*◌, ◌%◌, ◌^◌, ◌≤◌, ◌<◌, ◌≡◌, ◌≢◌, refl, ap, ◌∙◌, sym, Bool, true, false,
  not, ◌&&◌, Option, none, some, List, [], ◌∷◌, ◌++◌, map, ltb, leb, ◌==◌, ==_iff, if◌then◌else◌,
  any, keep, length, All, arith, Bool-cases, Option-cases, inl, inr, ◌↔◌,
}
use airgapp_rpi.Wire.{u64}
use airgapp_rpi.Service.{
  Entry, Service, new_service, unlock, try_lock, begin_open, end_open, has_id, without_id, close,
  session_ids, close_quietly, revoke, register_session, forget_pending,
}

-- Where an `Open` stands. While it preempts, it has the ids still to close.
pub data Phase : Type 0 where
  begun waiting holding finishing over : Phase
  preempting : List ℕ → Phase

pub record Thread : Type 0 where
  pub phase : Phase
  pub owner : ℕ
  pub seq : ℕ
  pub birth : ℕ

-- The service, the calls of `Open` so far, and the calls of `sendUnauthenticated` that have the
-- adapter.
pub record System : Type 0 where
  pub service : Service
  pub pairing : ℕ
  pub opens : List Thread

pub data Step (s : System) : System → Type 0 where
  begin :
      (owner : ℕ)
      → Step s (record s {
        service = (begin_open s.service owner).0;
        opens =
            record {
              phase = begun;
              owner = owner;
              seq = (begin_open s.service owner).1;
              birth = s.service.bumps + 1;
            }
            ∷ s.opens;
      })
  snapshot :
      (before after : List Thread) (t : Thread)
      → s.opens ≡ before ++ t ∷ after
      → t.phase ≡ begun
      → Step s (record s {
        opens = before ++ record t { phase = preempting (session_ids s.service) } ∷ after;
      })
  preempt :
      (before after : List Thread) (t : Thread) (id : ℕ) (ids : List ℕ)
      → s.opens ≡ before ++ t ∷ after
      → t.phase ≡ preempting (id ∷ ids)
      → Step s (record s {
        service = close_quietly s.service id;
        opens = before ++ record t { phase = preempting ids } ∷ after;
      })
  preempted :
      (before after : List Thread) (t : Thread)
      → s.opens ≡ before ++ t ∷ after
      → t.phase ≡ preempting []
      → Step s (record s { opens = before ++ record t { phase = waiting } ∷ after })
  -- `bleMu.Lock` succeeds.
  lock :
      (before after : List Thread) (t : Thread) (u : Service)
      → s.opens ≡ before ++ t ∷ after
      → t.phase ≡ waiting
      → try_lock s.service ≡ some u
      → Step s (record s { service = u; opens = before ++ record t { phase = holding } ∷ after })
  -- The context ends, or the adapter cannot be set up.
  give_up :
      (before after : List Thread) (t : Thread)
      → s.opens ≡ before ++ t ∷ after
      → t.phase ≡ waiting
      → Step s (record s { opens = before ++ record t { phase = finishing } ∷ after })
  -- The scan, the connection or the random id fails, and the lock is released.
  fail :
      (before after : List Thread) (t : Thread) (u : Service)
      → s.opens ≡ before ++ t ∷ after
      → t.phase ≡ holding
      → unlock s.service ≡ some u
      → Step s (record s { service = u; opens = before ++ record t { phase = finishing } ∷ after })
  -- The id, 16 random bytes, is taken to be none that is on the map.
  register :
      (before after : List Thread) (t : Thread) (u : Service) (id now : ℕ)
      → s.opens ≡ before ++ t ∷ after
      → t.phase ≡ holding
      → has_id id s.service.sessions ≡ false
      → register_session s.service t.seq id t.owner now ≡ some u
      → Step s (record s { service = u; opens = before ++ record t { phase = finishing } ∷ after })
  back_out :
      (before after : List Thread) (t : Thread) (u : Service) (id now : ℕ)
      → s.opens ≡ before ++ t ∷ after
      → t.phase ≡ holding
      → register_session s.service t.seq id t.owner now ≡ none
      → unlock s.service ≡ some u
      → Step s (record s { service = u; opens = before ++ record t { phase = finishing } ∷ after })
  end :
      (before after : List Thread) (t : Thread)
      → s.opens ≡ before ++ t ∷ after
      → t.phase ≡ finishing
      → Step s (record s {
        service = end_open s.service t.seq;
        opens = before ++ record t { phase = over } ∷ after;
      })
  -- A client, the reaper or `CloseForToken` takes a session off the map.
  close_one :
      (u : Service) (id : ℕ) → close s.service id ≡ some u → Step s (record s { service = u })
  -- The release of a session taken off the map.
  release :
      (u : Service)
      → 0 < s.service.releasing
      → unlock s.service ≡ some u
      → Step s (record s { service = record u { releasing = u.releasing - 1 } })
  revoke_token : (owner : ℕ) → Step s (record s { service = (revoke s.service owner).0 })
  -- `sendUnauthenticated` of tesla.go gets the adapter to pair a key, and gives it back.
  pair :
      (u : Service)
      → try_lock s.service ≡ some u
      → Step s (record s { service = u; pairing = s.pairing + 1 })
  unpair :
      (u : Service)
      → 0 < s.pairing
      → unlock s.service ≡ some u
      → Step s (record s { service = u; pairing = s.pairing - 1 })

pub data Reach : System → Type 0 where
  here : Reach (record { service = new_service; opens = []; pairing = 0 })
  next : {s t : System} → Reach s → Step s t → Reach t
