-- ===== src/Service/Race/Adapter.antt =====
-- One user of the adapter at a time, in every interleaving.
use airgapp_rpi.Base.{
  ℕ, ◌+◌, ◌-◌, ◌≤◌, ◌<◌, ◌≡◌, refl, ap, Bool, true, false, some, List, [], ◌∷◌, ◌++◌, length, arith,
  Option-cases, inl, inr, ◌↔◌,
}
use airgapp_rpi.Service.{
  Entry, Service, new_service, unlock, try_lock, begin_open, end_open, has_id, without_id, close,
  session_ids, close_quietly, revoke, register_session,
}
use airgapp_rpi.Service.Race.{
  Phase, waiting, holding, finishing, over, preempting, Thread, System, Step, begin, snapshot,
  preempt, preempted, lock, give_up, fail, register, back_out, end, close_one, release,
  revoke_token, pair, unpair, Reach, here, next,
}

abbrev pub has_adapter : Thread → ℕ
has_adapter t = elim t.phase [ holding ↦ 1 | _ ↦ 0 ]

abbrev pub total : (Thread → ℕ) → List Thread → ℕ
total f [] = 0
total f (t ∷ ts) = f t + total f ts

-- Who has the adapter: sessions on the map, sessions whose release is to run, calls of `Open`, and
-- pairings.
abbrev pub holders : System → ℕ
holders s =
    length s.service.sessions + s.service.releasing + (total has_adapter s.opens + s.pairing)

abbrev slot_count : Bool → ℕ
slot_count true = 1
slot_count false = 0

abbrev Balanced : System → Type 0
Balanced s = holders s ≡ slot_count s.service.slot

pub total-append :
    (f : Thread → ℕ) (xs ys : List Thread) → total f (xs ++ ys) ≡ total f xs + total f ys
total-append f [] ys = omega arith
total-append f (x ∷ xs) ys = omega (arith, total-append f xs ys)

-- The sum before and after the thread in the middle changes.
pub total-middle :
    (f : Thread → ℕ) (before after : List Thread) (t u : Thread) (ts : List Thread)
    → ts ≡ before ++ t ∷ after
    → total f (before ++ u ∷ after) + f t ≡ total f ts + f u
total-middle f before after t u ts e =
    omega
      (arith, total-append f before (u ∷ after), total-append f before (t ∷ after), ap (total f) e)

abbrev Weighs : Service → ℕ → Type 0
Weighs s held = length s.sessions + s.releasing + held ≡ slot_count s.slot

slot_count-le : (b : Bool) → slot_count b ≤ 1
slot_count-le true = omega arith
slot_count-le false = omega arith

without_id-lone :
    (id : ℕ) (es : List Entry)
    → has_id id es ≡ true
    → length es ≤ 1
    → (length es ≡ 1) × (length (without_id id es) ≡ 0)
without_id-lone id [] h k = cc
without_id-lone id (e ∷ []) h k = (refl, ground arith)
without_id-lone id (e ∷ f ∷ es) h k = absurd (omega arith)

close-Weighs : (s u : Service) (id held : ℕ) → close s id ≡ some u → Weighs s held → Weighs u held
unfolding close
close-Weighs s u id held e h = ground (arith, without_id-lone id s.sessions, slot_count-le s.slot)

close_quietly-Weighs :
    (s : Service) (id held : ℕ) → Weighs s held → Weighs (close_quietly s id) held
close_quietly-Weighs s id held h = elim (Option-cases (close s id)) [
  | inl q ↦ rw (q, close_quietly) h
  | inr (u, q) ↦ rw (q, close_quietly) (close-Weighs s u id held q h)
]

try_lock-Weighs :
    (s u : Service) (held : ℕ) → try_lock s ≡ some u → Weighs s held → Weighs u (held + 1)
unfolding try_lock
try_lock-Weighs s u held e h = ground arith

unlock-Weighs : (s u : Service) (held : ℕ) → unlock s ≡ some u → Weighs s (held + 1) → Weighs u held
unfolding unlock
unlock-Weighs s u held e h = ground arith

register-Weighs :
    (s u : Service) (seq id owner now held : ℕ)
    → register_session s seq id owner now ≡ some u
    → Weighs s (held + 1)
    → Weighs u held
unfolding register_session
register-Weighs s u seq id owner now held e h = ground arith

release-Weighs :
    (s u : Service) (held : ℕ)
    → 0 < s.releasing
    → unlock s ≡ some u
    → Weighs s held
    → Weighs (record u { releasing = u.releasing - 1 }) held
unfolding unlock
release-Weighs s u held p e h = ground arith

end_open-Weighs : (s : Service) (seq held : ℕ) → Weighs s held → Weighs (end_open s seq) held
unfolding end_open
end_open-Weighs s seq held h = ground arith

revoke-Weighs : (s : Service) (owner held : ℕ) → Weighs s held → Weighs (revoke s owner).0 held
unfolding revoke
revoke-Weighs s owner held h = ground arith

module _ (ts before after : List Thread) (t : Thread) (e : ts ≡ before ++ t ∷ after) where
  -- What the calls of `Open` hold after one of them goes to another phase.
  held-eq :
      (p : Phase)
      → total has_adapter (before ++ record t { phase = p } ∷ after) + has_adapter t
        ≡ total has_adapter ts + has_adapter (record t { phase = p })
  held-eq p = total-middle has_adapter before after t (record t { phase = p }) ts e

fewer :
    (others : ℕ) (ts before after : List Thread) (t : Thread)
    → ts ≡ before ++ t ∷ after
    → t.phase ≡ holding
    → total has_adapter (before ++ record t { phase = finishing } ∷ after) + others + 1
      ≡ total has_adapter ts + others
fewer others ts before after t e p = ground (arith, held-eq ts before after t e finishing)

Step-Balanced : {s t : System} → Step s t → Balanced s → Balanced t
Step-Balanced (begin owner) h = unfold begin_open in omega arith
Step-Balanced {s} (snapshot before after t e p) h =
    ground (arith, held-eq s.opens before after t e (preempting (session_ids s.service)))
Step-Balanced {s} (preempt before after t id ids e p) h =
    let same : total has_adapter (before ++ record t { phase = preempting ids } ∷ after)
        ≡ total has_adapter s.opens =
      ground (arith, held-eq s.opens before after t e (preempting ids)) in
    close_quietly-Weighs s.service id _ (rw same h)
Step-Balanced {s} (preempted before after t e p) h =
    ground (arith, held-eq s.opens before after t e waiting)
Step-Balanced {s} (lock before after t u e p q) h =
    let more : total has_adapter (before ++ record t { phase = holding } ∷ after) + s.pairing
        ≡ total has_adapter s.opens + s.pairing + 1 =
      ground (arith, held-eq s.opens before after t e holding) in
    rw more (try_lock-Weighs s.service u (total has_adapter s.opens + s.pairing) q h)
Step-Balanced {s} (give_up before after t e p) h =
    ground (arith, held-eq s.opens before after t e finishing)
Step-Balanced {s} (fail before after t u e p q) h =
    unlock-Weighs s.service u _ q (rw (fewer s.pairing s.opens before after t e p) h)
Step-Balanced {s} (register before after t u id now e p f q) h =
    register-Weighs s.service u t.seq id t.owner now _ q
      (rw (fewer s.pairing s.opens before after t e p) h)
Step-Balanced {s} (back_out before after t u id now e p f q) h =
    unlock-Weighs s.service u _ q (rw (fewer s.pairing s.opens before after t e p) h)
Step-Balanced {s} (end before after t e p) h =
    let same : total has_adapter (before ++ record t { phase = over } ∷ after)
        ≡ total has_adapter s.opens =
      ground (arith, held-eq s.opens before after t e over) in
    end_open-Weighs s.service t.seq _ (rw same h)
Step-Balanced {s} (close_one u id e) h = close-Weighs s.service u id _ e h
Step-Balanced {s} (release u p q) h = release-Weighs s.service u _ p q h
Step-Balanced {s} (pair u q) h =
    let more : total has_adapter s.opens + (s.pairing + 1)
        ≡ total has_adapter s.opens + s.pairing + 1 =
      omega arith in
    rw more (try_lock-Weighs s.service u (total has_adapter s.opens + s.pairing) q h)
Step-Balanced {s} (unpair u p q) h =
    let one : total has_adapter s.opens + (s.pairing - 1) + 1
        ≡ total has_adapter s.opens + s.pairing =
      omega arith in
    unlock-Weighs s.service u (total has_adapter s.opens + (s.pairing - 1)) q (rw one h)
Step-Balanced {s} (revoke_token owner) h = revoke-Weighs s.service owner _ h

Reach-Balanced : {s : System} → Reach s → Balanced s
Reach-Balanced here = unfold new_service in omega arith
Reach-Balanced (next r st) = Step-Balanced st (Reach-Balanced r)

slot_count-holds : (b : Bool) (n : ℕ) → n ≡ slot_count b → (n ≤ 1) × ((b ≡ true) ↔ (n ≡ 1))
slot_count-holds b n h = (ground arith, (λ e. ground arith, λ e. ground arith))

-- Whatever the interleaving: at most one session is on the map, and the adapter has at most one
-- user among the sessions on the map, those taken off it but not yet released, the calls of `Open`
-- that have it, and the calls of `sendUnauthenticated` that have it to pair a key; and the lock is
-- held exactly while there is one.
pub adapter_exclusive :
    (s : System)
    → Reach s
    → (holders s ≤ 1)
      × (length s.service.sessions ≤ 1)
      × ((s.service.slot ≡ true) ↔ (holders s ≡ 1))
adapter_exclusive s r =
    let (few, held) = slot_count-holds s.service.slot (holders s) (Reach-Balanced r) in
    (few, omega arith, held)

-- `Unlock` never panics: whenever a call of `Open` or a pairing has the adapter, or a session taken
-- off the map is still to be released, there is a lock to release.
unlock_safe :
    (s : System)
    → Reach s
    → 0 < s.service.releasing + (total has_adapter s.opens + s.pairing)
    → unlock s.service ≡ some (record (s.service) { slot = false })
unfolding unlock
unlock_safe s r h = ground (arith, slot_count-holds s.service.slot (holders s) (Reach-Balanced r))
