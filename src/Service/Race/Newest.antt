-- ===== src/Service/Race/Newest.antt =====
-- Which calls of `Open` can still register a session (internal/services/tesla_session.go).
use airgapp_rpi.Base.{ℕ, ◌+◌, ◌^◌, ◌≤◌, ◌<◌, ◌≡◌, ◌≢◌, refl, true, none, [], ==_iff, All, arith}
use airgapp_rpi.Wire.{u64}
use airgapp_rpi.Service.{Service, new_service, begin_open, revoke, register_session}
use airgapp_rpi.Service.Race.{Thread, System, Reach, here, next}
use airgapp_rpi.Service.Race.Adapter.{total}
use airgapp_rpi.Service.Race.Supersede.{
  is_open, born, Fits, Inv, low-bumps, Step-bumps, Step-Inv, begin-Inv, revoke-Inv, All-map,
}

new-Inv : Inv (record { service = new_service; opens = []; pairing = 0 })
unfolding new_service
new-Inv = record { numbered = refl; fits = tt; unique = λ n. omega arith }

Reach-Inv : {s : System} → Reach s → s.service.bumps < 2 ^ 64 → Inv s
Reach-Inv here l = new-Inv
Reach-Inv (next {s} r st) l =
    let earlier : s.service.bumps < 2 ^ 64 = omega (arith, Step-bumps st) in
    Step-Inv st earlier (Reach-Inv r earlier)

-- The call can not register, whatever id and time it gets.
abbrev pub IsBarred : Service → Thread → Type 0
IsBarred s t = (id now : ℕ) → register_session s t.seq id t.owner now ≡ none

stale-IsBarred :
    (s : Service) (t : Thread)
    → s.open_seq ≡ u64 s.bumps
    → s.bumps < 2 ^ 64
    → t.seq ≡ u64 t.birth
    → t.birth < s.bumps
    → IsBarred s t
unfolding register_session
stale-IsBarred s t e l f b id now =
    ground (arith, ==_iff s.open_seq t.seq, low-bumps t.birth s.bumps)

-- In every state that the goroutines reach, until the counter has gone round once: at most one call
-- of `Open` was born with the last increment of `openSeq`, and every other is refused with
-- `ErrBLEOpenSuperseded` when it comes to register its session.
newest_registers :
    (s : System)
    → Reach s
    → s.service.bumps < 2 ^ 64
    → (total (born s.service.bumps) s.opens ≤ 1)
      × All (λ t. t.birth ≢ s.service.bumps → IsBarred s.service t) s.opens
newest_registers s r l =
    let h = Reach-Inv r l in
    (
      h.unique s.service.bumps,
      All-map (Fits s.service) _
          (λ t f n.
            stale-IsBarred s.service t h.numbered l f.numbered (omega (arith, f.bounded, n)))
          s.opens h.fits,
    )

-- A new `Open` supersedes all before it: in every reachable state, until the counter has gone round
-- once, as soon as its number is drawn none of the calls that there were can register a session,
-- also not one that already has the connection.
begin_open-supersedes :
    (s : System) (owner : ℕ)
    → Reach s
    → s.service.bumps + 1 < 2 ^ 64
    → All (IsBarred (begin_open s.service owner).0) s.opens
unfolding begin_open
begin_open-supersedes s owner r l =
    let h = Reach-Inv r (omega arith) in
    All-map (Fits s.service) _
      (λ t f.
        stale-IsBarred (begin_open s.service owner).0 t (begin-Inv s owner h).numbered l f.numbered
          (omega (arith, f.bounded)))
      s.opens h.fits

revoke-passes :
    (s : Service) (t : Thread) (owner : ℕ)
    → owner ≢ 0
    → Fits s t
    → is_open t.phase ≡ true
    → t.owner ≡ owner
    → t.birth < (revoke s owner).0.bumps
unfolding revoke
revoke-passes s t owner n f a o = ground (arith, f.bounded, f.latest a)

revoke-adds : (s : Service) (owner : ℕ) → (revoke s owner).0.bumps ≤ s.bumps + 1
unfolding revoke
revoke-adds s owner = ground arith

-- Revoking a token in the middle of a connect: in every reachable state, until the counter has gone
-- round once, and for a token id other than 0, once `CloseForToken` has its section under the mutex
-- behind it, no call of `Open` made with this token that has neither failed nor registered can still
-- register.
pub revoke-supersedes :
    (s : System) (owner : ℕ)
    → Reach s
    → s.service.bumps + 1 < 2 ^ 64
    → owner ≢ 0
    → All
        (λ t. is_open t.phase ≡ true → t.owner ≡ owner → IsBarred (revoke s.service owner).0 t)
        s.opens
revoke-supersedes s owner r l n =
    let h = Reach-Inv r (omega arith) in
    All-map (Fits s.service) _
      (λ t f a o.
        stale-IsBarred (revoke s.service owner).0 t (revoke-Inv s owner h).numbered
          (omega (arith, revoke-adds s.service owner)) f.numbered
          (revoke-passes s.service t owner n f a o))
      s.opens h.fits
