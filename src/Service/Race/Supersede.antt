-- ===== src/Service/Race/Supersede.antt =====
-- Of all calls of `Open` in flight only the latest can still register its session, and none can
-- whose token has been revoked.
use airgapp_rpi.Base.{
  ℕ, ◌+◌, ◌^◌, ◌≤◌, ◌<◌, ◌≡◌, refl, ap, Bool, true, false, ◌&&◌, some, List, [], ◌∷◌, ◌++◌, ◌==◌,
  if◌then◌else◌, All, arith, Bool-cases, Option-cases, inl, inr,
}
use airgapp_rpi.Wire.{u64}
use airgapp_rpi.Service.{
  Service, unlock, try_lock, begin_open, end_open, close, session_ids, close_quietly, revoke,
  register_session, forget_pending,
}
use airgapp_rpi.Service.Race.{
  Phase, begun, waiting, holding, finishing, over, preempting, Thread, System, Step, begin,
  snapshot, preempt, preempted, lock, give_up, fail, register, back_out, end, close_one, release,
  revoke_token, pair, unpair,
}
use airgapp_rpi.Service.Race.Adapter.{total, total-append, total-middle}

-- The call is in flight, and has neither failed nor registered.
abbrev pub is_open : Phase → Bool
is_open finishing = false
is_open over = false
is_open _ = true

abbrev pub born : ℕ → Thread → ℕ
born n t = if t.birth == n then 1 else 0

pub record Fits (s : Service) (t : Thread) : Type 0 where
  pub numbered : t.seq ≡ u64 t.birth
  pub bounded : t.birth ≤ s.bumps
  pub latest :
      is_open t.phase ≡ true → t.birth ≡ s.bumps → (s.pending ≡ true) × (s.pending_owner ≡ t.owner)

pub record Inv (s : System) : Type 0 where
  pub numbered : s.service.open_seq ≡ u64 s.service.bumps
  pub fits : All (Fits s.service) s.opens
  pub unique : (n : ℕ) → total (born n) s.opens ≤ 1

pub All-map {ℓ κ} :
    {A : Type ℓ} (P Q : A → Type κ) → ((x : A) → P x → Q x) → (xs : List A) → All P xs → All Q xs
All-map P Q f [] h = tt
All-map P Q f (x ∷ xs) (p, h) = (f x p, All-map P Q f xs h)

All-middle {ℓ κ} :
    {A : Type ℓ} (P : A → Type κ) (before after : List A) (x y : A)
    → All P (before ++ x ∷ after)
    → (P x → P y)
    → All P (before ++ y ∷ after)
All-middle P [] after x y (p, h) f = (f p, h)
All-middle P (b ∷ before) after x y (p, h) f = (p, All-middle P before after x y h f)

All-at {ℓ κ} :
    {A : Type ℓ} (P : A → Type κ) (before after : List A) (x : A)
    → All P (before ++ x ∷ after)
    → P x
All-at P [] after x (p, h) = p
All-at P (b ∷ before) after x (p, h) = All-at P before after x h

-- The two services agree in what the numbers of the calls depend on.
abbrev Same : Service → Service → Type 0
Same s u =
    (u.open_seq ≡ s.open_seq)
    × (u.bumps ≡ s.bumps)
    × (u.pending ≡ s.pending)
    × (u.pending_owner ≡ s.pending_owner)

Fits-Same : (s u : Service) (t : Thread) → Same s u → Fits s t → Fits u t
Fits-Same s u t same h = ground arith

close-Same : (s u : Service) (id : ℕ) → close s id ≡ some u → Same s u
unfolding close
close-Same s u id e = ground arith

close_quietly-Same : (s : Service) (id : ℕ) → Same s (close_quietly s id)
close_quietly-Same s id = elim (Option-cases (close s id)) [
  | inl q ↦ rw (q, close_quietly) (refl, refl, refl, refl)
  | inr (u, q) ↦ rw (q, close_quietly) (close-Same s u id q)
]

try_lock-Same : (s u : Service) → try_lock s ≡ some u → Same s u
unfolding try_lock
try_lock-Same s u e = ground arith

unlock-Same : (s u : Service) → unlock s ≡ some u → Same s u
unfolding unlock
unlock-Same s u e = ground arith

register-Same :
    (s u : Service) (seq id owner now : ℕ) → register_session s seq id owner now ≡ some u → Same s u
unfolding register_session
register-Same s u seq id owner now e = ground arith

-- A call goes to another phase, and does not come back to life.
move-Inv :
    (s : System) (u : Service) (before after : List Thread) (t : Thread) (p : Phase)
    → s.opens ≡ before ++ t ∷ after
    → Same s.service u
    → (is_open p ≡ true → is_open t.phase ≡ true)
    → Inv s
    → Inv (record s { service = u; opens = before ++ record t { phase = p } ∷ after })
move-Inv s u before after t p e same alive h = record {
  numbered = ground (arith, h.numbered);
  fits =
      All-middle (Fits u) before after t (record t { phase = p })
        (All-map (Fits s.service) (Fits u) (λ v. Fits-Same s.service u v same) (before ++ t ∷ after)
          (rw e at h.fits))
        (λ f. record {
          numbered = f.numbered;
          bounded = f.bounded;
          latest = λ a. f.latest (alive a);
        });
  unique = λ n.
      omega (
        arith,
        h.unique n,
        total-middle (born n) before after t (record t { phase = p }) s.opens e,
      );
}

still-Inv : (s : System) (u : Service) → Same s.service u → Inv s → Inv (record s { service = u })
still-Inv s u same h = record {
  numbered = ground (arith, h.numbered);
  fits = All-map (Fits s.service) (Fits u) (λ v. Fits-Same s.service u v same) s.opens h.fits;
  unique = h.unique;
}

paired-Inv :
    (s : System) (u : Service) (n : ℕ)
    → Same s.service u
    → Inv s
    → Inv (record s { service = u; pairing = n })
paired-Inv s u n same h = record {
  numbered = ground (arith, h.numbered);
  fits = All-map (Fits s.service) (Fits u) (λ v. Fits-Same s.service u v same) s.opens h.fits;
  unique = h.unique;
}

All-append {ℓ κ} :
    {A : Type ℓ} (P : A → Type κ) (xs ys : List A) → All P xs → All P ys → All P (xs ++ ys)
All-append P [] ys h k = k
All-append P (x ∷ xs) ys (p, h) k = (p, All-append P xs ys h k)

All-parts {ℓ κ} :
    {A : Type ℓ} (P : A → Type κ) (xs ys : List A) → All P (xs ++ ys) → All P xs × All P ys
All-parts P [] ys h = (tt, h)
All-parts P (x ∷ xs) ys (p, h) = let (a, b) = All-parts P xs ys h in ((p, a), b)

-- Without a call born last, what is pending does not matter.
orphans-Fit :
    (s u : Service) (ts : List Thread)
    → s.bumps ≡ u.bumps
    → total (born s.bumps) ts ≡ 0
    → All (Fits s) ts
    → All (Fits u) ts
orphans-Fit s u [] e h k = tt
orphans-Fit s u (t ∷ ts) e h (f, k) = (
  record {
    numbered = f.numbered;
    bounded = omega (arith, f.bounded);
    latest = λ a b. absurd (ground arith);
  },
  orphans-Fit s u ts e (ground arith) k,
)

later-Fit :
    (s u : Service) (ts : List Thread) → s.bumps < u.bumps → All (Fits s) ts → All (Fits u) ts
later-Fit s u [] l h = tt
later-Fit s u (t ∷ ts) l (f, h) = (
  record {
    numbered = f.numbered;
    bounded = omega (arith, f.bounded);
    latest = λ a b. absurd (omega (arith, f.bounded));
  },
  later-Fit s u ts l h,
)

unborn :
    (s : Service) (n : ℕ) (ts : List Thread) → s.bumps < n → All (Fits s) ts → total (born n) ts ≡ 0
unborn s n [] l h = refl
unborn s n (t ∷ ts) l (f, h) = ground (arith, f.bounded, unborn s n ts l h)

pub low-bumps : (m n : ℕ) → m ≤ n → n < 2 ^ 64 → u64 m ≡ u64 n → m ≡ n
low-bumps m n l b e = omega arith

pub begin-Inv :
    (s : System) (owner : ℕ)
    → Inv s
    → Inv (record s {
      service = (begin_open s.service owner).0;
      opens =
          record {
            phase = begun;
            owner = owner;
            seq = (begin_open s.service owner).1;
            birth = s.service.bumps + 1;
          }
          ∷ s.opens;
    })
unfolding begin_open
begin-Inv s owner h = record {
  numbered = omega (arith, h.numbered);
  fits = (
    record {
      numbered = omega (arith, h.numbered);
      bounded = omega arith;
      latest = λ a b. (refl, refl);
    },
    later-Fit s.service (begin_open s.service owner).0 s.opens (omega arith) h.fits,
  );
  unique = λ n.
      ground
        (arith, h.unique n, unborn s.service (s.service.bumps + 1) s.opens (omega arith) h.fits);
}

abbrev nothing_pending : Service → Service
nothing_pending s = record s { pending = false; pending_owner = 0 }

-- The last call ends: no other was born last.
last-Inv :
    (s : System) (before after : List Thread) (t : Thread)
    → s.opens ≡ before ++ t ∷ after
    → (s.service.open_seq == t.seq) ≡ true
    → s.service.bumps < 2 ^ 64
    → Inv s
    → Inv (record s {
      service = nothing_pending s.service;
      opens = before ++ record t { phase = over } ∷ after;
    })
last-Inv s before after t e q l h =
    let fits = rw e at h.fits in
    let f = All-at (Fits s.service) before after t fits in
    let (fits-before, fits-after) = All-parts (Fits s.service) before (t ∷ after) fits in
    let born-last : t.birth ≡ s.service.bumps =
      low-bumps t.birth s.service.bumps f.bounded l (ground (arith, f.numbered, h.numbered)) in
    let alone : total (born s.service.bumps) before + (1 + total (born s.service.bumps) after) ≤ 1 =
      ground (
        arith,
        h.unique s.service.bumps,
        total-append (born s.service.bumps) before (t ∷ after),
        ap (total (born s.service.bumps)) e,
      ) in
    record {
      numbered = h.numbered;
      fits =
          All-append (Fits (nothing_pending s.service)) before (record t { phase = over } ∷ after)
            (orphans-Fit s.service (nothing_pending s.service) before refl (omega (arith, alone))
              fits-before)
            (
              record { numbered = f.numbered; bounded = f.bounded; latest = λ a. cc },
              orphans-Fit s.service (nothing_pending s.service) after refl (omega (arith, alone))
                  fits-after.1,
            );
      unique = λ n. omega (
        arith,
        h.unique n,
        total-middle (born n) before after t (record t { phase = over }) s.opens e,
      );
    }

end-Inv :
    (s : System) (before after : List Thread) (t : Thread)
    → s.opens ≡ before ++ t ∷ after
    → s.service.bumps < 2 ^ 64
    → Inv s
    → Inv (record s {
      service = end_open s.service t.seq;
      opens = before ++ record t { phase = over } ∷ after;
    })
unfolding end_open
end-Inv s before after t e l h = elim (Bool-cases (s.service.open_seq == t.seq)) [
  | inl q ↦ rw (q, end_open) (last-Inv s before after t e q l h)
  | inr q ↦
      rw (q, end_open)
        (move-Inv s s.service before after t over e (refl, refl, refl, refl) (λ a. cc) h)
]

forget-Inv :
    (s : System) (owner : ℕ) → Inv s → Inv (record s { service = forget_pending s.service owner })
forget-Inv s owner h = elim (Bool-cases (s.service.pending && (s.service.pending_owner == owner))) [
  | inl q ↦
      rw (q, forget_pending)
        record {
          numbered = omega (arith, h.numbered);
          fits = later-Fit s.service _ s.opens (omega arith) h.fits;
          unique = h.unique;
        }
  | inr q ↦ rw (q, forget_pending) h
]

pub revoke-Inv :
    (s : System) (owner : ℕ) → Inv s → Inv (record s { service = (revoke s.service owner).0 })
unfolding revoke
revoke-Inv s owner h = elim (Bool-cases (owner == 0)) [
  | inl q ↦ rw (q, revoke) h
  | inr q ↦ rw (q, revoke) (forget-Inv s owner h)
]

pub Step-bumps : {s t : System} → Step s t → s.service.bumps ≤ t.service.bumps
Step-bumps (begin owner) = unfold begin_open in omega arith
Step-bumps (snapshot before after t e p) = omega arith
Step-bumps {s} (preempt before after t id ids e p) = ground (arith, close_quietly-Same s.service id)
Step-bumps (preempted before after t e p) = omega arith
Step-bumps {s} (lock before after t u e p q) = ground (arith, try_lock-Same s.service u q)
Step-bumps (give_up before after t e p) = omega arith
Step-bumps {s} (fail before after t u e p q) = ground (arith, unlock-Same s.service u q)
Step-bumps {s} (register before after t u id now e p f q) =
    ground (arith, register-Same s.service u t.seq id t.owner now q)
Step-bumps {s} (back_out before after t u id now e p f q) =
    ground (arith, unlock-Same s.service u q)
Step-bumps {s} (end before after t e p) = unfold end_open in ground arith
Step-bumps {s} (close_one u id e) = ground (arith, close-Same s.service u id e)
Step-bumps {s} (release u p q) = ground (arith, unlock-Same s.service u q)
Step-bumps {s} (pair u q) = ground (arith, try_lock-Same s.service u q)
Step-bumps {s} (unpair u p q) = ground (arith, unlock-Same s.service u q)
Step-bumps {s} (revoke_token owner) = unfold revoke in ground arith

pub Step-Inv : {s t : System} → Step s t → s.service.bumps < 2 ^ 64 → Inv s → Inv t
Step-Inv {s} (begin owner) l h = begin-Inv s owner h
Step-Inv {s} (snapshot before after t e p) l h =
    move-Inv s s.service before after t (preempting (session_ids s.service)) e
      (refl, refl, refl, refl) (λ a. ap is_open p) h
Step-Inv {s} (preempt before after t id ids e p) l h =
    move-Inv s _ before after t (preempting ids) e (close_quietly-Same s.service id)
      (λ a. ap is_open p) h
Step-Inv {s} (preempted before after t e p) l h =
    move-Inv s s.service before after t waiting e (refl, refl, refl, refl) (λ a. ap is_open p) h
Step-Inv {s} (lock before after t u e p q) l h =
    move-Inv s u before after t holding e (try_lock-Same s.service u q) (λ a. ap is_open p) h
Step-Inv {s} (give_up before after t e p) l h =
    move-Inv s s.service before after t finishing e (refl, refl, refl, refl) (λ a. cc) h
Step-Inv {s} (fail before after t u e p q) l h =
    move-Inv s u before after t finishing e (unlock-Same s.service u q) (λ a. cc) h
Step-Inv {s} (register before after t u id now e p f q) l h =
    move-Inv s u before after t finishing e (register-Same s.service u t.seq id t.owner now q)
      (λ a. cc) h
Step-Inv {s} (back_out before after t u id now e p f q) l h =
    move-Inv s u before after t finishing e (unlock-Same s.service u q) (λ a. cc) h
Step-Inv {s} (end before after t e p) l h = end-Inv s before after t e l h
Step-Inv {s} (close_one u id e) l h = still-Inv s u (close-Same s.service u id e) h
Step-Inv {s} (release u p q) l h = still-Inv s _ (unlock-Same s.service u q) h
Step-Inv {s} (pair u q) l h = paired-Inv s u _ (try_lock-Same s.service u q) h
Step-Inv {s} (unpair u p q) l h = paired-Inv s u _ (unlock-Same s.service u q) h
Step-Inv {s} (revoke_token owner) l h = revoke-Inv s owner h
