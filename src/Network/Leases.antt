-- ===== src/Network/Leases.antt =====
-- Which lease `mergeLeases` of internal/services/network.go keeps for a device.
use airgapp_rpi.Base.{
  ℕ, ◌≡◌, ◌≤◌, refl, sym, true, false, none, some, List, [], ◌∷◌, All, arith, Bool-cases,
  Option-cases, inl, inr, ◌⊎◌, ◌∙◌, leb, leb→le,
}
use mathlib.Core.List.{Mem, mem-cons_self, mem-cons_of_mem}
use airgapp_rpi.Base.Text.{Text, str_eq, str_eq-eq, str_eq_refl}
use airgapp_rpi.Network.{
  lookup, put, Lease, read_lease, Merge, merge_lease, merge_lines, merge_leases,
}

module _ {ℓ} {A : Type ℓ} where
  lookup-put_same :
      (key : Text) (a : A) (pairs : List (Text × A)) → lookup key (put key a pairs) ≡ some a
  unfolding lookup put
  lookup-put_same key a [] = rw (str_eq_refl key) refl
  lookup-put_same key a ((k, b) ∷ pairs) = elim (Bool-cases (str_eq k key)) [
    | inl e ↦ rw (e, str_eq_refl key) refl
    | inr e ↦ rw (e, e, lookup-put_same key a pairs) refl
  ]

  lookup-put_other :
      (key other : Text) (a : A) (pairs : List (Text × A))
      → str_eq key other ≡ false
      → lookup other (put key a pairs) ≡ lookup other pairs
  unfolding lookup put
  lookup-put_other key other a [] h = rw h refl
  lookup-put_other key other a ((k, b) ∷ pairs) h = elim (Bool-cases (str_eq k key)) [
    | inl e ↦ rw (e, str_eq-eq k key e, h) refl
    | inr e ↦ rw (e, lookup-put_other key other a pairs h) refl
  ]

-- The leases of a file, the last line first.
unfoldable pub gather : List Text → List Lease → List Lease
gather [] seen = seen
gather (l ∷ ls) seen = gather ls (elim (read_lease l) [ some lease ↦ lease ∷ seen | none ↦ seen ])

-- One of the leases is kept for the MAC, and no lease of that MAC is newer.
pub record Kept (mac : Text) (leases : List Lease) (m : Merge) : Type 0 where
  pub winner : Lease
  pub listed : Mem winner leases
  pub its_mac : winner.device.mac ≡ mac
  pub expiry : lookup mac m.newest ≡ some winner.expiry
  pub device : lookup mac m.devices ≡ some winner.device
  pub unbeaten : All (λ l. str_eq l.device.mac mac ≡ true → l.expiry ≤ winner.expiry) leases

-- The MAC has no lease and no entry.
pub record Absent (mac : Text) (leases : List Lease) (m : Merge) : Type 0 where
  pub expiry : lookup mac m.newest ≡ none
  pub device : lookup mac m.devices ≡ none
  pub unnamed : All (λ l. str_eq l.device.mac mac ≡ false) leases

abbrev pub IsMerged : Text → List Lease → Merge → Type 0
IsMerged mac leases m = Absent mac leases m ⊎ Kept mac leases m

module _ (mac : Text) (leases : List Lease) (m : Merge) (lease : Lease) where
  -- The two ways a lease is treated.
  taken : Merge
  taken = record {
    newest = put lease.device.mac lease.expiry m.newest;
    devices = put lease.device.mac lease.device m.devices;
  }

  weaken :
      (e f : ℕ) (ls : List Lease)
      → e ≤ f
      → All (λ l. str_eq l.device.mac mac ≡ true → l.expiry ≤ e) ls
      → All (λ l. str_eq l.device.mac mac ≡ true → l.expiry ≤ f) ls
  weaken e f [] h k = tt
  weaken e f (l ∷ ls) h (b, k) = (λ s. let x = b s in omega arith, weaken e f ls h k)

  unnamed-unbeaten :
      (e : ℕ) (ls : List Lease)
      → All (λ l. str_eq l.device.mac mac ≡ false) ls
      → All (λ l. str_eq l.device.mac mac ≡ true → l.expiry ≤ e) ls
  unnamed-unbeaten e [] h = tt
  unnamed-unbeaten e (l ∷ ls) (n, h) = (λ s. absurd cc, unnamed-unbeaten e ls h)

  taken-Kept :
      str_eq lease.device.mac mac ≡ true
      → All (λ l. str_eq l.device.mac mac ≡ true → l.expiry ≤ lease.expiry) leases
      → Kept mac (lease ∷ leases) taken
  unfolding taken
  taken-Kept own bound =
      let same = str_eq-eq lease.device.mac mac own in
      record {
        winner = lease;
        listed = mem-cons_self;
        its_mac = same;
        expiry = rw (sym same) (lookup-put_same lease.device.mac lease.expiry m.newest);
        device = rw (sym same) (lookup-put_same lease.device.mac lease.device m.devices);
        unbeaten = (λ s. omega arith, bound);
      }

  -- A lease of another MAC changes nothing for this one.
  other-IsMerged :
      (n : Merge)
      → str_eq lease.device.mac mac ≡ false
      → lookup mac n.newest ≡ lookup mac m.newest
      → lookup mac n.devices ≡ lookup mac m.devices
      → IsMerged mac leases m
      → IsMerged mac (lease ∷ leases) n
  other-IsMerged n other e d (inl a) =
      inl (record { expiry = e ∙ a.expiry; device = d ∙ a.device; unnamed = (other, a.unnamed) })
  other-IsMerged n other e d (inr k) = inr (record {
    winner = k.winner;
    listed = mem-cons_of_mem lease k.listed;
    its_mac = k.its_mac;
    expiry = e ∙ k.expiry;
    device = d ∙ k.device;
    unbeaten = (λ s. absurd cc, k.unbeaten);
  })

  other-merge :
      str_eq lease.device.mac mac ≡ false
      → (lookup mac (merge_lease lease m).newest ≡ lookup mac m.newest)
        × (lookup mac (merge_lease lease m).devices ≡ lookup mac m.devices)
  unfolding merge_lease
  other-merge other =
      let e = lookup-put_other lease.device.mac mac lease.expiry m.newest other in
      let d = lookup-put_other lease.device.mac mac lease.device m.devices other in
      elim (Option-cases (lookup lease.device.mac m.newest)) [
        | inl n ↦ rw (n, merge_lease) (e, d)
        | inr (prev, q) ↦ elim (Bool-cases (leb lease.expiry prev)) [
          | inl le ↦ rw (q, le, merge_lease) (refl, refl)
          | inr gt ↦ rw (q, gt, merge_lease) (e, d)
        ]
      ]

  own-IsMerged :
      str_eq lease.device.mac mac ≡ true
      → IsMerged mac leases m
      → IsMerged mac (lease ∷ leases) (merge_lease lease m)
  unfolding merge_lease taken
  own-IsMerged own (inl a) =
      let same = str_eq-eq lease.device.mac mac own in
      let free : lookup lease.device.mac m.newest ≡ none = rw same a.expiry in
      inr (rw (free, merge_lease) (taken-Kept own (unnamed-unbeaten lease.expiry leases a.unnamed)))
  own-IsMerged own (inr k) =
      let same = str_eq-eq lease.device.mac mac own in
      let held : lookup lease.device.mac m.newest ≡ some k.winner.expiry = rw same k.expiry in
      elim (Bool-cases (leb lease.expiry k.winner.expiry)) [
        | inl le ↦ inr (
            rw (held, le, merge_lease)
              (record {
                winner = k.winner;
                listed = mem-cons_of_mem lease k.listed;
                its_mac = k.its_mac;
                expiry = k.expiry;
                device = k.device;
                unbeaten = (λ s. leb→le lease.expiry k.winner.expiry le, k.unbeaten);
              }))
        | inr gt ↦ inr (
            rw (held, gt, merge_lease)
              (taken-Kept own
                (weaken k.winner.expiry lease.expiry leases (ground arith) k.unbeaten)))
      ]

  merge_lease-IsMerged : IsMerged mac leases m → IsMerged mac (lease ∷ leases) (merge_lease lease m)
  merge_lease-IsMerged h = elim (Bool-cases (str_eq lease.device.mac mac)) [
    | inl own ↦ own-IsMerged own h
    | inr other ↦ let (e, d) = other-merge other in other-IsMerged (merge_lease lease m) other e d h
  ]

merge_lines-IsMerged :
    (mac : Text) (ls : List Text) (leases : List Lease) (m : Merge)
    → IsMerged mac leases m
    → IsMerged mac (gather ls leases) (merge_lines ls m)
unfolding merge_lines gather
merge_lines-IsMerged mac [] leases m h = h
merge_lines-IsMerged mac (l ∷ ls) leases m h = elim (Option-cases (read_lease l)) [
  | inl e ↦ rw e (merge_lines-IsMerged mac ls leases m h)
  | inr (lease, e) ↦ rw e (
      merge_lines-IsMerged mac ls (lease ∷ leases) (merge_lease lease m)
        (merge_lease-IsMerged mac leases m lease h))
]

-- For every lease file and every MAC: either no lease of the file names the MAC, and the scan has no
-- device for it, or the device is that of one of its leases, and no lease of that MAC expires later,
-- in whatever order the lines stand.
pub merge_leases-newest :
    (ls : List Text) (mac : Text)
    → ((lookup mac (merge_leases [] ls) ≡ none)
        × All (λ l. str_eq l.device.mac mac ≡ false) (gather ls []))
      ⊎ ((w : Lease) × Mem w (gather ls [])
          × (lookup mac (merge_leases [] ls) ≡ some w.device)
          × All (λ l. str_eq l.device.mac mac ≡ true → l.expiry ≤ w.expiry) (gather ls []))
unfolding merge_leases lookup
merge_leases-newest ls mac =
    let start : Merge = record { newest = []; devices = [] } in
    let empty : Absent mac [] start = record { expiry = refl; device = refl; unnamed = tt } in
    elim (merge_lines-IsMerged mac ls [] start (inl empty)) [
      | inl a ↦ inl (a.device, a.unnamed)
      | inr k ↦ inr (k.winner, k.listed, k.device, k.unbeaten)
    ]
