-- ===== src/Sni/Decision.antt =====
-- The decision of the proxy (internal/services/sniproxy.go) on a connection.
use airgapp_rpi.Base.{
  ◌≡◌, ◌≢◌, refl, subst, Bool, true, false, not, ◌&&◌, List, [], ◌∷◌, All, arith, Bool-cases, inl,
  inr,
}
use airgapp_rpi.Base.Text.{Text}
use airgapp_rpi.Floor.{
  clean, is_under, is_exempt, denied_by, ancestor_of, protected_deny, is_protected_denied,
}
use airgapp_rpi.Floor.Suffix.{guarded-admits}
use airgapp_rpi.Hello.{Parsed, ReadHello, failed, read_hello, read_client_hello}
use airgapp_rpi.Sni.{
  Proxy, is_empty, member, client_mac, policy_for, matches_suffix, match_sni, sni_allowed, Event,
  dial, host_of, connect, handle,
}

-- The hosts that are dialled, in order.
abbrev pub dialled : List Event → List Text
dialled [] = []
dialled (dial host ∷ events) = host ∷ dialled events
dialled (_ ∷ events) = dialled events

-- Why a connection may go to a host.
pub record IsAdmitted (p : Proxy) (ip host : Text) : Type 0 where
  pub known : is_empty (client_mac p ip) ≡ false
  pub is_filtered : member (client_mac p ip) p.filtered ≡ true
  pub not_denied : is_protected_denied host ≡ false
  pub listed : match_sni host p.suffixes ≡ true

policy_for-known :
    (p : Proxy) (ip : Text)
    → (policy_for p ip).1 ≡ true
    → (is_empty (client_mac p ip) ≡ false)
      × (member (client_mac p ip) p.filtered ≡ true)
      × ((policy_for p ip).0 ≡ p.suffixes)
unfolding policy_for
policy_for-known p ip h = elim (Bool-cases (is_empty (client_mac p ip))) [
  | inl q ↦ absurd (ground arith)
  | inr q ↦ (q, ground arith, ground arith)
]

sni_allowed_iff :
    (sni : Text) (suffixes : List Text)
    → sni_allowed sni suffixes ≡ true
    → (is_protected_denied sni ≡ false) × (match_sni sni suffixes ≡ true)
unfolding sni_allowed
sni_allowed_iff sni suffixes h = ground arith

admitted :
    (p : Proxy) (ip sni : Text)
    → ((policy_for p ip).1 && sni_allowed sni (policy_for p ip).0) ≡ true
    → IsAdmitted p ip sni
admitted p ip sni h =
    let (known, is_filtered, same) = policy_for-known p ip (ground arith) in
    let (clear, listed) = sni_allowed_iff sni (policy_for p ip).0 (ground arith) in
    record {
      known = known;
      is_filtered = is_filtered;
      not_denied = clear;
      listed = rw same at listed;
    }

connect-IsAdmitted :
    (dial_ok write_ok : Text → Bool) (p : Proxy) (ip raw sni host : Text) (hosts : List Text)
    → dialled (connect dial_ok write_ok p ip raw sni) ≡ host ∷ hosts
    → IsAdmitted p ip host × (hosts ≡ []) × (sni ≡ host)
unfolding connect
connect-IsAdmitted dial_ok write_ok p ip raw sni host hosts e =
    elim (Bool-cases ((policy_for p ip).1 && sni_allowed sni (policy_for p ip).0)) [
      | inl a ↦
          let same : sni ≡ host = ground arith in
          (subst (IsAdmitted p ip) same (admitted p ip sni a), ground arith, same)
      | inr r ↦ absurd (ground arith)
    ]

-- Whatever bytes a client sends: the proxy dials at most one host, and only the one that it read
-- from the ClientHello; the client then has the MAC of a filtered device, the host is not on the
-- deny floor, and it matches the allow list. So an unknown client reaches nothing, and no allow
-- list, however broad, reaches a host of the floor.
pub handle-IsAdmitted :
    (dial_ok write_ok : Text → Bool) (p : Proxy) (ip bytes host : Text) (hosts : List Text)
    → dialled (handle dial_ok write_ok p ip bytes) ≡ host ∷ hosts
    → IsAdmitted p ip host
      × (hosts ≡ [])
      × ((raw : Text) × (rest : Text) × (sni : Parsed) × (read_client_hello bytes
            ≡ read_hello raw rest sni)
          × (host_of sni ≡ host))
unfolding handle
handle-IsAdmitted dial_ok write_ok p ip bytes host hosts e =
    by_hello (read_client_hello bytes) refl e
  where
    by_hello :
        (h : ReadHello)
        → read_client_hello bytes ≡ h
        → dialled (elim h [
          | failed _ ↦ []
          | read_hello raw _ sni ↦ connect dial_ok write_ok p ip raw (host_of sni)
        ])
          ≡ host ∷ hosts
        → IsAdmitted p ip host
          × (hosts ≡ [])
          × ((raw : Text) × (rest : Text) × (sni : Parsed) × (read_client_hello bytes
                ≡ read_hello raw rest sni)
              × (host_of sni ≡ host))
    by_hello (failed x) q d = cc
    by_hello (read_hello raw rest sni) q d =
        let (a, alone, same) =
          connect-IsAdmitted dial_ok write_ok p ip raw (host_of sni) host hosts d in
        (a, alone, (raw, rest, sni, q, same))

-- What `CreateDomain` asks of a domain before it stores it, and that it is not one of the exempt
-- hosts, which lie below a denied name.
pub record IsGuarded (suffix : Text) : Type 0 where
  pub is_exempt : is_exempt suffix ≡ false
  pub not_denied : denied_by protected_deny suffix ≡ false
  pub not_ancestor : ancestor_of protected_deny suffix ≡ false

matching-clear :
    (sni : Text) (suffixes : List Text)
    → All IsGuarded suffixes
    → matches_suffix sni suffixes ≡ true
    → denied_by protected_deny sni ≡ false
matching-clear sni [] g m = cc
matching-clear sni (suffix ∷ suffixes) (g, gs) m =
    elim (Bool-cases (not (is_empty suffix) && is_under sni suffix)) [
      | inl h ↦
          guarded-admits protected_deny sni suffix (not_empty suffix h) g.is_exempt g.not_denied
            g.not_ancestor (ground arith)
      | inr n ↦ matching-clear sni suffixes gs (ground arith)
    ]
  where
    not_empty : (s : Text) → (not (is_empty s) && is_under sni s) ≡ true → s ≢ []
    not_empty [] q e = cc
    not_empty (c ∷ s) q e = cc

-- With an allow list of domains that pass the two guards and are not exempt hosts, no host that
-- matches the list is on the deny floor, so the check at connection time has nothing to refuse.
guarded-sni_allowed :
    (sni : Text) (suffixes : List Text)
    → All IsGuarded suffixes
    → sni_allowed sni suffixes ≡ match_sni sni suffixes
unfolding sni_allowed match_sni is_protected_denied
guarded-sni_allowed sni suffixes g = elim (Bool-cases (matches_suffix (clean sni) suffixes)) [
  | inl m ↦ rw (matching-clear (clean sni) suffixes g m) refl
  | inr n ↦ ground arith
]
