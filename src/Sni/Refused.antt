-- ===== src/Sni/Refused.antt =====
-- What is left to refuse for the check that internal/services/sniproxy.go makes on a connection.
use airgapp_rpi.Base.{
  ◌≡◌, true, false, not, ◌&&◌, List, [], ◌∷◌, any, All, arith, Bool-cases, inl, inr, ◌⊎◌, ◌≢◌,
  subst,
}
use airgapp_rpi.Base.Text.{Text, str_eq, str_eq-eq}
use airgapp_rpi.Floor.{
  clean, is_under, is_exempt, denied_by, protected_deny, is_protected_denied, assistant_exempt,
  spoof_conn_man_host,
}
use airgapp_rpi.Floor.Suffix.{guarded-admits}
use airgapp_rpi.Sni.{is_empty, matches_suffix, match_sni, sni_allowed}
use airgapp_rpi.Sni.Decision.{IsGuarded}

-- What `CreateDomain` lets through: an exempt host, or a domain that passes both guards.
abbrev pub MayStand : Text → Type 0
MayStand suffix = (is_exempt suffix ≡ true) ⊎ IsGuarded suffix

abbrev pub exempt_hosts : List Text
exempt_hosts = spoof_conn_man_host ∷ assistant_exempt

any-under :
    (h s : Text) (hosts : List Text)
    → is_under h s ≡ true
    → any (str_eq s) hosts ≡ true
    → any (is_under h) hosts ≡ true
any-under h s [] u m = absurd cc
any-under h s (host ∷ hosts) u m = elim (Bool-cases (str_eq s host)) [
  | inl e ↦ let v = subst (λ x. is_under h x ≡ true) (str_eq-eq s host e) u in ground arith
  | inr e ↦ ground (arith, any-under h s hosts u)
]

exempt-under :
    (h s : Text) → is_under h s ≡ true → is_exempt s ≡ true → any (is_under h) exempt_hosts ≡ true
unfolding is_exempt
exempt-under h s u e = any-under h s exempt_hosts u e

not_empty : (s h : Text) → (not (is_empty s) && is_under h s) ≡ true → s ≢ []
not_empty [] h q e = cc
not_empty (c ∷ s) h q e = cc

matching-below :
    (h : Text) (suffixes : List Text)
    → All MayStand suffixes
    → matches_suffix h suffixes ≡ true
    → denied_by protected_deny h ≡ true
    → any (is_under h) exempt_hosts ≡ true
matching-below h [] g m d = absurd cc
matching-below h (suffix ∷ suffixes) (inl x, gs) m d =
    elim (Bool-cases (not (is_empty suffix) && is_under h suffix)) [
      | inl q ↦ exempt-under h suffix (ground arith) x
      | inr q ↦ matching-below h suffixes gs (ground arith) d
    ]
matching-below h (suffix ∷ suffixes) (inr g, gs) m d =
    elim (Bool-cases (not (is_empty suffix) && is_under h suffix)) [
      | inl q ↦
          let clear =
            guarded-admits protected_deny h suffix (not_empty suffix h q) g.is_exempt g.not_denied
              g.not_ancestor (ground arith) in
          absurd (ground arith)
      | inr q ↦ matching-below h suffixes gs (ground arith) d
    ]

-- With an allow list of domains that `CreateDomain` lets through, each of them an exempt host or one
-- that passes both guards, a host that matches the list is refused on a connection only if it lies
-- below one of the four exempt hosts. So apart from the exempt hosts the two guards are enough.
pub sni_allowed-below_exempt :
    (sni : Text) (suffixes : List Text)
    → All MayStand suffixes
    → match_sni sni suffixes ≡ true
    → sni_allowed sni suffixes ≡ false
    → any (is_under (clean sni)) exempt_hosts ≡ true
unfolding sni_allowed match_sni is_protected_denied
sni_allowed-below_exempt sni suffixes g m r =
    matching-below (clean sni) suffixes g (ground arith) (ground arith)
