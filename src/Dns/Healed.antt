-- ===== src/Dns/Healed.antt =====
-- What the repair of internal/services/dns.go leaves behind.
use airgapp_rpi.Base.{
  ℕ, ◌≡◌, refl, Bool, false, not, suc, Option, none, some, List, [], ◌∷◌, any, keep, arith,
  if◌then◌else◌, Bool-cases, inl, inr,
}
use airgapp_rpi.Base.Text.{Text}
use airgapp_rpi.Dns.{
  is_global_upstream, is_no_resolv, strip_global_upstreams, is_loopback_line, strip_loopback,
}

-- No forwarder is left, and the directive stands there once when the end of the file was reached
-- with it seen.
abbrev pub count : List Text → ℕ
count [] = 0
count (l ∷ ls) = let rest = count ls in if is_no_resolv l then suc rest else rest

-- The file after a run: what was written, or what was there when nothing was.
unfoldable pub file_after : Option (List Text) → List Text → List Text
file_after (some written) ls = written
file_after none ls = ls

-- A file that the repair is done with.
pub record IsHealed (ls : List Text) : Type 0 where
  pub no_forwarder : any is_global_upstream ls ≡ false
  pub one_directive : count ls ≡ 1
  pub unchanged : strip_global_upstreams ls ≡ none

keep-none : (p : Text → Bool) (ls : List Text) → any p (keep (λ l. not (p l)) ls) ≡ false
keep-none p [] = refl
keep-none p (l ∷ ls) = ground (arith, keep-none p ls)

-- After the repair of resolv.conf no line names this host as a server, and running it again changes
-- nothing.
strip_loopback-again :
    (ls : List Text)
    → (any is_loopback_line (file_after (strip_loopback ls) ls) ≡ false)
      × (strip_loopback (file_after (strip_loopback ls) ls) ≡ none)
unfolding strip_loopback file_after
strip_loopback-again ls = elim (Bool-cases (any is_loopback_line ls)) [
  | inl e ↦ rw (e, keep-none is_loopback_line ls) (refl, refl)
  | inr e ↦ rw (e, e) (refl, refl)
]
