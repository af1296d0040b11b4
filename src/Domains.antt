-- ===== src/Domains.antt =====
-- The names of an allow list: `ValidDomain` and `NormalizeDomain` of internal/services/validate.go,
-- and the checks of `CreateDomain` in internal/services/filter.go before it touches the database.
-- The pattern `domainNameRe` is run as an automaton over the bytes.
pub mod Guarded
mod Tests
use airgapp_rpi.Base.{
  ℕ, Bool, true, false, not, ◌&&◌, ◌||◌, List, [], ◌∷◌, length, ltb, leb, ◌==◌, if◌then◌else◌,
}
use airgapp_rpi.Base.Text.{Text, has_prefix, trim_space}
use airgapp_rpi.Floor.{clean, is_protected_denied, is_protected_ancestor}

-- `[a-z0-9]`
abbrev pub is_alnum : ℕ → Bool
is_alnum c = (leb b'a' c && leb c b'z') || (leb b'0' c && leb c b'9')

-- Where a label stands: before its first byte, behind a letter or digit, or behind a hyphen.
pub data LabelState : Type 0 where
  at_start after_alnum after_hyphen : LabelState

unfoldable pub matches_domain : LabelState → Text → Bool
matches_domain after_alnum [] = true
matches_domain _ [] = false
matches_domain at_start (c ∷ s) = is_alnum c && matches_domain after_alnum s
matches_domain after_alnum (c ∷ s) =
    let word = matches_domain after_alnum s in
    let hyphen = matches_domain after_hyphen s in
    let label = matches_domain at_start s in
    if is_alnum c then word else if c == b'-' then hyphen else (c == b'.') && label
matches_domain after_hyphen (c ∷ s) =
    let word = matches_domain after_alnum s in
    let hyphen = matches_domain after_hyphen s in if is_alnum c then word else (c == b'-') && hyphen

unfoldable pub valid_domain : Text → Bool
valid_domain s = if (length s == 0) || ltb 253 (length s) then false else matches_domain at_start s

-- `strings.TrimPrefix(d, "*.")`
abbrev pub trim_wildcard : Text → Text
trim_wildcard (c ∷ e ∷ s) = if (c == b'*') && (e == b'.') then s else c ∷ e ∷ s
trim_wildcard s = s

unfoldable pub normalize_domain : Text → Text
normalize_domain d =
    let name = trim_wildcard (clean d) in if not (valid_domain name) then [] else name

abbrev pub is_blank : Text → Bool
is_blank [] = true
is_blank (c ∷ s) = false

pub data DomainError : Type 0 where
  domain_required description_required protected_endpoint too_broad : DomainError

-- What `CreateDomain` stores: a name and its description.
pub data Checked : Type 0 where
  refused : DomainError → Checked
  stored : Text → Text → Checked

unfoldable pub create_domain : Text → Text → Checked
create_domain raw description =
    let name = normalize_domain raw in
    let reason = trim_space description in
    if is_blank name
    then refused domain_required
    else if is_blank reason
    then refused description_required
    else if is_protected_denied name
    then refused protected_endpoint
    else if is_protected_ancestor name
    then refused too_broad
    else stored name reason
