-- ===== src/Filters.antt =====
-- internal/services/filter.go over the tables `filters` and `filter_domains`. Each operation is one
-- statement or one transaction of the database, whose constraints are written out: unique names, a
-- domain once for each filter, the filter that a domain refers to, and the cascade. The order of
-- the rows that a query returns is not kept.
pub mod Vetted
pub mod Loaded
pub mod Enabled
mod Tests
use airgapp_rpi.Base.{
  ℕ, ◌+◌, Bool, true, false, not, ◌&&◌, ◌||◌, List, [], ◌∷◌, ◌++◌, map, any, keep, ◌==◌,
  if◌then◌else◌,
}
use airgapp_rpi.Base.Text.{Text, str_eq, trim_space}
use airgapp_rpi.Floor.{clean}
use airgapp_rpi.Domains.{valid_domain, DomainError, refused, stored, create_domain as check_domain}
use airgapp_rpi.Validate.{is_empty, valid_preset_name}

pub record FilterRow : Type 0 where
  pub id : ℕ
  pub name : Text
  pub description : Text
  pub is_system : Bool
  pub enabled : Bool

pub record DomainRow : Type 0 where
  pub id : ℕ
  pub preset_id : ℕ
  pub domain : Text
  pub description : Text
  pub enabled : Bool

-- Both tables, and the next number of each.
pub record Store : Type 0 where
  pub filters : List FilterRow
  pub domains : List DomainRow
  pub next_filter : ℕ
  pub next_domain : ℕ

pub data FilterError : Type 0 where
  invalid_name name_taken filter_not_found system_filter description_required : FilterError
  refused_domain : DomainError → FilterError

pub data Result : Type 0 where
  done : Store → Result
  failed : FilterError → Result

unfoldable pub create : Text → Text → Store → Result
create raw description st =
    let name = trim_space raw in
    if not (valid_preset_name name)
    then failed invalid_name
    else if any (λ f. str_eq f.name name) st.filters
    then failed name_taken
    else done (record st {
      filters =
          st.filters
          ++ record {
            id = st.next_filter;
            name = name;
            description = description;
            is_system = false;
            enabled = false;
          }
            ∷ [];
      next_filter = st.next_filter + 1;
    })

unfoldable pub update_filters : ℕ → (FilterRow → FilterRow) → List FilterRow → List FilterRow
update_filters id f [] = []
update_filters id f (r ∷ rows) =
    let rest = update_filters id f rows in if r.id == id then f r ∷ rest else r ∷ rest

unfoldable pub update : ℕ → Text → Text → Store → Result
update id raw description st =
    let name = trim_space raw in
    if not (valid_preset_name name)
    then failed invalid_name
    else if any (λ f. str_eq f.name name && not (f.id == id)) st.filters
        && any (λ f. f.id == id) st.filters
    then failed name_taken
    else done (record st {
      filters =
          update_filters id (λ f. record f { name = name; description = description }) st.filters;
    })

unfoldable pub set_enabled : ℕ → Bool → Store → Result
set_enabled id on st =
    if any (λ f. f.id == id) st.filters
    then done
        (record st { filters = update_filters id (λ f. record f { enabled = on }) st.filters })
    else failed filter_not_found

unfoldable pub delete : ℕ → Store → Result
delete id st =
    if not (any (λ f. f.id == id) st.filters)
    then failed filter_not_found
    else if any (λ f. (f.id == id) && f.is_system) st.filters
    then failed system_filter
    else done (record st {
      filters = keep (λ f. not (f.id == id)) st.filters;
      domains = keep (λ d. not (d.preset_id == id)) st.domains;
    })

abbrev pub is_same : ℕ → Text → DomainRow → Bool
is_same preset domain d = (d.preset_id == preset) && str_eq d.domain domain

-- `ON CONFLICT(preset_id, domain) DO UPDATE SET description = excluded.description`
unfoldable pub describe_domain : ℕ → Text → Text → List DomainRow → List DomainRow
describe_domain preset domain description [] = []
describe_domain preset domain description (d ∷ rows) =
    let rest = describe_domain preset domain description rows in
    if is_same preset domain d then record d { description = description } ∷ rest else d ∷ rest

unfoldable pub upsert_domain : ℕ → Text → Text → Store → Result
upsert_domain preset domain description st =
    if any (is_same preset domain) st.domains
    then done (record st { domains = describe_domain preset domain description st.domains })
    else if not (any (λ f. f.id == preset) st.filters)
    then failed filter_not_found
    else done (record st {
      domains =
          st.domains
          ++ record {
            id = st.next_domain;
            preset_id = preset;
            domain = domain;
            description = description;
            enabled = false;
          }
            ∷ [];
      next_domain = st.next_domain + 1;
    })

unfoldable pub create_domain : ℕ → Text → Text → Store → Result
create_domain preset raw description st = elim (check_domain raw description) [
  | refused e ↦ failed (refused_domain e)
  | stored domain reason ↦ upsert_domain preset domain reason st
]

unfoldable pub update_domains : ℕ → (DomainRow → DomainRow) → List DomainRow → List DomainRow
update_domains id f [] = []
update_domains id f (d ∷ rows) =
    let rest = update_domains id f rows in if d.id == id then f d ∷ rest else d ∷ rest

unfoldable pub update_domain : ℕ → Text → Bool → Store → Result
update_domain id description on st =
    if is_empty (trim_space description)
    then failed description_required
    else done (record st {
      domains =
          update_domains id (λ d. record d { description = trim_space description; enabled = on })
            st.domains;
    })

unfoldable pub set_domain_enabled : ℕ → Bool → Store → Result
set_domain_enabled id on st =
    done (record st { domains = update_domains id (λ d. record d { enabled = on }) st.domains })

unfoldable pub delete_domain : ℕ → Store → Result
delete_domain id st = done (record st { domains = keep (λ d. not (d.id == id)) st.domains })

-- The join and the `WHERE` of `AllEnabledDomains`.
unfoldable pub is_live : List FilterRow → DomainRow → Bool
is_live filters d = d.enabled && any (λ f. (f.id == d.preset_id) && f.enabled) filters

-- `DISTINCT`: a later row of the same name is left out.
unfoldable pub distinct : List Text → List Text
distinct [] = []
distinct (x ∷ xs) = let rest = distinct xs in x ∷ keep (λ y. not (str_eq y x)) rest

-- The query of `RefreshCache` in internal/services/sniproxy.go and of `allowedDomains` in
-- internal/services/dns.go, without its order. It checks nothing.
unfoldable pub enabled_rows : Store → List Text
enabled_rows st = distinct (map (λ d. d.domain) (keep (is_live st.filters) st.domains))

unfoldable pub all_enabled_domains : Store → List Text
all_enabled_domains st =
    keep (λ d. not (is_empty d) && valid_domain d)
      (map clean (distinct (map (λ d. d.domain) (keep (is_live st.filters) st.domains))))
