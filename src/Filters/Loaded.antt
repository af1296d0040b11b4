-- ===== src/Filters/Loaded.antt =====
-- What the SNI proxy (internal/services/sniproxy.go) loads from the tables of
-- internal/services/filter.go.
use airgapp_rpi.Base.{sym, subst, not, some, List, [], ◌∷◌, map, keep, All}
use airgapp_rpi.Base.Lists.{keep-All}
use airgapp_rpi.Base.Text.{Text, str_eq}
use airgapp_rpi.Floor.{clean}
use airgapp_rpi.Domains.Guarded.{clean-plain}
use airgapp_rpi.Sni.{is_empty as is_blank, Proxy, refresh_cache}
use airgapp_rpi.Filters.{DomainRow, Store, is_live, distinct, enabled_rows}
use airgapp_rpi.Filters.Vetted.{Op, run, IsVetted, HasVetted, run-HasVetted}

IsVetted-clean : (d : Text) → IsVetted d → IsVetted (clean d)
IsVetted-clean d v = subst IsVetted (sym (clean-plain d v.0)) v

map-IsVetted : (rows : List DomainRow) → HasVetted rows → All IsVetted (map (λ d. d.domain) rows)
map-IsVetted [] h = tt
map-IsVetted (d ∷ rows) (v, h) = (v, map-IsVetted rows h)

pub clean-IsVetted : (ds : List Text) → All IsVetted ds → All IsVetted (map clean ds)
clean-IsVetted [] h = tt
clean-IsVetted (d ∷ ds) (v, h) = (IsVetted-clean d v, clean-IsVetted ds h)

distinct-IsVetted : (ds : List Text) → All IsVetted ds → All IsVetted (distinct ds)
unfolding distinct
distinct-IsVetted [] h = tt
distinct-IsVetted (d ∷ ds) (v, h) =
    (v, keep-All IsVetted (λ y. not (str_eq y d)) (distinct ds) (distinct-IsVetted ds h))

pub enabled_rows-IsVetted : (st : Store) → HasVetted st.domains → All IsVetted (enabled_rows st)
unfolding enabled_rows
enabled_rows-IsVetted st h =
    let live = keep (is_live st.filters) st.domains in
    distinct-IsVetted (map (λ d. d.domain) live)
      (map-IsVetted live (keep-All (λ d. IsVetted d.domain) (is_live st.filters) st.domains h))

-- From tables whose domains are vetted, after any calls of the console, in any order and with any
-- input, every suffix that the SNI proxy loads, with its own query, consists of plain bytes, and is an exempt host or has
-- no protected host at, below or above it.
pub refresh_cache-IsVetted :
    (ops : List Op) (st : Store) (p : Proxy) (macs : List Text)
    → All (λ d. IsVetted d.domain) st.domains
    → All IsVetted (refresh_cache p (some (enabled_rows (run ops st))) (some macs)).suffixes
unfolding refresh_cache
refresh_cache-IsVetted ops st p macs h =
    let names = enabled_rows (run ops st) in
    keep-All IsVetted (λ x. not (is_blank x)) (map clean names)
      (clean-IsVetted names (enabled_rows-IsVetted (run ops st) (run-HasVetted ops st h)))
