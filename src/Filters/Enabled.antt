-- ===== src/Filters/Enabled.antt =====
-- What the operator only proposes in internal/services/filter.go lets nothing through.
use airgapp_rpi.Base.{
  ℕ, ◌≡◌, refl, ap, ◌∙◌, Bool, true, false, not, ◌&&◌, List, [], ◌∷◌, ◌++◌, map, any, all, keep,
  arith, ◌==◌, Bool-cases, inl, inr,
}
use airgapp_rpi.Base.Text.{Text, str_eq, trim_space}
use airgapp_rpi.Floor.{clean}
use airgapp_rpi.Domains.{valid_domain, Checked, refused, stored, create_domain as check_domain}
use airgapp_rpi.Validate.{is_empty, valid_preset_name}
use airgapp_rpi.Filters.{
  FilterRow, DomainRow, Store, failed, refused_domain, create, describe_domain, upsert_domain,
  create_domain, is_same, is_live, distinct, all_enabled_domains,
}
use airgapp_rpi.Filters.Vetted.{Op, create_filter, add, call, after, run}

-- The names of the live rows, on which `all_enabled_domains` depends.
live_names : Store → List Text
live_names st = map (λ d. d.domain) (keep (is_live st.filters) st.domains)

all_enabled-eq :
    (st new : Store)
    → live_names new ≡ live_names st
    → all_enabled_domains new ≡ all_enabled_domains st
unfolding all_enabled_domains live_names
all_enabled-eq st new e =
    ap (λ names. keep (λ d. not (is_empty d) && valid_domain d) (map clean (distinct names))) e

live-snoc :
    (filters : List FilterRow) (f : FilterRow) (d : DomainRow)
    → f.enabled ≡ false
    → is_live (filters ++ f ∷ []) d ≡ is_live filters d
unfolding is_live
live-snoc filters f d off = ap (λ b. d.enabled && b) (any-snoc filters)
  where
    any-snoc :
        (fs : List FilterRow)
        → any (λ g. (g.id == d.preset_id) && g.enabled) (fs ++ f ∷ [])
          ≡ any (λ g. (g.id == d.preset_id) && g.enabled) fs
    any-snoc [] = ground arith
    any-snoc (g ∷ fs) = ground (arith, any-snoc fs)

off-is_live :
    (filters : List FilterRow) (d : DomainRow) → d.enabled ≡ false → is_live filters d ≡ false
unfolding is_live
off-is_live filters d off = rw off refl

keep-eq :
    (p q : DomainRow → Bool) (rows : List DomainRow)
    → ((d : DomainRow) → p d ≡ q d)
    → keep p rows ≡ keep q rows
keep-eq p q [] h = refl
keep-eq p q (d ∷ rows) h = ground (arith, h d, keep-eq p q rows h)

keep-snoc :
    (p : DomainRow → Bool) (rows : List DomainRow) (d : DomainRow)
    → p d ≡ false
    → keep p (rows ++ d ∷ []) ≡ keep p rows
keep-snoc p [] d h = ground arith
keep-snoc p (e ∷ rows) d h = ground (arith, keep-snoc p rows d h)

names-describe :
    (filters : List FilterRow) (preset : ℕ) (domain description : Text) (rows : List DomainRow)
    → map (λ d. d.domain) (keep (is_live filters) (describe_domain preset domain description rows))
      ≡ map (λ d. d.domain) (keep (is_live filters) rows)
unfolding describe_domain is_live
names-describe filters preset domain description [] = refl
names-describe filters preset domain description (d ∷ rows) =
    ground (arith, names-describe filters preset domain description rows)

-- A filter that is created is off.
create-all_enabled :
    (name description : Text) (st : Store)
    → live_names (after (create name description st) st) ≡ live_names st
unfolding create live_names
create-all_enabled raw description st = elim (Bool-cases (valid_preset_name (trim_space raw))) [
  | inr e ↦ rw e refl
  | inl e ↦ elim (Bool-cases (any (λ f. str_eq f.name (trim_space raw)) st.filters)) [
    | inl q ↦ rw (e, q) refl
    | inr q ↦
        rw (e, q)
          (ap (map (λ d. d.domain))
            (keep-eq _ (is_live st.filters) st.domains (λ d. live-snoc st.filters _ d refl)))
  ]
]

-- A domain that is added is off; one that is there keeps its flag.
upsert-all_enabled :
    (preset : ℕ) (domain description : Text) (st : Store)
    → live_names (after (upsert_domain preset domain description st) st) ≡ live_names st
unfolding upsert_domain live_names
upsert-all_enabled preset domain description st =
    elim (Bool-cases (any (is_same preset domain) st.domains)) [
      | inl e ↦ rw e (names-describe st.filters preset domain description st.domains)
      | inr e ↦ elim (Bool-cases (any (λ f. f.id == preset) st.filters)) [
        | inr q ↦ rw (e, q) refl
        | inl q ↦
            rw (e, q)
              (ap (map (λ d. d.domain))
                (keep-snoc (is_live st.filters) st.domains _ (off-is_live st.filters _ refl)))
      ]
    ]

create_domain-all_enabled :
    (preset : ℕ) (raw description : Text) (st : Store)
    → live_names (after (create_domain preset raw description st) st) ≡ live_names st
unfolding create_domain
create_domain-all_enabled preset raw description st = by_check (check_domain raw description)
  where
    by_check :
        (c : Checked)
        → live_names (
            after
              (elim c [
                | refused e ↦ failed (refused_domain e)
                | stored domain reason ↦ upsert_domain preset domain reason st
              ])
              st)
          ≡ live_names st
    by_check (refused e) = refl
    by_check (stored domain reason) = upsert-all_enabled preset domain reason st

-- Proposing a filter or a domain.
abbrev pub is_proposal : Op → Bool
is_proposal (create_filter name description) = true
is_proposal (add preset raw description) = true
is_proposal op = false

call-all_enabled :
    (op : Op) (st : Store)
    → is_proposal op ≡ true
    → live_names (after (call op st) st) ≡ live_names st
unfolding call
call-all_enabled (create_filter name description) st h = create-all_enabled name description st
call-all_enabled (add preset raw description) st h =
    create_domain-all_enabled preset raw description st
call-all_enabled op st h = absurd cc

-- However many filters and domains are proposed, with whatever input, and also when a domain was
-- there before: the global allow list stays exactly the same until something is enabled.
pub run-all_enabled :
    (ops : List Op) (st : Store)
    → all is_proposal ops ≡ true
    → all_enabled_domains (run ops st) ≡ all_enabled_domains st
unfolding run
run-all_enabled [] st h = refl
run-all_enabled (op ∷ ops) st h =
    run-all_enabled ops (after (call op st) st) (ground arith)
    ∙ all_enabled-eq st (after (call op st) st) (call-all_enabled op st (ground arith))
