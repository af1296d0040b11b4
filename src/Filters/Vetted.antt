-- ===== src/Filters/Vetted.antt =====
-- Every domain that internal/services/filter.go stores has passed the deny floor.
use airgapp_rpi.Base.{
  ℕ, ◌≡◌, refl, Bool, true, not, ◌&&◌, List, [], ◌∷◌, any, All, arith, ◌==◌, Bool-cases, inl, inr,
  ◌⊎◌,
}
use airgapp_rpi.Base.Lists.{keep-All, append-All}
use airgapp_rpi.Base.Text.{Text, trim_space}
use airgapp_rpi.Validate.{is_empty}
use airgapp_rpi.Floor.{is_exempt}
use airgapp_rpi.Domains.{Checked, refused, stored, create_domain as check_domain}
use airgapp_rpi.Domains.Guarded.{is_plain, create_domain-IsGuarded}
use airgapp_rpi.Sni.Decision.{IsGuarded}
use airgapp_rpi.Filters.{
  DomainRow, Store, Result, done, failed, refused_domain, create, update, set_enabled, delete,
  describe_domain, upsert_domain, create_domain, update_domains, update_domain, set_domain_enabled,
  delete_domain, is_same,
}

pub data Op : Type 0 where
  create_filter : Text → Text → Op
  update_filter : ℕ → Text → Text → Op
  enable_filter : ℕ → Bool → Op
  delete_filter : ℕ → Op
  add : ℕ → Text → Text → Op
  change : ℕ → Text → Bool → Op
  enable : ℕ → Bool → Op
  remove : ℕ → Op

unfoldable pub call : Op → Store → Result
call (create_filter name description) st = create name description st
call (update_filter id name description) st = update id name description st
call (enable_filter id on) st = set_enabled id on st
call (delete_filter id) st = delete id st
call (add preset raw description) st = create_domain preset raw description st
call (change id description on) st = update_domain id description on st
call (enable id on) st = set_domain_enabled id on st
call (remove id) st = delete_domain id st

-- A call that fails leaves the tables as they are.
abbrev pub after : Result → Store → Store
after (done st) old = st
after (failed e) old = old

unfoldable pub run : List Op → Store → Store
run [] st = st
run (op ∷ ops) st = run ops (after (call op st) st)

-- Only plain bytes, and exempt or clear of the deny floor.
abbrev pub IsVetted : Text → Type 0
IsVetted d = All (λ c. is_plain c ≡ true) d × ((is_exempt d ≡ true) ⊎ IsGuarded d)

abbrev pub HasVetted : List DomainRow → Type 0
HasVetted rows = All (λ d. IsVetted d.domain) rows

describe-HasVetted :
    (preset : ℕ) (domain description : Text) (rows : List DomainRow)
    → HasVetted rows
    → HasVetted (describe_domain preset domain description rows)
unfolding describe_domain
describe-HasVetted preset domain description [] h = tt
describe-HasVetted preset domain description (d ∷ rows) (q, h) =
    elim (Bool-cases (is_same preset domain d)) [
      | inl e ↦ rw e (q, describe-HasVetted preset domain description rows h)
      | inr e ↦ rw e (q, describe-HasVetted preset domain description rows h)
    ]

update-HasVetted :
    (id : ℕ) (f : DomainRow → DomainRow) (rows : List DomainRow)
    → ((d : DomainRow) → IsVetted d.domain → IsVetted (f d).domain)
    → HasVetted rows
    → HasVetted (update_domains id f rows)
unfolding update_domains
update-HasVetted id f [] k h = tt
update-HasVetted id f (d ∷ rows) k (q, h) = elim (Bool-cases (d.id == id)) [
  | inl e ↦ rw e (k d q, update-HasVetted id f rows k h)
  | inr e ↦ rw e (q, update-HasVetted id f rows k h)
]

upsert-HasVetted :
    (preset : ℕ) (domain description : Text) (st : Store)
    → IsVetted domain
    → HasVetted st.domains
    → HasVetted (after (upsert_domain preset domain description st) st).domains
unfolding upsert_domain
upsert-HasVetted preset domain description st v h =
    elim (Bool-cases (any (is_same preset domain) st.domains)) [
      | inl e ↦ rw e (describe-HasVetted preset domain description st.domains h)
      | inr e ↦ elim (Bool-cases (any (λ f. f.id == preset) st.filters)) [
        | inl q ↦ rw (e, q) (append-All (λ d. IsVetted d.domain) st.domains _ h (v, tt))
        | inr q ↦ rw (e, q) h
      ]
    ]

create_domain-HasVetted :
    (preset : ℕ) (raw description : Text) (st : Store)
    → HasVetted st.domains
    → HasVetted (after (create_domain preset raw description st) st).domains
unfolding create_domain
create_domain-HasVetted preset raw description st h = by_check (check_domain raw description) refl
  where
    by_check :
        (c : Checked)
        → check_domain raw description ≡ c
        → HasVetted
            (after
              (elim c [
                | refused e ↦ failed (refused_domain e)
                | stored domain reason ↦ upsert_domain preset domain reason st
              ])
              st).domains
    by_check (refused e) q = h
    by_check (stored domain reason) q =
        let (r, p, g) = create_domain-IsGuarded raw description domain reason q in
        upsert-HasVetted preset domain reason st (p, g) h

delete-HasVetted :
    (id : ℕ) (st : Store) → HasVetted st.domains → HasVetted (after (delete id st) st).domains
unfolding delete
delete-HasVetted id st h = elim (Bool-cases (any (λ f. f.id == id) st.filters)) [
  | inr e ↦ rw e h
  | inl e ↦ elim (Bool-cases (any (λ f. (f.id == id) && f.is_system) st.filters)) [
    | inl q ↦ rw (e, q) h
    | inr q ↦
        rw (e, q) (keep-All (λ d. IsVetted d.domain) (λ d. not (d.preset_id == id)) st.domains h)
  ]
]

-- The calls that write the table of filters only.
create-domains :
    (name description : Text) (st : Store)
    → (after (create name description st) st).domains ≡ st.domains
unfolding create
create-domains name description st = ground arith

update-domains :
    (id : ℕ) (name description : Text) (st : Store)
    → (after (update id name description st) st).domains ≡ st.domains
unfolding update
update-domains id name description st = ground arith

set_enabled-domains :
    (id : ℕ) (on : Bool) (st : Store) → (after (set_enabled id on st) st).domains ≡ st.domains
unfolding set_enabled
set_enabled-domains id on st = ground arith

change-HasVetted :
    (id : ℕ) (description : Text) (on : Bool) (st : Store)
    → HasVetted st.domains
    → HasVetted (after (update_domain id description on st) st).domains
unfolding update_domain
change-HasVetted id description on st h = elim (Bool-cases (is_empty (trim_space description))) [
  | inl e ↦ rw e h
  | inr e ↦ rw e (
      update-HasVetted id (λ d. record d { description = trim_space description; enabled = on })
        st.domains (λ d v. v) h)
]

call-HasVetted :
    (op : Op) (st : Store) → HasVetted st.domains → HasVetted (after (call op st) st).domains
unfolding call set_domain_enabled delete_domain
call-HasVetted (create_filter name description) st h = rw (create-domains name description st) h
call-HasVetted (update_filter id name description) st h =
    rw (update-domains id name description st) h
call-HasVetted (enable_filter id on) st h = rw (set_enabled-domains id on st) h
call-HasVetted (delete_filter id) st h = delete-HasVetted id st h
call-HasVetted (add preset raw description) st h =
    create_domain-HasVetted preset raw description st h
call-HasVetted (change id description on) st h = change-HasVetted id description on st h
call-HasVetted (enable id on) st h =
    update-HasVetted id (λ d. record d { enabled = on }) st.domains (λ d v. v) h
call-HasVetted (remove id) st h =
    keep-All (λ d. IsVetted d.domain) (λ d. not (d.id == id)) st.domains h

-- The domains of the tables stay vetted through any calls, in any order, with any input.
pub run-HasVetted :
    (ops : List Op) (st : Store)
    → All (λ d. IsVetted d.domain) st.domains
    → All (λ d. IsVetted d.domain) (run ops st).domains
unfolding run
run-HasVetted [] st h = h
run-HasVetted (op ∷ ops) st h = run-HasVetted ops (after (call op st) st) (call-HasVetted op st h)
