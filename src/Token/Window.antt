-- ===== src/Token/Window.antt =====
-- The claim window of a self-service token (internal/services/tesla_token.go, `IssueEphemeral`).
use airgapp_rpi.Base.{
  ℕ, ◌+◌, ◌≤◌, ◌<◌, ◌≡◌, refl, ap, ◌∙◌, Bool, true, false, Option, none, some, List, [], ◌∷◌, any,
  arith, Bool-cases, inl, inr, ltb,
}
use airgapp_rpi.Base.Text.{Text, str_eq, str_eq_refl, trim_space}
use airgapp_rpi.Token.{
  Row, Table, issued, is_blank, select, prune, new_row, insert, issue_ephemeral, is_valid, validate,
}

no-other :
    (hash : Text → Text) (plain : Text) (now : ℕ) (rows : List Row)
    → any (λ r. str_eq r.token_hash (hash plain)) rows ≡ false
    → select (is_valid hash plain now) rows ≡ none
no-other hash plain now [] h = refl
no-other hash plain now (r ∷ rows) h = ground (arith, no-other hash plain now rows)

-- What an insertion that succeeds made.
insert-issued :
    (hash : Text → Text) (t u : Table) (label plain p : Text) (now id : ℕ) (expires : Option ℕ)
    → insert hash t label plain now expires ≡ issued id p u
    → (any (λ r. str_eq r.token_hash (hash plain)) t.rows ≡ false)
      × ((r : Row) × (u.rows ≡ r ∷ t.rows)
          × (r.id ≡ id)
          × (r.token_hash ≡ hash plain)
          × (r.revoked_at ≡ none)
          × (r.expires_at ≡ expires))
unfolding insert
insert-issued hash t u label plain p now id expires h =
    elim (Bool-cases (any (λ r. str_eq r.token_hash (hash plain)) t.rows)) [
      | inl q ↦ absurd (ground arith)
      | inr q ↦ (
        q,
        (new_row hash t label plain now expires, ground arith, ground arith, refl, refl, refl),
      )
    ]

ephemeral-inserts :
    (hash : Text → Text) (t u : Table) (label plain p : Text) (ttl now id : ℕ)
    → issue_ephemeral hash t label ttl plain now ≡ issued id p u
    → insert hash (prune t now) (trim_space label) plain now (some (now + ttl)) ≡ issued id p u
unfolding issue_ephemeral
ephemeral-inserts hash t u label plain p ttl now id h = ground arith

valid_in_window :
    (hash : Text → Text) (plain : Text) (limit later : ℕ) (r : Row)
    → r.token_hash ≡ hash plain
    → r.revoked_at ≡ none
    → r.expires_at ≡ some limit
    → is_valid hash plain later r ≡ ltb later limit
valid_in_window hash plain limit later r h v x =
    rw (h, v, x) (ground (arith, str_eq_refl (hash plain)))

select-first :
    (p : Row → Bool) (r : Row) (rows : List Row)
    → (p r ≡ true → select p (r ∷ rows) ≡ some r)
      × (p r ≡ false → select p (r ∷ rows) ≡ select p rows)
select-first p r rows = (λ e. ground arith, λ e. ground arith)

abbrev shown_row : Option Row → Option Row
shown_row none = none
shown_row (some r) = some (record r { expires_at = none })

validate-selects :
    (hash : Text → Text) (t : Table) (plain : Text) (now : ℕ) (o : Option Row)
    → trim_space plain ≡ plain
    → is_blank plain ≡ false
    → select (is_valid hash plain now) t.rows ≡ o
    → (validate hash t plain now).0 ≡ shown_row o
unfolding validate
validate-selects hash t plain now none e b s =
    let shown : is_blank (trim_space plain) ≡ false = rw e b in
    let selected : select (is_valid hash (trim_space plain) now) t.rows ≡ none = rw e s in
    rw (shown, selected, validate) refl
validate-selects hash t plain now (some r) e b s =
    let shown : is_blank (trim_space plain) ≡ false = rw e b in
    let selected : select (is_valid hash (trim_space plain) now) t.rows ≡ (some r) = rw e s in
    rw (shown, selected, validate) refl

-- A self-service token works exactly inside its claim window: issued at `now` with `ttl` seconds and
-- not used since, it is validated, as itself, at every time before `now + ttl`, and never from then
-- on. The bearer is one that trimming leaves as it is, and is not empty.
pub ephemeral_window :
    (hash : Text → Text) (t u : Table) (label plain p : Text) (ttl now id later : ℕ)
    → issue_ephemeral hash t label ttl plain now ≡ issued id p u
    → trim_space plain ≡ plain
    → is_blank plain ≡ false
    → (later < now + ttl → (r : Row) × ((validate hash u plain later).0 ≡ some r) × (r.id ≡ id))
      × (now + ttl ≤ later → (validate hash u plain later).0 ≡ none)
ephemeral_window hash t u label plain p ttl now id later h trimmed shown =
    let (alone, (r, rows, same, hashed, live, window)) =
      insert-issued hash (prune t now) u (trim_space label) plain p now id (some (now + ttl))
        (ephemeral-inserts hash t u label plain p ttl now id h) in
    let valid = valid_in_window hash plain (now + ttl) later r hashed live window in
    let p = is_valid hash plain later in
    let (first, others) = select-first p r (prune t now).rows in
    (
      λ l. (
        record r { expires_at = none },
        validate-selects hash u plain later (some r) trimmed shown
            (ap (select p) rows ∙ first (ground (arith, valid))),
        same,
      ),
      λ l. validate-selects hash u plain later none trimmed shown (
          ap (select p) rows
          ∙ others (ground (arith, valid))
          ∙ no-other hash plain later (prune t now).rows alone),
    )
