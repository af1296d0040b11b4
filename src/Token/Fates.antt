-- ===== src/Token/Fates.antt =====
-- What becomes of a token of internal/services/tesla_token.go, over any sequence of operations.
use airgapp_rpi.Base.{
  ℕ, ◌+◌, ◌≤◌, ◌≡◌, ◌≢◌, refl, true, not, ◌&&◌, Option, none, some, List, [], ◌∷◌, any, All, arith,
  ◌==◌, Bool-cases, Option-cases, inl, inr, is_some,
}
use airgapp_rpi.Base.Text.{Text, str_eq, trim_space}
use airgapp_rpi.Token.{
  Row, Table, Outcome, refused, issued, has_id, is_blank, update_where, select, prune, revoke,
  delete, insert, issue, issue_ephemeral, is_valid, use_row, validate,
}
use airgapp_rpi.Token.Lookup.{
  select-finds, select-holds, select-All, All-update, All-keep, keep-All,
}

-- A call of the service, with the bearer and the time that it gets.
pub data Op : Type 0 where
  issue_op : (label plain : Text) (now : ℕ) → Op
  ephemeral_op : (label : Text) (ttl : ℕ) (plain : Text) (now : ℕ) → Op
  revoke_op : (id now : ℕ) → Op
  delete_op : (id : ℕ) → Op
  validate_op : (bearer : Text) (now : ℕ) → Op

abbrev pub after : Outcome → Table
after (refused e u) = u
after (issued id plain u) = u

module _ (hash : Text → Text) where
  abbrev pub apply : Table → Op → Table
  apply t (issue_op label plain now) = after (issue hash t label plain now)
  apply t (ephemeral_op label ttl plain now) = after (issue_ephemeral hash t label ttl plain now)
  apply t (revoke_op id now) = (revoke t id now).1
  apply t (delete_op id) = (delete t id).1
  apply t (validate_op bearer now) = (validate hash t bearer now).1

  abbrev pub run : Table → List Op → Table
  run t [] = t
  run t (op ∷ ops) = run (apply t op) ops

  -- No row has a larger id than the counter.
  abbrev pub IsCounted : Table → Type 0
  IsCounted t = All (λ r. r.id ≤ t.last_id) t.rows

  -- The id was given, and whatever row has it is revoked.
  pub record IsDead (id : ℕ) (t : Table) : Type 0 where
    pub given : id ≤ t.last_id
    pub no_live : All (λ r. r.id ≡ id → is_some r.revoked_at ≡ true) t.rows

  insert-IsDead :
      (id : ℕ) (t : Table) (label plain : Text) (now : ℕ) (expires : Option ℕ)
      → IsDead id t
      → IsDead id (after (insert hash t label plain now expires))
  unfolding insert
  insert-IsDead id t label plain now expires h =
      elim (Bool-cases (any (λ r. str_eq r.token_hash (hash plain)) t.rows)) [
        | inl q ↦ rw (q, insert) h
        | inr q ↦
            rw (q, insert)
              record {
                given = omega (arith, h.given);
                no_live = (λ e. absurd (omega (arith, h.given)), h.no_live);
              }
      ]

  prune-IsDead : (id : ℕ) (t : Table) (now : ℕ) → IsDead id t → IsDead id (prune t now)
  unfolding prune
  prune-IsDead id t now h = record { given = h.given; no_live = All-keep _ _ t.rows h.no_live }

  -- What a validation makes of the table.
  pub validate-table :
      (P : Table → Type 0) (t : Table) (bearer : Text) (now : ℕ)
      → P t
      → ((id : ℕ)
          → P (record t { rows = update_where (λ q. q.id == id) (use_row hash now) t.rows }))
      → P (validate hash t bearer now).1
  unfolding validate
  validate-table P t bearer now h k = elim (Bool-cases (is_blank (trim_space bearer))) [
    | inl q ↦ rw (q, validate) h
    | inr q ↦ elim (Option-cases (select (is_valid hash (trim_space bearer) now) t.rows)) [
      | inl n ↦ rw (q, n, validate) h
      | inr (r, e) ↦ rw (q, e, validate) (k r.id)
    ]
  ]

  validate-IsDead :
      (id : ℕ) (t : Table) (bearer : Text) (now : ℕ)
      → IsDead id t
      → IsDead id (validate hash t bearer now).1
  validate-IsDead id t bearer now h =
      validate-table (IsDead id) t bearer now h
        (λ i. record { given = h.given; no_live = All-update _ _ _ t.rows (λ r k. k) h.no_live })

  revoke-IsDead : (id : ℕ) (t : Table) (i now : ℕ) → IsDead id t → IsDead id (revoke t i now).1
  unfolding revoke
  revoke-IsDead id t i now h = record {
    given = h.given;
    no_live =
        All-update _ (λ r. (r.id == i) && not (is_some r.revoked_at))
          (λ r. record r { revoked_at = some now }) t.rows (λ r k e. refl) h.no_live;
  }

  delete-IsDead : (id : ℕ) (t : Table) (i : ℕ) → IsDead id t → IsDead id (delete t i).1
  unfolding delete
  delete-IsDead id t i h = record { given = h.given; no_live = All-keep _ _ t.rows h.no_live }

  -- An issue ends with an insertion or leaves the table as it is.
  pub issue-table :
      (P : Table → Type 0) (t : Table) (label plain : Text) (now : ℕ)
      → P t
      → P (after (insert hash t (trim_space label) plain now none))
      → P (after (issue hash t label plain now))
  unfolding issue
  issue-table P t label plain now h k = ground arith

  pub ephemeral-table :
      (P : Table → Type 0) (t : Table) (label : Text) (ttl : ℕ) (plain : Text) (now : ℕ)
      → P t
      → P (after (insert hash (prune t now) (trim_space label) plain now (some (now + ttl))))
      → P (after (issue_ephemeral hash t label ttl plain now))
  unfolding issue_ephemeral
  ephemeral-table P t label ttl plain now h k = ground arith

  apply-IsDead : (id : ℕ) (t : Table) (op : Op) → IsDead id t → IsDead id (apply t op)
  apply-IsDead id t (issue_op label plain now) h =
      issue-table (IsDead id) t label plain now h
        (insert-IsDead id t (trim_space label) plain now none h)
  apply-IsDead id t (ephemeral_op label ttl plain now) h =
      ephemeral-table (IsDead id) t label ttl plain now h (
        insert-IsDead id (prune t now) (trim_space label) plain now (some (now + ttl))
          (prune-IsDead id t now h))
  apply-IsDead id t (revoke_op i now) h = revoke-IsDead id t i now h
  apply-IsDead id t (delete_op i) h = delete-IsDead id t i h
  apply-IsDead id t (validate_op bearer now) h = validate-IsDead id t bearer now h

  pub run-IsDead : (id : ℕ) (t : Table) (ops : List Op) → IsDead id t → IsDead id (run t ops)
  run-IsDead id t [] h = h
  run-IsDead id t (op ∷ ops) h = run-IsDead id (apply t op) ops (apply-IsDead id t op h)

  -- What a validation that succeeds found.
  pub validate-found :
      (t : Table) (bearer : Text) (now : ℕ) (r : Row)
      → (validate hash t bearer now).0 ≡ some r
      → (s : Row) × (select (is_valid hash (trim_space bearer) now) t.rows ≡ some s)
        × (r ≡ record s { expires_at = none })
  unfolding validate
  validate-found t bearer now r h = elim (Bool-cases (is_blank (trim_space bearer))) [
    | inl q ↦ absurd (ground arith)
    | inr q ↦ elim (Option-cases (select (is_valid hash (trim_space bearer) now) t.rows)) [
      | inl n ↦ absurd (ground arith)
      | inr (s, e) ↦ (s, e, ground arith)
    ]
  ]

  pub dead_never_validates :
      (id : ℕ) (t : Table) (bearer : Text) (now : ℕ) (r : Row)
      → IsDead id t
      → (validate hash t bearer now).0 ≡ some r
      → r.id ≢ id
  dead_never_validates id t bearer now r h e i =
      let (s, f, same) = validate-found t bearer now r e in
      let live = select-holds (is_valid hash (trim_space bearer) now) t.rows s f in
      let dead = select-All _ (is_valid hash (trim_space bearer) now) t.rows s h.no_live f in
      absurd (ground (arith, dead, live))

  id-counted : (id : ℕ) (t : Table) → IsCounted t → has_id id t.rows ≡ true → id ≤ t.last_id
  id-counted id t c h =
      let (r, e) = select-finds (λ r. r.id == id) t.rows h in
      let same = select-holds (λ r. r.id == id) t.rows r e in
      let small = select-All (λ r. r.id ≤ t.last_id) (λ r. r.id == id) t.rows r c e in
      ground (arith, same, small)

  revoked-rows :
      (id now : ℕ) (rows : List Row)
      → All
          (λ r. r.id ≡ id → is_some r.revoked_at ≡ true)
          (update_where
            (λ r. (r.id == id) && not (is_some r.revoked_at))
            (λ r. record r { revoked_at = some now })
            rows)
  revoked-rows id now [] = tt
  revoked-rows id now (r ∷ rows) = (λ e. ground arith, revoked-rows id now rows)

  pub revoked-IsDead :
      (id : ℕ) (t : Table) (now : ℕ)
      → IsCounted t
      → has_id id t.rows ≡ true
      → IsDead id (revoke t id now).1
  unfolding revoke
  revoked-IsDead id t now c h = record {
    given = id-counted id t c h;
    no_live = revoked-rows id now t.rows;
  }

  pub deleted-IsDead :
      (id : ℕ) (t : Table) → IsCounted t → has_id id t.rows ≡ true → IsDead id (delete t id).1
  unfolding delete
  deleted-IsDead id t c h = record {
    given = id-counted id t c h;
    no_live = keep-All _ (λ r. not (r.id == id)) t.rows (λ r k e. absurd (ground arith));
  }
