-- ===== src/Token/Claimed.antt =====
-- Tokens that were issued and used (internal/services/tesla_token.go).
use airgapp_rpi.Base.{
  ℕ, ◌+◌, ◌≡◌, refl, Bool, true, false, not, ◌&&◌, Option, none, some, List, [], ◌∷◌, any, All,
  arith, ◌==◌, is_some, Bool-cases, Option-cases, inl, inr,
}
use airgapp_rpi.Base.Text.{Text, str_eq, trim_space}
use airgapp_rpi.Token.{
  Row, Table, is_past, is_blank, update_where, select, prune, revoke, delete, insert, is_valid,
  use_row, validate,
}
use airgapp_rpi.Token.Lookup.{select-finds, any-update, any-keep}
use airgapp_rpi.Token.Fates.{
  Op, issue_op, ephemeral_op, revoke_op, delete_op, validate_op, after, apply, run, issue-table,
  ephemeral-table, validate-table, validate-found,
}

-- The call revokes or removes the id.
abbrev pub ends : ℕ → Op → Bool
ends id (revoke_op i now) = i == id
ends id (delete_op i) = i == id
ends id _ = false

module _ (hash : Text → Text) where
  -- The row with this id is permanent for this bearer.
  abbrev is_permanent : ℕ → Text → Row → Bool
  is_permanent id plain r =
      (r.id == id)
      && (str_eq r.token_hash (hash plain)
          && (not (is_some r.revoked_at) && not (is_some r.expires_at)))

  abbrev HasPermanent : ℕ → Text → Table → Type 0
  HasPermanent id plain t = any (is_permanent id plain) t.rows ≡ true

  insert-HasPermanent :
      (id : ℕ) (bearer : Text) (t : Table) (label plain : Text) (now : ℕ) (expires : Option ℕ)
      → HasPermanent id bearer t
      → HasPermanent id bearer (after (insert hash t label plain now expires))
  unfolding insert
  insert-HasPermanent id bearer t label plain now expires h =
      elim (Bool-cases (any (λ r. str_eq r.token_hash (hash plain)) t.rows)) [
        | inl q ↦ rw (q, insert) h
        | inr q ↦ rw (q, insert) (ground arith)
      ]

  prune-HasPermanent :
      (id : ℕ) (bearer : Text) (t : Table) (now : ℕ)
      → HasPermanent id bearer t
      → HasPermanent id bearer (prune t now)
  unfolding prune
  prune-HasPermanent id bearer t now h =
      any-keep (is_permanent id bearer) _ t.rows (λ r k. unexpiring r k) h
    where
      unexpiring :
          (r : Row) → is_permanent id bearer r ≡ true → not (is_past now r.expires_at) ≡ true
      unexpiring r k = elim (Option-cases r.expires_at) [
        | inl q ↦ rw q refl
        | inr (e, q) ↦ absurd (ground arith)
      ]

  apply-HasPermanent :
      (id : ℕ) (bearer : Text) (t : Table) (op : Op)
      → ends id op ≡ false
      → HasPermanent id bearer t
      → HasPermanent id bearer (apply hash t op)
  unfolding revoke delete
  apply-HasPermanent id bearer t (issue_op label plain now) n h =
      issue-table hash (HasPermanent id bearer) t label plain now h
        (insert-HasPermanent id bearer t (trim_space label) plain now none h)
  apply-HasPermanent id bearer t (ephemeral_op label ttl plain now) n h =
      ephemeral-table hash (HasPermanent id bearer) t label ttl plain now h (
        insert-HasPermanent id bearer (prune t now) (trim_space label) plain now (some (now + ttl))
          (prune-HasPermanent id bearer t now h))
  apply-HasPermanent id bearer t (revoke_op i now) n h =
      any-update (is_permanent id bearer) (λ r. (r.id == i) && not (is_some r.revoked_at))
        (λ r. record r { revoked_at = some now }) t.rows (λ r k w. absurd (ground arith)) h
  apply-HasPermanent id bearer t (delete_op i) n h =
      any-keep (is_permanent id bearer) (λ r. not (r.id == i)) t.rows (λ r k. ground arith) h
  apply-HasPermanent id bearer t (validate_op b now) n h =
      validate-table hash (HasPermanent id bearer) t b now h (λ i.
        any-update (is_permanent id bearer) (λ r. r.id == i) (use_row hash now) t.rows
          (λ r k w. ground arith) h)

  run-HasPermanent :
      (id : ℕ) (bearer : Text) (t : Table) (ops : List Op)
      → All (λ op. ends id op ≡ false) ops
      → HasPermanent id bearer t
      → HasPermanent id bearer (run hash t ops)
  run-HasPermanent id bearer t [] n h = h
  run-HasPermanent id bearer t (op ∷ ops) (m, n) h =
      run-HasPermanent id bearer (apply hash t op) ops n (apply-HasPermanent id bearer t op m h)

  claimed-rows :
      (plain : Text) (now : ℕ) (s : Row) (rows : List Row)
      → select (is_valid hash plain now) rows ≡ some s
      → any (is_permanent s.id plain) (update_where (λ q. q.id == s.id) (use_row hash now) rows)
        ≡ true
  claimed-rows plain now s [] e = cc
  claimed-rows plain now s (r ∷ rows) e = ground (arith, claimed-rows plain now s rows)

  -- A successful validation makes the row permanent.
  validated-HasPermanent :
      (t : Table) (bearer : Text) (now : ℕ) (r : Row)
      → (validate hash t bearer now).0 ≡ some r
      → (is_blank (trim_space bearer) ≡ false)
        × HasPermanent r.id (trim_space bearer) (validate hash t bearer now).1
  unfolding validate
  validated-HasPermanent t bearer now r h = elim (Bool-cases (is_blank (trim_space bearer))) [
    | inl q ↦ absurd (ground arith)
    | inr q ↦
        let (s, e, same) = validate-found hash t bearer now r h in
        (q, rw (q, e, same, validate) (claimed-rows (trim_space bearer) now s t.rows e))
  ]

  permanent-valid :
      (id later : ℕ) (plain : Text) (rows : List Row)
      → any (is_permanent id plain) rows ≡ true
      → any (is_valid hash plain later) rows ≡ true
  permanent-valid id later plain [] h = cc
  permanent-valid id later plain (r ∷ rows) h = ground (arith, permanent-valid id later plain rows)

  pub validates :
      (t : Table) (bearer : Text) (now : ℕ)
      → is_blank (trim_space bearer) ≡ false
      → any (is_valid hash (trim_space bearer) now) t.rows ≡ true
      → (r : Row) × ((validate hash t bearer now).0 ≡ some r)
  unfolding validate
  validates t bearer now b h =
      let (s, e) = select-finds (is_valid hash (trim_space bearer) now) t.rows h in
      (record s { expires_at = none }, rw (b, e, validate) refl)

  -- A bearer that has been used once is permanent: whatever calls of the service come between, as
  -- long as its id is neither revoked nor removed, it is validated at every later time, also long
  -- after the end of its claim window.
  pub claimed_forever :
      (t : Table) (bearer : Text) (now : ℕ) (r : Row)
      → (validate hash t bearer now).0 ≡ some r
      → (ops : List Op) → All (λ op. ends r.id op ≡ false) ops
      → (later : ℕ)
      → (s : Row) × ((validate hash (run hash (validate hash t bearer now).1 ops) bearer later).0
          ≡ some s)
  claimed_forever t bearer now r h ops n later =
      let (shown, permanent) = validated-HasPermanent t bearer now r h in
      validates (run hash (validate hash t bearer now).1 ops) bearer later shown (
        permanent-valid r.id later (trim_space bearer) _ (
          run-HasPermanent r.id (trim_space bearer) (validate hash t bearer now).1 ops n permanent))
