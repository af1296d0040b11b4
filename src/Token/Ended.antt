-- ===== src/Token/Ended.antt =====
-- Tokens that were revoked or removed (internal/services/tesla_token.go).
use airgapp_rpi.Base.{
  ℕ, ◌+◌, ◌≤◌, ◌≡◌, ◌≢◌, true, not, ◌&&◌, Option, none, some, List, [], ◌∷◌, any, All, arith, ◌==◌,
  is_some, Bool-cases, inl, inr,
}
use airgapp_rpi.Base.Text.{Text, str_eq, trim_space}
use airgapp_rpi.Token.{
  Row, Table, new_table, has_id, prune, revoke, delete, insert, use_row, validate,
}
use airgapp_rpi.Token.Lookup.{All-update, All-keep}
use airgapp_rpi.Token.Fates.{
  Op, issue_op, ephemeral_op, revoke_op, delete_op, validate_op, after, apply, run, IsCounted,
  run-IsDead, dead_never_validates, revoked-IsDead, deleted-IsDead, issue-table, ephemeral-table,
  validate-table,
}

All-weaken :
    (m n : ℕ) (rows : List Row) → m ≤ n → All (λ r. r.id ≤ m) rows → All (λ r. r.id ≤ n) rows
All-weaken m n [] l h = tt
All-weaken m n (r ∷ rows) l (k, h) = (omega (arith, k), All-weaken m n rows l h)

module _ (hash : Text → Text) where
  insert-IsCounted :
      (t : Table) (label plain : Text) (now : ℕ) (expires : Option ℕ)
      → IsCounted hash t
      → IsCounted hash (after (insert hash t label plain now expires))
  unfolding insert
  insert-IsCounted t label plain now expires h =
      elim (Bool-cases (any (λ r. str_eq r.token_hash (hash plain)) t.rows)) [
        | inl q ↦ rw (q, insert) h
        | inr q ↦
            rw (q, insert)
              (omega arith, All-weaken t.last_id (t.last_id + 1) t.rows (omega arith) h)
      ]

  prune-IsCounted : (t : Table) (now : ℕ) → IsCounted hash t → IsCounted hash (prune t now)
  unfolding prune
  prune-IsCounted t now h = All-keep _ _ t.rows h

  revoke-IsCounted :
      (t : Table) (id now : ℕ) → IsCounted hash t → IsCounted hash (revoke t id now).1
  unfolding revoke
  revoke-IsCounted t id now h =
      All-update _ (λ r. (r.id == id) && not (is_some r.revoked_at))
        (λ r. record r { revoked_at = some now }) t.rows (λ r k. k) h

  delete-IsCounted : (t : Table) (id : ℕ) → IsCounted hash t → IsCounted hash (delete t id).1
  unfolding delete
  delete-IsCounted t id h = All-keep _ _ t.rows h

  apply-IsCounted : (t : Table) (op : Op) → IsCounted hash t → IsCounted hash (apply hash t op)
  apply-IsCounted t (issue_op label plain now) h =
      issue-table hash (IsCounted hash) t label plain now h
        (insert-IsCounted t (trim_space label) plain now none h)
  apply-IsCounted t (ephemeral_op label ttl plain now) h =
      ephemeral-table hash (IsCounted hash) t label ttl plain now h (
        insert-IsCounted (prune t now) (trim_space label) plain now (some (now + ttl))
          (prune-IsCounted t now h))
  apply-IsCounted t (revoke_op id now) h = revoke-IsCounted t id now h
  apply-IsCounted t (delete_op id) h = delete-IsCounted t id h
  apply-IsCounted t (validate_op bearer now) h =
      validate-table hash (IsCounted hash) t bearer now h
        (λ i. All-update _ (λ r. r.id == i) (use_row hash now) t.rows (λ r k. k) h)

  run-IsCounted : (t : Table) (ops : List Op) → IsCounted hash t → IsCounted hash (run hash t ops)
  run-IsCounted t [] h = h
  run-IsCounted t (op ∷ ops) h = run-IsCounted (apply hash t op) ops (apply-IsCounted t op h)

  -- A token that has been revoked never opens the door again: after any calls of the service, a
  -- revocation of an id in the table, and any further calls, no bearer is validated as that id.
  pub revoked_never_validates :
      (earlier later : List Op) (id revoked_at : ℕ)
      → has_id id (run hash new_table earlier).rows ≡ true
      → (bearer : Text) (now : ℕ) (r : Row)
      → (validate hash
          (run hash (revoke (run hash new_table earlier) id revoked_at).1 later)
          bearer
          now).0
        ≡ some r
      → r.id ≢ id
  revoked_never_validates earlier later id revoked_at k bearer now r =
      let dead =
        revoked-IsDead hash id (run hash new_table earlier) revoked_at
          (run-IsCounted new_table earlier tt) k in
      dead_never_validates hash id _ bearer now r (run-IsDead hash id _ later dead)

  -- A token that has been removed never opens the door again, and its id is never given to another:
  -- after any calls of the service, the removal of an id in the table, and any further calls, no
  -- bearer is validated as that id.
  deleted_never_validates :
      (earlier later : List Op) (id : ℕ)
      → has_id id (run hash new_table earlier).rows ≡ true
      → (bearer : Text) (now : ℕ) (r : Row)
      → (validate hash (run hash (delete (run hash new_table earlier) id).1 later) bearer now).0
        ≡ some r
      → r.id ≢ id
  deleted_never_validates earlier later id k bearer now r =
      let dead =
        deleted-IsDead hash id (run hash new_table earlier) (run-IsCounted new_table earlier tt)
          k in
      dead_never_validates hash id _ bearer now r (run-IsDead hash id _ later dead)
