-- ===== src/Token.antt =====
-- internal/services/tesla_token.go: the bearer tokens, as operations on the rows of
-- `tesla_client_tokens`. A section's parameter `hash` is `hashTeslaToken`; the random bearer of an
-- issue and the database's clock are arguments. A statement of the database that fails otherwise
-- than by its constraints is not modelled.
pub mod Lookup
pub mod Fates
pub mod Ended
pub mod Claimed
pub mod Window
mod Tests
use airgapp_rpi.Base.{
  ℕ, ◌+◌, ◌-◌, Bool, true, false, not, ◌&&◌, ◌||◌, Option, none, some, List, [], ◌∷◌, length, map,
  any, keep, ltb, leb, ◌==◌, if◌then◌else◌, is_some,
}
use airgapp_rpi.Base.Text.{Text, str_eq, trim_space}

pub record Row : Type 0 where
  pub id : ℕ
  pub label : Text
  pub token_hash : Text
  pub token_plain : Text
  pub created_at : ℕ
  pub last_used_at : Option ℕ
  pub revoked_at : Option ℕ
  pub expires_at : Option ℕ

-- The rows, newest first, and the counter of AUTOINCREMENT: the largest id ever given. Times are in
-- whole seconds, as `CURRENT_TIMESTAMP` and the format of `expires_at` have them.
pub record Table : Type 0 where
  pub rows : List Row
  pub last_id : ℕ

abbrev pub new_table : Table
new_table = record { rows = []; last_id = 0 }

pub data TokenError : Type 0 where
  empty_name long_name bad_ttl duplicate not_found invalid : TokenError

pub data Outcome : Type 0 where
  refused : TokenError → Table → Outcome
  issued : ℕ → Text → Table → Outcome

abbrev pub has_id : ℕ → List Row → Bool
has_id id rows = any (λ r. r.id == id) rows

abbrev pub is_past : ℕ → Option ℕ → Bool
is_past now none = false
is_past now (some t) = leb t now

abbrev pub update_where : (Row → Bool) → (Row → Row) → List Row → List Row
update_where p f rows = map (λ r. if p r then f r else r) rows

-- The row that the condition of a query selects.
abbrev pub select : (Row → Bool) → List Row → Option Row
select p [] = none
select p (r ∷ rows) = if p r then some r else select p rows

abbrev pub is_blank : Text → Bool
is_blank [] = true
is_blank (c ∷ s) = false

-- The DELETE in `IssueEphemeral`.
unfoldable pub prune : Table → ℕ → Table
prune t now = record t { rows = keep (λ r. not (is_past now r.expires_at)) t.rows }

-- `List`, without its order.
unfoldable pub list : Table → List Row
list t = keep (λ r. not (is_some r.revoked_at)) t.rows

-- `Revoke`
unfoldable pub revoke : Table → ℕ → ℕ → Option TokenError × Table
revoke t id now = (
  if has_id id t.rows then none else some not_found,
  record t {
    rows =
        update_where (λ r. (r.id == id) && not (is_some r.revoked_at))
          (λ r. record r { revoked_at = some now }) t.rows;
  },
)

-- `Delete`
unfoldable pub delete : Table → ℕ → Option TokenError × Table
delete t id = (
  if has_id id t.rows then none else some not_found,
  record t { rows = keep (λ r. not (r.id == id)) t.rows },
)

module _ (hash : Text → Text) where
  abbrev pub new_row : Table → Text → Text → ℕ → Option ℕ → Row
  new_row t label plain now expires = record {
    id = t.last_id + 1;
    label = label;
    token_hash = hash plain;
    token_plain = plain;
    created_at = now;
    last_used_at = none;
    revoked_at = none;
    expires_at = expires;
  }

  -- The INSERT of both ways to issue: `token_hash` is unique.
  unfoldable pub insert : Table → Text → Text → ℕ → Option ℕ → Outcome
  insert t label plain now expires =
      if any (λ r. str_eq r.token_hash (hash plain)) t.rows
      then refused duplicate t
      else issued (t.last_id + 1) plain
          (record { rows = new_row t label plain now expires ∷ t.rows; last_id = t.last_id + 1 })

  unfoldable pub issue : Table → Text → Text → ℕ → Outcome
  unfolding insert
  issue t label plain now =
      let label' = trim_space label in
      if is_blank label'
      then refused empty_name t
      else if ltb 80 (length label')
      then refused long_name t
      else insert t label' plain now none

  unfoldable pub issue_ephemeral : Table → Text → ℕ → Text → ℕ → Outcome
  unfolding insert
  issue_ephemeral t label ttl plain now =
      let label' = trim_space label in
      if is_blank label'
      then refused empty_name t
      else if ltb 80 (length label')
      then refused long_name t
      else if ttl == 0
      then refused bad_ttl t
      else insert (prune t now) label' plain now (some (now + ttl))

  -- The WHERE of `Validate`.
  abbrev pub is_valid : Text → ℕ → Row → Bool
  is_valid plain now r =
      str_eq r.token_hash (hash plain)
      && (not (is_some r.revoked_at) && not (is_past now r.expires_at))

  -- The claim on first use, and the touch.
  abbrev pub use_row : ℕ → Row → Row
  use_row now r = record r { expires_at = none; last_used_at = some now }

  -- `Validate`: the row of the bearer, or `ErrTeslaTokenInvalid`.
  unfoldable pub validate : Table → Text → ℕ → Option Row × Table
  validate t bearer now =
      let plain = trim_space bearer in
      if is_blank plain then (none, t) else elim (select (is_valid plain now) t.rows) [
        | none ↦ (none, t)
        | some r ↦ (
          some (record r { expires_at = none }),
          record t { rows = update_where (λ q. q.id == r.id) (use_row now) t.rows },
        )
      ]
