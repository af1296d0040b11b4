-- ===== src/Database.antt =====
-- `Migrate` of internal/database/migrations.go. The tables are any type `S`; a migration is its text,
-- and `exec` what SQLite makes of it, `none` for an error. A transaction that is not committed
-- leaves nothing. `version` is the `MAX(version)` of `schema_version`, which holds every number from
-- 1 up to it; the number is its primary key. A `Start` says whether that number could be read, and at
-- which version the attempt is cut off for another reason: no transaction can be begun, recorded or
-- committed.
pub mod Attempts
mod Tests
use airgapp_rpi.Base.{
  ℕ, ◌+◌, Bool, true, false, Option, none, some, List, [], ◌∷◌, drop, length, if◌then◌else◌, leb,
}
use airgapp_rpi.Base.Text.{Text}

pub record Db {ℓ} (S : Type ℓ) : Type ℓ where
  pub tables : S
  pub version : ℕ

pub record Start : Type 0 where
  pub reads : Bool
  pub fails : ℕ → Bool

module _ {ℓ} {S : Type ℓ} (exec : Text → S → Option S) where
  -- `INSERT INTO schema_version`: an error for a number that is there already.
  unfoldable pub record_version : ℕ → S → Db S → Option (Db S)
  record_version version t db =
      if leb version db.version then none else some (record { tables = t; version = version })

  -- The loop from a version on, over the migrations that are left: the version that failed, if one
  -- did.
  unfoldable pub migrate_from : (ℕ → Bool) → ℕ → List Text → Db S → Option ℕ × Db S
  migrate_from fails current [] db = (none, db)
  migrate_from fails current (m ∷ ms) db =
      let version = current + 1 in
      if fails version then (some version, db) else elim (exec m db.tables) [
        | none ↦ (some version, db)
        | some t ↦ elim (record_version version t db) [
          | none ↦ (some version, db)
          | some after ↦ migrate_from fails version ms after
        ]
      ]

  -- The statements of `localSeeds`, each on its own.
  unfoldable pub seed : List Text → Db S → Bool × Db S
  seed [] db = (true, db)
  seed (s ∷ seeds) db = elim (exec s db.tables) [
    | none ↦ (false, db)
    | some t ↦ seed seeds (record db { tables = t })
  ]

  -- Any error of the first query counts as version 0.
  abbrev pub current_version : Start → Db S → ℕ
  current_version attempt db = if attempt.reads then db.version else 0

  -- Whether there was no error, and the database afterwards.
  unfoldable pub migrate : List Text → List Text → Start → Db S → Bool × Db S
  migrate migrations seeds attempt db =
      let current = current_version attempt db in
      let (failed, after) = migrate_from attempt.fails current (drop current migrations) db in
      elim failed [ some version ↦ (false, after) | none ↦ seed seeds after ]
