-- ===== src/Database/Attempts.antt =====
-- What any number of starts leave in the database of internal/database/migrations.go.
use airgapp_rpi.Base.{
  ℕ, zero, suc, ◌+◌, ◌≤◌, ◌≡◌, refl, ap, sym, subst, ◌∙◌, Bool, true, false, Option, none, some,
  List, [], ◌∷◌, take, drop, length, length-drop, arith, Bool-cases, Option-cases, inl, inr, ◌>>=◌,
  ◌<◌, ◌⊎◌, leb,
}
use airgapp_rpi.Base.Text.{Text}
use airgapp_rpi.Database.{Db, Start, record_version, migrate_from, seed, current_version, migrate}

module _ {ℓ} {S : Type ℓ} (exec : Text → S → Option S) where
  -- All the migrations of a list, in order, in one go.
  unfoldable pub exec_all : List Text → S → Option S
  exec_all [] t = some t
  exec_all (m ∷ ms) t = exec m t >>= exec_all ms

  -- The database is what the first migrations, as many as its version says, make of the tables that
  -- it began with.
  pub record IsPrefix (migrations : List Text) (start : S) (db : Db S) : Type ℓ where
    pub known : db.version ≤ length migrations
    pub tables : exec_all (take db.version migrations) start ≡ some db.tables

  exec_all-next :
      (n : ℕ) (migrations : List Text) (m : Text) (ms : List Text) (start t u : S)
      → drop n migrations ≡ m ∷ ms
      → exec_all (take n migrations) start ≡ some t
      → exec m t ≡ some u
      → (exec_all (take (suc n) migrations) start ≡ some u)
        × ((drop (suc n) migrations ≡ ms) × (suc n ≤ length migrations))
  unfolding exec_all
  exec_all-next zero [] m ms start t u d e x = absurd cc
  exec_all-next zero (k ∷ ks) m ms start t u d e x =
      let first : k ≡ m = cc in
      let same : start ≡ t = ground arith in
      let rest : ks ≡ ms = cc in (rw (first, same, x) refl, (rest, omega arith))
  exec_all-next (suc n) [] m ms start t u d e x = absurd cc
  exec_all-next (suc n) (k ∷ ks) m ms start t u d e x = elim (Option-cases (exec k start)) [
    | inl q ↦ absurd (ground (arith, q))
    | inr (v, q) ↦
        let (a, (b, c)) = exec_all-next n ks m ms v t u d (rw q at e) x in
        (rw q a, (b, omega (arith, c)))
  ]

  abbrev db_of : S → ℕ → Db S
  db_of t v = record { tables = t; version = v }

  db-eq : (t u : S) (v w : ℕ) → t ≡ u → v ≡ w → db_of t v ≡ db_of u w
  db-eq t u v w e f = rw (e, f) refl

  -- An attempt that knows the version, cut off anywhere, goes from one prefix to another.
  migrate_from-IsPrefix :
      (migrations : List Text) (start : S) (fails : ℕ → Bool) (ms : List Text) (db : Db S)
      → drop db.version migrations ≡ ms
      → IsPrefix migrations start db
      → IsPrefix migrations start (migrate_from exec fails db.version ms db).1
  unfolding migrate_from record_version
  migrate_from-IsPrefix migrations start fails [] db d h = h
  migrate_from-IsPrefix migrations start fails (m ∷ ms) db d h =
      elim (Bool-cases (fails (db.version + 1))) [
        | inl f ↦ rw f h
        | inr f ↦ elim (Option-cases (exec m db.tables)) [
          | inl e ↦ rw (f, e) h
          | inr (t, e) ↦
              let (a, (b, c)) =
                exec_all-next db.version migrations m ms start db.tables t d h.tables e in
              let up : suc db.version ≡ db.version + 1 = omega arith in
              let fresh : leb (db.version + 1) db.version ≡ false = ground arith in
              let next : IsPrefix migrations start
                  (record { tables = t; version = db.version + 1 }) =
                record {
                  known = omega (arith, c);
                  tables = subst (λ n. exec_all (take n migrations) start ≡ some t) up a;
                } in
              rw (f, e, fresh)
                (migrate_from-IsPrefix migrations start fails ms
                  (record { tables = t; version = db.version + 1 })
                  (subst (λ n. drop n migrations ≡ ms) up b) next)
        ]
      ]

  -- One that goes below the version changes nothing: its first number is taken.
  migrate_from-taken :
      (fails : ℕ → Bool) (current : ℕ) (ms : List Text) (db : Db S)
      → current < db.version
      → (migrate_from exec fails current ms db).1 ≡ db
  unfolding migrate_from record_version
  migrate_from-taken fails current [] db l = refl
  migrate_from-taken fails current (m ∷ ms) db l =
      let taken : leb (current + 1) db.version ≡ true = ground arith in
      elim (Bool-cases (fails (current + 1))) [
        | inl f ↦ rw f refl
        | inr f ↦ elim (Option-cases (exec m db.tables)) [
          | inl e ↦ rw (f, e) refl
          | inr (t, e) ↦ rw (f, e, taken) refl
        ]
      ]

  migrate_from-any :
      (migrations : List Text) (start : S) (fails : ℕ → Bool) (current : ℕ) (db : Db S)
      → (current ≡ db.version) ⊎ (current < db.version)
      → IsPrefix migrations start db
      → IsPrefix migrations start (migrate_from exec fails current (drop current migrations) db).1
  migrate_from-any migrations start fails current db (inl e) h =
      rw e (migrate_from-IsPrefix migrations start fails (drop db.version migrations) db refl h)
  migrate_from-any migrations start fails current db (inr l) h =
      rw (migrate_from-taken fails current (drop current migrations) db l) h

  current_version-cases :
      (attempt : Start) (db : Db S)
      → (current_version exec attempt db ≡ db.version)
        ⊎ (current_version exec attempt db < db.version)
  current_version-cases attempt db = elim (Bool-cases attempt.reads) [
    | inl e ↦ inl (rw e refl)
    | inr e ↦ elim (Bool-cases (leb db.version 0)) [
      | inl z ↦ inl (rw e (ground arith))
      | inr p ↦ inr (rw e (ground arith))
    ]
  ]

  exec_all-split :
      (n : ℕ) (migrations : List Text) (start : S)
      → exec_all migrations start
        ≡ (exec_all (take n migrations) start >>= exec_all (drop n migrations))
  unfolding exec_all
  exec_all-split zero migrations start = refl
  exec_all-split (suc n) [] start = refl
  exec_all-split (suc n) (m ∷ ms) start = elim (Option-cases (exec m start)) [
    | inl e ↦ rw e refl
    | inr (t, e) ↦ rw e (exec_all-split n ms t)
  ]

  migrate_from-clean :
      (ms : List Text) (db : Db S) (t : S)
      → exec_all ms db.tables ≡ some t
      → migrate_from exec (λ version. false) db.version ms db
        ≡ (none, record { tables = t; version = db.version + length ms })
  unfolding migrate_from record_version exec_all
  migrate_from-clean [] db t h =
      let same : db.tables ≡ t = ground arith in
      let none_more : db.version ≡ db.version + 0 = omega arith in
      ap (λ d. (none, d)) (db-eq db.tables t db.version (db.version + 0) same none_more)
  migrate_from-clean (m ∷ ms) db t h = elim (Option-cases (exec m db.tables)) [
    | inl e ↦ absurd (ground (arith, e))
    | inr (u, e) ↦
        let step : db.version + 1 + length ms ≡ db.version + suc (length ms) = omega arith in
        let fresh : leb (db.version + 1) db.version ≡ false = ground arith in
        rw (e, fresh)
          (migrate_from-clean ms (record { tables = u; version = db.version + 1 }) t (rw e at h)
            ∙ ap (λ d. (none, d)) (db-eq t t _ _ refl step))
  ]

  -- The database after starts that are cut off at the given places.
  unfoldable pub attempts : List Text → List Start → Db S → Db S
  attempts migrations [] db = db
  attempts migrations (attempt ∷ cuts) db =
      attempts migrations cuts (migrate exec migrations [] attempt db).1

  migrate-IsPrefix :
      (migrations : List Text) (start : S) (attempt : Start) (db : Db S)
      → IsPrefix migrations start db
      → IsPrefix migrations start (migrate exec migrations [] attempt db).1
  unfolding migrate seed
  migrate-IsPrefix migrations start attempt db h =
      let current = current_version exec attempt db in
      let p =
        migrate_from-any migrations start attempt.fails current db
          (current_version-cases attempt db) h in
      elim (Option-cases (migrate_from exec attempt.fails current (drop current migrations) db).0) [
        | inl e ↦ rw (e, migrate, seed) p
        | inr (v, e) ↦ rw (e, migrate) p
      ]

  attempts-IsPrefix :
      (migrations : List Text) (start : S) (cuts : List Start) (db : Db S)
      → IsPrefix migrations start db
      → IsPrefix migrations start (attempts migrations cuts db)
  unfolding attempts
  attempts-IsPrefix migrations start [] db h = h
  attempts-IsPrefix migrations start (attempt ∷ cuts) db h =
      attempts-IsPrefix migrations start cuts (migrate exec migrations [] attempt db).1
        (migrate-IsPrefix migrations start attempt db h)

  nothing_yet : (start : S) → exec_all [] start ≡ some start
  unfolding exec_all
  nothing_yet start = refl

  -- A start that reads the version and is not cut off.
  abbrev pub whole : Start
  whole = record { reads = true; fails = λ version. false }

  migrate-clean :
      (migrations : List Text) (db after : Db S)
      → migrate_from exec (λ version. false) db.version (drop db.version migrations) db
        ≡ (none, after)
      → migrate exec migrations [] whole db ≡ (true, after)
  unfolding migrate seed
  migrate-clean migrations db after e =
      ap {B = Bool × Db S} (λ r. elim r.0 [ some version ↦ (false, r.1) | none ↦ seed exec [] r.1 ])
        e

  -- However often the migration is started and cut off, at whatever version, also when the version
  -- could not be read and it began at the first migration again: a start that reads the version and
  -- is not cut off ends without an error, at the last version, with the tables that all migrations
  -- in one go would have made. None is left out, and none is made twice. All migrations in one go
  -- give no error, and there are no local seeds.
  pub attempts-resume :
      (migrations : List Text) (start t : S) (cuts : List Start)
      → exec_all migrations start ≡ some t
      → migrate exec migrations [] whole
          (attempts migrations cuts (record { tables = start; version = 0 }))
        ≡ (true, record { tables = t; version = length migrations })
  attempts-resume migrations start t cuts h =
      let fresh : Db S = record { tables = start; version = 0 } in
      let db = attempts migrations cuts fresh in
      let p =
        attempts-IsPrefix migrations start cuts fresh
          (record { known = omega arith; tables = nothing_yet start }) in
      let rest : exec_all (drop db.version migrations) db.tables ≡ some t =
        rw p.tables at (sym (exec_all-split db.version migrations start) ∙ h) in
      let total : db.version + length (drop db.version migrations) ≡ length migrations =
        omega (arith, length-drop db.version migrations, p.known) in
      migrate-clean migrations db _ (migrate_from-clean (drop db.version migrations) db t rest)
      ∙ ap (λ d. (true, d)) (db-eq t t _ _ refl total)
