-- ===== src/Database/Tests.antt =====
-- Runs of Database: the tables are the texts that were executed, the last one first.
use airgapp_rpi.Base.{ℕ, ◌≡◌, refl, true, false, Option, none, some, List, [], ◌∷◌, ◌==◌}
use airgapp_rpi.Base.Text.{Text, codes}
use airgapp_rpi.Database.{Db, Start, record_version, migrate_from, seed, migrate}
use airgapp_rpi.Database.Attempts.{exec_all, attempts, whole, attempts-resume}

-- An empty statement is an error.
abbrev exec : Text → List Text → Option (List Text)
exec [] tables = none
exec (c ∷ s) tables = some ((c ∷ s) ∷ tables)

abbrev migrations : List Text
migrations = codes "a" ∷ codes "b" ∷ codes "c" ∷ []

abbrev cut_at : ℕ → Start
cut_at n = record { reads = true; fails = λ v. v == n }

-- The first start is cut off at version 2, the second cannot read the version, the third is cut off at
-- version 3.
abbrev cuts : List Start
cuts = cut_at 2 ∷ record { reads = false; fails = λ v. false } ∷ cut_at 3 ∷ []

abbrev fresh : Db (List Text)
fresh = record { tables = []; version = 0 }

test_cut :
    migrate exec migrations [] (cut_at 2) fresh
    ≡ (false, record { tables = codes "a" ∷ []; version = 1 })
unfolding migrate migrate_from record_version
test_cut = refl

test_unread :
    (migrate exec migrations []
      (record { reads = false; fails = λ v. false })
      (record { tables = codes "a" ∷ []; version = 1 }))
    ≡ (false, record { tables = codes "a" ∷ []; version = 1 })
unfolding migrate migrate_from record_version
test_unread = refl

test_error : migrate exec ([] ∷ []) [] (whole exec) fresh ≡ (false, fresh)
unfolding migrate migrate_from record_version
test_error = refl

test_seeds :
    migrate exec [] (codes "s" ∷ []) (whole exec) fresh
    ≡ (true, record { tables = codes "s" ∷ []; version = 0 })
unfolding migrate migrate_from record_version seed
test_seeds = refl

attempts-resume_example :
    migrate exec migrations [] (whole exec) (attempts exec migrations cuts fresh)
    ≡ (true, record { tables = codes "c" ∷ codes "b" ∷ codes "a" ∷ []; version = 3 })
unfolding exec_all
attempts-resume_example =
    attempts-resume exec migrations [] (codes "c" ∷ codes "b" ∷ codes "a" ∷ []) cuts refl
