-- ===== src/Migrations/Tests.antt =====
-- Runs of the migrations on a schema that lists the versions executed.
use teskra.Base.{
  ℕ, true, false, inl, inr, List, [], ◌∷◌, ◌++◌, none, some, nat_eq, if◌then◌else◌, ◌≡◌, refl,
}
use teskra.Migrations.{Migration, Sql, Database, migration_failed, newer_database, run_migrations}
use teskra.Migrations.Runs.{Explained, run_migrations-Explained}
use teskra.Migrations.Again.{run_migrations-again}

-- Version 9 throws; a schema of more than four parts has dangling references.
abbrev log : Sql (List ℕ)
log = record {
  execute = λ on m s. if nat_eq m.version 9 then none else some (s ++ m.version ∷ []);
  violates = λ s. elim s [ _ ∷ _ ∷ _ ∷ _ ∷ _ ∷ _ ↦ true | _ ↦ false ];
}

abbrev plain : ℕ → Migration
plain v = record { version = v; name = "m"; foreign_keys_off = false }

abbrev rebuild : ℕ → Migration
rebuild v = record { version = v; name = "r"; foreign_keys_off = true }

abbrev gap : Database (List ℕ)
gap = record { schema = 1 ∷ 3 ∷ []; versions = 1 ∷ 3 ∷ []; foreign_keys = true }

abbrev three : List Migration
three = plain 3 ∷ plain 1 ∷ rebuild 2 ∷ []

abbrev filled : Database (List ℕ)
filled = record { schema = 1 ∷ 3 ∷ 2 ∷ []; versions = 1 ∷ 3 ∷ 2 ∷ []; foreign_keys = true }

-- A gap below the highest version is filled.
fills_gap :
    run_migrations log three gap
    ≡ (filled, inr (record { from_version = 3; to_version = 3; applied = 2 ∷ [] }))
unfolding run_migrations
fills_gap = refl

failed_run : run_migrations log (plain 9 ∷ plain 4 ∷ three) gap ≡ (
  record { schema = 1 ∷ 3 ∷ 2 ∷ 4 ∷ []; versions = 1 ∷ 3 ∷ 2 ∷ 4 ∷ []; foreign_keys = true },
  inl (migration_failed "m" 9 4),
)
unfolding run_migrations
failed_run = refl

-- A rebuild that leaves dangling references is rolled back, and the foreign keys are on again.
dangling_rebuild : run_migrations log (rebuild 5 ∷ plain 4 ∷ three) gap ≡ (
  record { schema = 1 ∷ 3 ∷ 2 ∷ 4 ∷ []; versions = 1 ∷ 3 ∷ 2 ∷ 4 ∷ []; foreign_keys = true },
  inl (migration_failed "r" 5 4),
)
unfolding run_migrations
dangling_rebuild = refl

newer_refused : run_migrations log (plain 1 ∷ []) gap ≡ (gap, inl (newer_database 3 1))
unfolding run_migrations
newer_refused = refl

run_migrations-Explained_example :
    Explained log (plain 9 ∷ three) gap (run_migrations log (plain 9 ∷ three) gap)
run_migrations-Explained_example = run_migrations-Explained log (plain 9 ∷ three) gap

run_migrations-again_example :
    run_migrations log three filled
    ≡ (filled, inr (record { from_version = 3; to_version = 3; applied = [] }))
run_migrations-again_example =
    run_migrations-again log three gap filled
      (record { from_version = 3; to_version = 3; applied = 2 ∷ [] }) fills_gap
