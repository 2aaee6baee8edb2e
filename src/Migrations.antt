-- ===== src/Migrations.antt =====
-- apps/desktop/src/main/db/migrate.ts: the versions of the database schema. What SQL and the hook of a
-- migration do to the schema is given by `Sql`. A version is a natural number: one that is negative or
-- no integer is refused like 0. The rows of schema_migrations are kept without their time.
pub mod Sorted
pub mod Runs
pub mod Again
pub mod Tests
use teskra.Base.{
  String, ℕ, ◌+◌, max, Bool, true, false, not, ◌&&◌, ◌||◌, ◌⊎◌, inl, inr, List, [], ◌∷◌, ◌++◌, map,
  Option, none, some, keep, nat_eq, leb, ltb, if◌then◌else◌,
}

pub record Migration : Type 0 where
  pub version : ℕ
  pub name : String
  pub foreign_keys_off : Bool

-- `execute` runs the statements and the hook with the foreign keys on or off; none: it throws.
pub record Sql (S : Type 0) : Type 0 where
  pub execute : (foreign_keys : Bool) → Migration → S → Option S
  pub violates : S → Bool

pub record Database (S : Type 0) : Type 0 where
  pub schema : S
  pub versions : List ℕ
  pub foreign_keys : Bool

pub data MigrationError : Type 0 where
  invalid_version : (name : String) → MigrationError
  duplicate_version : ℕ → (name : String) → MigrationError
  newer_database : (from_version code_version : ℕ) → MigrationError
  migration_failed : (name : String) (version current : ℕ) → MigrationError

pub record RunResult : Type 0 where
  pub from_version : ℕ
  pub to_version : ℕ
  pub applied : List ℕ

abbrev pub has : List ℕ → ℕ → Bool
has [] v = false
has (x ∷ xs) v = nat_eq x v || has xs v

-- `MAX(version)`, 0 where there is no row.
abbrev pub current_version : List ℕ → ℕ
current_version [] = 0
current_version (v ∷ vs) = max v (current_version vs)

abbrev pub version_of : Migration → ℕ
version_of m = m.version

pub insert_by_version : Migration → List Migration → List Migration
insert_by_version m [] = m ∷ []
insert_by_version m (n ∷ ns) =
    if leb m.version n.version then m ∷ n ∷ ns else n ∷ insert_by_version m ns

-- `[...migrations].sort((a, b) => a.version - b.version)`
pub sort_by_version : List Migration → List Migration
unfolding insert_by_version
sort_by_version [] = []
sort_by_version (m ∷ ms) = insert_by_version m (sort_by_version ms)

-- The first fault of the list, in its order; `seen` are the versions before.
unfoldable pub fault : List ℕ → List Migration → Option MigrationError
fault seen [] = none
fault seen (m ∷ ms) =
    let later = fault (m.version ∷ seen) ms in
    if nat_eq m.version 0
    then some (invalid_version m.name)
    else if has seen m.version
    then some (duplicate_version m.version m.name)
    else later

unfoldable pub normalize : List Migration → MigrationError ⊎ List Migration
unfolding fault sort_by_version
normalize ms = elim (fault [] ms) [ some e ↦ inl e | none ↦ inr (sort_by_version ms) ]

-- The version of the last of a sorted list, 0 where there is none.
abbrev pub code_version : List Migration → ℕ
code_version [] = 0
code_version (m ∷ []) = m.version
code_version (m ∷ n ∷ ns) = code_version (n ∷ ns)

module _ {S : Type 0} (sql : Sql S) where
  -- `foreign_keys = OFF`, and ON again in the end, around the transaction.
  abbrev pub switched : Bool → Migration → Database S → Database S
  switched on m db = if m.foreign_keys_off then record db { foreign_keys = on } else db

  -- The transaction; none: it throws and is rolled back. A version is a primary key.
  abbrev pub recorded : Migration → Database S → S → Option (Database S)
  recorded m db schema =
      if m.foreign_keys_off && sql.violates schema
      then none
      else if has db.versions m.version
      then none
      else some (record db { schema = schema; versions = db.versions ++ m.version ∷ [] })

  abbrev pub transaction : Migration → Database S → Option (Database S)
  transaction m db = elim (sql.execute db.foreign_keys m db.schema) [
    | none ↦ none
    | some schema ↦ recorded m db schema
  ]

  -- One migration: the database after it, and whether it was applied.
  unfoldable pub migrate_one : Migration → Database S → Database S × Bool
  migrate_one m db = elim (transaction m (switched false m db)) [
    | none ↦ (switched true m db, false)
    | some db' ↦ (switched true m db', true)
  ]

  -- A failure ends the loop.
  abbrev pub after_one :
      Migration
      → Database S × Bool
      → (Database S → Database S × (MigrationError ⊎ List ℕ))
      → Database S × (MigrationError ⊎ List ℕ)
  after_one m (db, false) rest =
      (db, inl (migration_failed m.name m.version (current_version db.versions)))
  after_one m (db, true) rest = rest db

  -- The loop; `known` are the versions that were read before it.
  unfoldable pub migrate_all :
      List ℕ → List Migration → Database S → List ℕ → Database S × (MigrationError ⊎ List ℕ)
  migrate_all known [] db applied = (db, inr applied)
  migrate_all known (m ∷ ms) db applied = elim (has known m.version) [
    | true ↦ migrate_all known ms db applied
    | false ↦
        after_one m (migrate_one m db) (λ db'. migrate_all known ms db' (applied ++ m.version ∷ []))
  ]

  abbrev pub result :
      ℕ → ℕ → Database S × (MigrationError ⊎ List ℕ) → Database S × (MigrationError ⊎ RunResult)
  result from code (db, inl e) = (db, inl e)
  result from code (db, inr applied) =
      (db, inr (record { from_version = from; to_version = code; applied = applied }))

  abbrev pub run_sorted : List Migration → Database S → Database S × (MigrationError ⊎ RunResult)
  run_sorted sorted db =
      let from = current_version db.versions in
      let code = code_version sorted in
      if ltb code from
      then (db, inl (newer_database from code))
      else result from code (migrate_all db.versions sorted db [])

  unfoldable pub run_migrations :
      List Migration → Database S → Database S × (MigrationError ⊎ RunResult)
  unfolding normalize migrate_one migrate_all
  run_migrations ms db = elim (normalize ms) [
    | inl e ↦ (db, inl e)
    | inr sorted ↦ run_sorted sorted db
  ]
