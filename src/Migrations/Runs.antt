-- ===== src/Migrations/Runs.antt =====
-- What a run of the migrations does: which are applied, what a failure leaves, and a second run.
use mathlib.Core.List.{append-nil, append_assoc}
use teskra.Base.{
  ℕ, ◌≤◌, ◌<◌, Bool, true, false, not, ◌||◌, ◌⊎◌, inl, inr, List, [], ◌∷◌, ◌++◌, map, some, keep,
  nat_eq, ltb, ◌≡◌, refl, sym, ap, ◌∙◌, subst, arith, Bool-cases, Option-cases,
}
use teskra.Migrations.{
  Migration, Sql, Database, MigrationError, invalid_version, duplicate_version, newer_database,
  migration_failed, RunResult, has, current_version, version_of, sort_by_version, fault, normalize,
  code_version, migrate_one, migrate_all, result, run_sorted, run_migrations,
}

abbrev pub is_missing : List ℕ → Migration → Bool
is_missing known m = not (has known m.version)

-- The migrations of a list that a database with these versions lacks, by version.
abbrev pub pending : List ℕ → List Migration → List Migration
pending known ms = keep (is_missing known) (sort_by_version ms)

pub has-append : (xs ys : List ℕ) (v : ℕ) → has (xs ++ ys) v ≡ (has xs v || has ys v)
has-append [] ys v = refl
has-append (x ∷ xs) ys v = ground (arith, has-append xs ys v)

pub one_cases {ℓ} :
    {A : Type ℓ} (r : A × Bool) → ((a : A) × (r ≡ (a, true))) ⊎ ((a : A) × (r ≡ (a, false)))
one_cases (a, true) = inl (a, refl)
one_cases (a, false) = inr (a, refl)

-- The faults that a list can have by itself.
abbrev IsFault : MigrationError → Type 0
IsFault (invalid_version name) = Unit {0}
IsFault (duplicate_version v name) = Unit {0}
IsFault (newer_database from code) = ⊥
IsFault (migration_failed name v current) = ⊥

fault-IsFault :
    (seen : List ℕ) (ms : List Migration) (e : MigrationError) → fault seen ms ≡ some e → IsFault e
unfolding fault
fault-IsFault seen [] e h = absurd (cc)
fault-IsFault seen (m ∷ ms) e h = elim (Bool-cases (nat_eq m.version 0)) [
  | inl z ↦ let same : invalid_version m.name ≡ e = ground arith in subst IsFault same tt
  | inr pos ↦ elim (Bool-cases (has seen m.version)) [
    | inl old ↦
        let same : duplicate_version m.version m.name ≡ e = ground arith in subst IsFault same tt
    | inr new ↦ fault-IsFault (m.version ∷ seen) ms e (rw (pos, new, fault) at h)
  ]
]

module _ {S : Type 0} (sql : Sql S) where
  -- These migrations, one after the other, take the first database to the second.
  pub data Applied : List Migration → Database S → Database S → Type 0 where
    done : {db : Database S} → Applied [] db db
    next :
        {m : Migration} {ms : List Migration} {a b c : Database S}
        → migrate_one sql m a ≡ (b, true)
        → Applied ms b c
        → Applied (m ∷ ms) a c

  -- A failed migration is rolled back, and its version is not recorded.
  rolled_back :
      (m : Migration) (a b : Database S)
      → migrate_one sql m a ≡ (b, false)
      → (b.schema ≡ a.schema) × (b.versions ≡ a.versions)
  unfolding migrate_one
  rolled_back m a b e = ground arith

  pub migrate_one-versions :
      (m : Migration) (a b : Database S)
      → migrate_one sql m a ≡ (b, true)
      → b.versions ≡ a.versions ++ m.version ∷ []
  unfolding migrate_one
  migrate_one-versions m a b e = ground arith

  -- Where a run gave up: at `failed`, after `before` were applied, and `after` were not reached.
  pub record GaveUp (missing : List Migration) (a b : Database S) (e : MigrationError)
      : Type 0 where
    pub before : List Migration
    pub failed : Migration
    pub after : List Migration
    pub last : Database S
    pub splits : missing ≡ before ++ failed ∷ after
    pub applied : Applied before a last
    pub fails : migrate_one sql failed last ≡ (b, false)
    pub schema_kept : b.schema ≡ last.schema
    pub versions_kept : b.versions ≡ last.versions
    pub names_it : e ≡ migration_failed failed.name failed.version (current_version b.versions)

  abbrev Ran :
      List Migration → Database S → List ℕ → Database S × (MigrationError ⊎ List ℕ) → Type 0
  Ran missing a applied (b, inl e) = GaveUp missing a b e
  Ran missing a applied (b, inr versions) =
      Applied missing a b × (versions ≡ applied ++ map version_of missing)

  Ran-next :
      (m : Migration) (missing : List Migration) (a b : Database S) (applied : List ℕ)
      (r : Database S × (MigrationError ⊎ List ℕ))
      → migrate_one sql m a ≡ (b, true)
      → Ran missing b (applied ++ m.version ∷ []) r
      → Ran (m ∷ missing) a applied r
  Ran-next m missing a b applied (c, inr versions) one (ran, e) =
      (next one ran, e ∙ append_assoc applied (m.version ∷ []) (map version_of missing))
  Ran-next m missing a b applied (c, inl e) one g = record {
    before = m ∷ g.before;
    failed = g.failed;
    after = g.after;
    last = g.last;
    splits = ap (◌∷◌ m) g.splits;
    applied = next one g.applied;
    fails = g.fails;
    schema_kept = g.schema_kept;
    versions_kept = g.versions_kept;
    names_it = g.names_it;
  }

  migrate_all-Ran :
      (known : List ℕ) (ms : List Migration) (a : Database S) (applied : List ℕ)
      → Ran (keep (is_missing known) ms) a applied (migrate_all sql known ms a applied)
  unfolding migrate_all
  migrate_all-Ran known [] a applied = (done, sym (append-nil applied))
  migrate_all-Ran known (m ∷ ms) a applied = elim (Bool-cases (has known m.version)) [
    | inl old ↦ rw (migrate_all, old) (migrate_all-Ran known ms a applied)
    | inr new ↦ elim (one_cases (migrate_one sql m a)) [
      | inl (b, ok) ↦
          rw (migrate_all, new, ok)
            (Ran-next m (keep (is_missing known) ms) a b applied _ ok
              (migrate_all-Ran known ms b (applied ++ m.version ∷ [])))
      | inr (b, bad) ↦
          let (schema, versions) = rolled_back m a b bad in
          rw (migrate_all, new, bad)
            (record {
              before = [];
              failed = m;
              after = keep (is_missing known) ms;
              last = a;
              splits = refl;
              applied = done;
              fails = bad;
              schema_kept = schema;
              versions_kept = versions;
              names_it = refl;
            })
    ]
  ]

  -- What a run that started at `a` has done, by its answer.
  abbrev pub Explained :
      List Migration → Database S → Database S × (MigrationError ⊎ RunResult) → Type 0
  Explained ms a (b, inl (invalid_version name)) = b ≡ a
  Explained ms a (b, inl (duplicate_version v name)) = b ≡ a
  Explained ms a (b, inl (newer_database from code)) =
      (b ≡ a) × (from ≡ current_version a.versions) × (code < from)
  Explained ms a (b, inl (migration_failed name v current)) =
      GaveUp (pending a.versions ms) a b (migration_failed name v current)
  Explained ms a (b, inr r) =
      Applied (pending a.versions ms) a b
      × (r.applied ≡ map version_of (pending a.versions ms))
      × (current_version a.versions ≤ r.to_version)
      × (r.to_version ≡ code_version (sort_by_version ms))

  Explained-fault :
      (ms : List Migration) (a : Database S) (e : MigrationError)
      → IsFault e
      → Explained ms a (a, inl e)
  Explained-fault ms a (invalid_version name) h = refl
  Explained-fault ms a (duplicate_version v name) h = refl
  Explained-fault ms a (newer_database from code) h = absurd h
  Explained-fault ms a (migration_failed name v current) h = absurd h

  Explained-result :
      (ms : List Migration) (a : Database S) (code : ℕ) (r : Database S × (MigrationError ⊎ List ℕ))
      → current_version a.versions ≤ code
      → code ≡ code_version (sort_by_version ms)
      → Ran (pending a.versions ms) a [] r
      → Explained ms a (result sql (current_version a.versions) code r)
  Explained-result ms a code (b, inr versions) h c (ran, e) = (ran, e, h, c)
  Explained-result ms a code (b, inl e) h c g =
      subst (λ x. Explained ms a (b, inl x)) (sym g.names_it)
        (subst (GaveUp (pending a.versions ms) a b) g.names_it g)

  run_sorted-Explained :
      (ms : List Migration) (a : Database S)
      → Explained ms a (run_sorted sql (sort_by_version ms) a)
  run_sorted-Explained ms a =
      let sorted = sort_by_version ms in
      elim (Bool-cases (ltb (code_version sorted) (current_version a.versions))) [
        | inl newer ↦ rw (run_sorted, newer) (refl, refl, ground arith)
        | inr older ↦
            rw (run_sorted, older)
              (Explained-result ms a (code_version sorted) _ (ground arith) refl
                (migrate_all-Ran a.versions sorted a []))
      ]

  -- A refused run changes nothing. A failed one has applied, in the order of the versions, the
  -- migrations that were missing before the one that failed, which is rolled back. A run that
  -- succeeds has applied all that were missing, in that order, and answers with their versions.
  pub run_migrations-Explained :
      (ms : List Migration) (a : Database S) → Explained ms a (run_migrations sql ms a)
  unfolding run_migrations normalize
  run_migrations-Explained ms a = elim (Option-cases (fault [] ms)) [
    | inl none_found ↦ rw (run_migrations, normalize, none_found) (run_sorted-Explained ms a)
    | inr (e, found) ↦
        rw (run_migrations, normalize, found) (Explained-fault ms a e (fault-IsFault [] ms e found))
  ]
