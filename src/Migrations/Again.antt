-- ===== src/Migrations/Again.antt =====
-- A second run of the same migrations.
use teskra.Base.{
  ℕ, ◌≤◌, max, Bool, true, false, ◌||◌, inl, inr, List, [], ◌∷◌, ◌++◌, map, none, keep, all, In,
  here, there, keep-In, all_intro, ltb, ◌≡◌, refl, sym, ap, ◌∙◌, subst, arith, Bool-cases,
  Option-cases,
}
use mathlib.Core.List.{append-nil, append_assoc}
use teskra.Migrations.{
  Migration, Sql, Database, RunResult, has, current_version, version_of, sort_by_version, fault,
  normalize, code_version, migrate_all, run_sorted, run_migrations,
}
use teskra.Migrations.Sorted.{Ascends, sort_by_version-Ascends, Ascends-le_code_version}
use teskra.Migrations.Runs.{
  is_missing, pending, has-append, Applied, done, next, migrate_one-versions, Explained,
  run_migrations-Explained,
}

has_of_In :
    {m : Migration} {ms : List Migration} → In m ms → has (map version_of ms) m.version ≡ true
has_of_In {m} (here {x} e) = let e' = ap version_of e in ground arith
has_of_In {m} (there {x} h) = let ih = has_of_In h in ground arith

known_or_added :
    (known : List ℕ) (ms : List Migration) (m : Migration)
    → In m ms
    → (has known m.version || has (map version_of (keep (is_missing known) ms)) m.version) ≡ true
known_or_added known ms m member = elim (Bool-cases (has known m.version)) [
  | inl old ↦ rw old refl
  | inr new ↦ rw new (has_of_In (keep-In (is_missing known) member (rw new refl)))
]

-- Every version is there once the missing ones are added.
all_known :
    (known : List ℕ) (ms : List Migration)
    → all (λ m. has (known ++ map version_of (keep (is_missing known) ms)) m.version) ms ≡ true
all_known known ms = all_intro _ ms λ m member.
    has-append known (map version_of (keep (is_missing known) ms)) m.version
    ∙ known_or_added known ms m member

current_version-append :
    (vs ws : List ℕ) → current_version (vs ++ ws) ≡ max (current_version vs) (current_version ws)
current_version-append [] ws = omega arith
current_version-append (v ∷ vs) ws = omega (arith, current_version-append vs ws)

current_version-keep :
    (p : Migration → Bool) (ms : List Migration)
    → current_version (map version_of (keep p ms)) ≤ current_version (map version_of ms)
current_version-keep p [] = omega arith
current_version-keep p (m ∷ ms) = ground (arith, current_version-keep p ms)

Ascends-current_version :
    (k : ℕ) (ms : List Migration)
    → Ascends k ms
    → current_version (map version_of ms) ≤ code_version ms
Ascends-current_version k [] a = omega arith
Ascends-current_version k (m ∷ []) a = omega arith
Ascends-current_version k (m ∷ n ∷ ns) (a, b) =
    let ih = Ascends-current_version m.version (n ∷ ns) b in
    let lt = Ascends-le_code_version m.version (n ∷ ns) b (λ e. cc) in omega arith

module _ {S : Type 0} (sql : Sql S) where
  Applied-versions :
      (ms : List Migration) (a b : Database S)
      → Applied sql ms a b
      → b.versions ≡ a.versions ++ map version_of ms
  Applied-versions [] a b done = sym (append-nil a.versions)
  Applied-versions (m ∷ ms) a c (next {b} one rest) =
      Applied-versions ms b c rest
      ∙ ap (λ v. v ++ map version_of ms) (migrate_one-versions sql m a b one)
      ∙ append_assoc a.versions (m.version ∷ []) (map version_of ms)

  migrate_all_known :
      (known : List ℕ) (ms : List Migration) (a : Database S) (applied : List ℕ)
      → all (λ m. has known m.version) ms ≡ true
      → migrate_all sql known ms a applied ≡ (a, inr applied)
  unfolding migrate_all
  migrate_all_known known [] a applied h = refl
  migrate_all_known known (m ∷ ms) a applied h = elim (Bool-cases (has known m.version)) [
    | inl old ↦ rw (migrate_all, old) (migrate_all_known known ms a applied (rw (old, all) at h))
    | inr new ↦ let h' = rw (new, all) at h in absurd (cc)
  ]

  again_sorted :
      (ms : List Migration) (a b : Database S)
      → fault [] ms ≡ none
      → current_version a.versions ≤ code_version (sort_by_version ms)
      → Applied sql (pending a.versions ms) a b
      → run_sorted sql (sort_by_version ms) b ≡ (
        b,
        inr (record {
          from_version = current_version b.versions;
          to_version = code_version (sort_by_version ms);
          applied = [];
        }),
      )
  again_sorted ms a b clean older applied =
      let sorted = sort_by_version ms in
      let versions = Applied-versions (pending a.versions ms) a b applied in
      let known : all (λ m. has b.versions m.version) sorted ≡ true =
        subst (λ vs. all (λ m. has vs m.version) sorted ≡ true) (sym versions)
          (all_known a.versions sorted) in
      let highest =
        ap current_version versions
        ∙ current_version-append a.versions (map version_of (pending a.versions ms)) in
      let kept = current_version-keep (is_missing a.versions) sorted in
      let code = Ascends-current_version 0 sorted (sort_by_version-Ascends [] ms clean) in
      let fits : ltb (code_version sorted) (current_version b.versions) ≡ false = ground arith in
      rw (run_sorted, fits, migrate_all_known b.versions sorted b [] known) refl

  -- A run that succeeded leaves nothing for a second run of the same migrations, which succeeds,
  -- applies none and leaves the database as it is.
  pub run_migrations-again :
      (ms : List Migration) (a b : Database S) (r : RunResult)
      → run_migrations sql ms a ≡ (b, inr r)
      → run_migrations sql ms b
        ≡ (b, inr (record r { from_version = current_version b.versions; applied = [] }))
  unfolding run_migrations normalize
  run_migrations-again ms a b r ran = elim (Option-cases (fault [] ms)) [
    | inr (e, found) ↦ let h = rw (run_migrations, normalize, found) at ran in absurd (cc)
    | inl clean ↦
        let (applied, versions, older, code) =
          subst (Explained sql ms a) ran (run_migrations-Explained sql ms a) in
        rw (run_migrations, normalize, clean)
          (again_sorted ms a b clean (omega arith) applied ∙ rw code refl)
  ]
