-- ===== src/Migrations/Sorted.antt =====
-- A list of migrations without fault, once sorted: its versions ascend from 1.
use teskra.Base.{
  ℕ, ◌<◌, true, false, ◌||◌, inl, inr, List, [], ◌∷◌, map, none, nat_eq, leb, ◌≡◌, ◌≢◌, nat_eq_iff,
  subst, refl, sym, ap, ◌∙◌, arith, Bool-cases,
}
use teskra.Migrations.{
  Migration, has, version_of, insert_by_version, sort_by_version, fault, code_version,
}

abbrev pub Ascends : ℕ → List Migration → Type 0
Ascends k [] = Unit {0}
Ascends k (m ∷ ms) = (k < m.version) × Ascends m.version ms

has-insert_by_version :
    (m : Migration) (ns : List Migration) (v : ℕ)
    → has (map version_of (insert_by_version m ns)) v ≡ has (map version_of (m ∷ ns)) v
unfolding insert_by_version
has-insert_by_version m [] v = refl
has-insert_by_version m (n ∷ ns) v = ground (arith, has-insert_by_version m ns v)

pub has-sort_by_version :
    (ms : List Migration) (v : ℕ)
    → has (map version_of (sort_by_version ms)) v ≡ has (map version_of ms) v
unfolding sort_by_version
has-sort_by_version [] v = refl
has-sort_by_version (m ∷ ms) v =
    has-insert_by_version m (sort_by_version ms) v
    ∙ ap (λ b. nat_eq m.version v || b) (has-sort_by_version ms v)

insert_by_version-Ascends :
    (k : ℕ) (m : Migration) (ns : List Migration)
    → k < m.version
    → has (map version_of ns) m.version ≡ false
    → Ascends k ns
    → Ascends k (insert_by_version m ns)
unfolding insert_by_version
insert_by_version-Ascends k m [] h new a = (h, tt)
insert_by_version-Ascends k m (n ∷ ns) h new (b, bs) = elim (Bool-cases (leb m.version n.version)) [
  | inl le ↦ rw (insert_by_version, le) (h, (ground arith, bs))
  | inr gt ↦
      rw (insert_by_version, gt)
        (b, insert_by_version-Ascends n.version m ns (ground arith) (ground arith) bs)
]

fault-cons :
    (seen : List ℕ) (m : Migration) (ms : List Migration)
    → fault seen (m ∷ ms) ≡ none
    → (nat_eq m.version 0 ≡ false)
      × (has seen m.version ≡ false)
      × (fault (m.version ∷ seen) ms ≡ none)
unfolding fault
fault-cons seen m ms e = (ground arith, ground arith, ground arith)

-- No version that was seen comes again.
fault-seen :
    (seen : List ℕ) (ms : List Migration) (v : ℕ)
    → has seen v ≡ true
    → fault seen ms ≡ none
    → has (map version_of ms) v ≡ false
unfolding fault
fault-seen seen [] v h e = refl
fault-seen seen (m ∷ ms) v h e =
    let (positive, new, rest) = fault-cons seen m ms e in
    elim (Bool-cases (nat_eq m.version v)) [
      | inl same ↦
          let again = subst (λ w. has seen w ≡ true) (sym ((nat_eq_iff m.version v).0 same)) h in
          absurd (cc)
      | inr other ↦ rw other (fault-seen (m.version ∷ seen) ms v (rw (other, has) h) rest)
    ]

pub sort_by_version-Ascends :
    (seen : List ℕ) (ms : List Migration) → fault seen ms ≡ none → Ascends 0 (sort_by_version ms)
unfolding fault sort_by_version
sort_by_version-Ascends seen [] e = tt
sort_by_version-Ascends seen (m ∷ ms) e =
    let (positive, new, rest) = fault-cons seen m ms e in
    let absent =
      has-sort_by_version ms m.version
      ∙ fault-seen (m.version ∷ seen) ms m.version (ground arith) rest in
    insert_by_version-Ascends 0 m (sort_by_version ms) (ground arith) absent
      (sort_by_version-Ascends (m.version ∷ seen) ms rest)

pub Ascends-le_code_version :
    (k : ℕ) (ms : List Migration) → Ascends k ms → ms ≢ [] → k < code_version ms
Ascends-le_code_version k [] a ne = absurd (ne refl)
Ascends-le_code_version k (m ∷ []) (a, b) ne = a
Ascends-le_code_version k (m ∷ n ∷ ns) (a, b) ne =
    let h = Ascends-le_code_version m.version (n ∷ ns) b (λ e. cc) in omega arith
