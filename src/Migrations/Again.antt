-- ===== src/Migrations/Again.antt =====
-- A second run of internal/repo/postgres/migrate.go.
use drone_management_system.Sorting.{sort_by}
use drone_management_system.Tables.{any_id}
use drone_management_system.Sorting.Laws.{All}
use drone_management_system.Exec.{⊤}
use mathlib.Core.Path.{subst}
use drone_management_system.Migrations.{
  script_paths, executed, apply_script, marked, Listing, apply_listing, MigrationResult,
  apply_paths, Disk, Schema, apply_migrations, migrated, migration_failed, missing, unreadable,
  entries,
}
use drone_management_system.Base.{
  eq_self, not, arith, if◌then◌else◌, Option, String, List, none, some, [], ◌∷◌, true, Bool-cases,
  inl, inr, ◌≡◌, refl,
}

-- A schema that has the versions of another.
abbrev Extends : Schema → Schema → Type 0
Extends s t =
    (version : String) → any_id s.versions version ≡ true → any_id t.versions version ≡ true

module _ (disk : Disk) where
  -- A path whose version is recorded, and whose query succeeds.
  abbrev IsRecorded : Schema → String → Type 0
  IsRecorded s path =
      (any_id s.versions (disk.base path) ≡ true) × (disk.queries (disk.base path) ≡ true)

  -- What a run over paths that succeeds leaves.
  abbrev Recorded : List String → Schema → MigrationResult × Schema → Type 0
  Recorded paths s (migration_failed, t) = ⊤
  Recorded paths s (migrated, t) = Extends s t × All (IsRecorded t) paths

  -- One more path, whose version is recorded when the others follow.
  Recorded-path :
      (path : String) (paths : List String) (s t : Schema) (r : MigrationResult × Schema)
      → Extends s t
      → IsRecorded t path
      → Recorded paths t r
      → Recorded (path ∷ paths) s r
  Recorded-path path paths s t (migration_failed, u) more found rest = tt
  Recorded-path path paths s t (migrated, u) more (found, q) (further, rest) =
      ((λ version h. further version (more version h)), ((further (disk.base path) found, q), rest))

  marked-Extends : (version : String) (s : Schema) → Extends s (marked disk version s)
  marked-Extends version s v h = ground arith

  apply_script-Recorded :
      (path : String) (paths : List String) (content : Option String) (s : Schema)
      (next : Schema → MigrationResult × Schema)
      → disk.queries (disk.base path) ≡ true
      → ((t : Schema) → Recorded paths t (next t))
      → Recorded (path ∷ paths) s (apply_script disk (disk.base path) content s next)
  apply_script-Recorded path paths none s next q rest = tt
  apply_script-Recorded path paths (some content) s next q rest =
      elim (Bool-cases (disk.runs content)) [
        | inr e ↦ rw e tt
        | inl e ↦ elim (Bool-cases (disk.inserts (disk.base path))) [
          | inr f ↦ rw (e, f) tt
          | inl f ↦
              let t = marked disk (disk.base path) (executed disk content s) in
              rw (e, f)
                (Recorded-path path paths s t (next t)
                  (marked-Extends (disk.base path) (executed disk content s))
                  (rw (eq_self (disk.base path)) refl, q) (rest t))
        ]
      ]

  apply_paths-Recorded :
      (paths : List String) (s : Schema) → Recorded paths s (apply_paths disk paths s)
  unfolding apply_paths
  apply_paths-Recorded [] s = ((λ version h. h), tt)
  apply_paths-Recorded (path ∷ paths) s = elim (Bool-cases (disk.queries (disk.base path))) [
    | inr q ↦ rw q tt
    | inl q ↦ elim (Bool-cases (any_id s.versions (disk.base path))) [
      | inl a ↦
          rw (q, a)
            (Recorded-path path paths s s (apply_paths disk paths s) (λ version h. h) (a, q)
              (apply_paths-Recorded paths s))
      | inr a ↦
          rw (q, a)
            (apply_script-Recorded path paths (disk.read_file path) s
              (λ t. apply_paths disk paths t) q (λ t. apply_paths-Recorded paths t))
    ]
  ]

  apply_paths-again :
      (paths : List String) (t : Schema)
      → All (IsRecorded t) paths
      → apply_paths disk paths t ≡ (migrated, t)
  unfolding apply_paths
  apply_paths-again [] t h = refl
  apply_paths-again (path ∷ paths) t ((a, q), h) = rw (q, a) (apply_paths-again paths t h)

  paths_twice :
      (paths : List String) (s t : Schema)
      → apply_paths disk paths s ≡ (migrated, t)
      → apply_paths disk paths t ≡ (migrated, t)
  paths_twice paths s t h =
      apply_paths-again paths t (subst (λ r. Recorded paths s r) h (apply_paths-Recorded paths s)).1

  listing_twice :
      (listing : Listing) (s t : Schema)
      → apply_listing disk listing s ≡ (migrated, t)
      → apply_listing disk listing t ≡ (migrated, t)
  unfolding apply_listing
  listing_twice missing s t h = refl
  listing_twice unreadable s t h = cc
  listing_twice (entries found) s t h =
      paths_twice (sort_by disk.collate (script_paths disk found)) s t h

-- After a run of the migrations that succeeds, a second run over the same directory, of which the
-- statements succeed and fail as in the first, succeeds, runs no script and records no version.
pub apply_migrations-again :
    (disk : Disk) (s t : Schema)
    → apply_migrations disk s ≡ (migrated, t)
    → apply_migrations disk t ≡ (migrated, t)
unfolding apply_migrations
apply_migrations-again disk s t h = elim (Bool-cases disk.creates) [
  | inl e ↦ rw e (
      listing_twice disk disk.read_dir s t (
        subst
          (λ b.
            (if not b then (migration_failed, s) else apply_listing disk disk.read_dir s)
            ≡ (migrated, t))
          e h))
  | inr e ↦ absurd (
      refused s t (
        subst
          (λ b.
            (if not b then (migration_failed, s) else apply_listing disk disk.read_dir s)
            ≡ (migrated, t))
          e h))
]
  where
    refused :
        (s t : Schema) → ◌≡◌ {A = MigrationResult × Schema} (migration_failed, s) (migrated, t) → ⊥
    refused s t e = cc
