-- ===== src/Migrations/Reports.antt =====
-- What the commands report: a run that stops at a failed migration, and the counts of `db status`.
use nestforge.Base.{
  ℕ, ◌≡◌, refl, sym, ap, ◌+◌, List, [], ◌∷◌, ◌++◌, length, String, Result, ok, err, inl, inr, ◌∙◌,
  Result-cases, Option-cases, Bool-cases, Text, text_eq, ◌||◌, arith,
}
use nestforge.Migrations.{MigrationFile, AppliedMigrations}
use nestforge.Migrations.Commands.{Project, apply_migration, apply_migrations, Status, count_files}

module _ {D : Type 0} (hash : Text → Text)
    (transaction : Text → D → Result String (Unit {0}) × D) where
  -- Where a run stopped.
  pub record Stopped (ms : List MigrationFile) (s : Project D) (e : String) (s' : Project D)
      : Type 0 where
    before : List MigrationFile
    failed : MigrationFile
    after : List MigrationFile
    reached : Project D
    split : ms ≡ before ++ failed ∷ after
    done : apply_migrations hash transaction before s ≡ (ok tt, reached)
    fails : apply_migration hash transaction failed reached ≡ (err e, s')

  -- A run that fails stopped at a migration: those in front of it were applied one after the other,
  -- the run leaves what the failed one left, with its error, and none of those behind it was begun.
  pub apply_migrations-Stopped :
      (ms : List MigrationFile) (s s' : Project D) (e : String)
      → apply_migrations hash transaction ms s ≡ (err e, s')
      → Stopped ms s e s'
  unfolding apply_migrations
  apply_migrations-Stopped [] s s' e h = cc h
  apply_migrations-Stopped (m ∷ ms) s s' e h =
      let s1 = (apply_migration hash transaction m s).1 in
      elim (Result-cases (apply_migration hash transaction m s).0) [
        | inr (e1, failed) ↦ record {
          before = [];
          failed = m;
          after = ms;
          reached = s;
          split = refl;
          done = refl;
          fails =
              ap (λ (r : Result String (Unit {0})). (r, s1)) failed
              ∙ (rw (failed, apply_migrations) at h);
        }
        | inl (u, done) ↦
            let rest = apply_migrations-Stopped ms s1 s' e (rw (done, apply_migrations) at h) in
            record {
              before = m ∷ rest.before;
              failed = rest.failed;
              after = rest.after;
              reached = rest.reached;
              split = ap (λ (l : List MigrationFile). m ∷ l) rest.split;
              done = rw (done, apply_migrations) rest.done;
              fails = rest.fails;
            }
      ]

-- All that a status counts.
abbrev pub total : Status → ℕ
total counts = (counts.applied + counts.pending) + counts.drift

ok_total :
    (x counts : Status) → ◌≡◌ {A = Result String Status} (ok x) (ok counts) → total counts ≡ total x
ok_total x counts h = let e : x ≡ counts = cc h in sym (ap total e)

-- The counts of a status: every file that is listed is counted once, as applied, pending or drifted.
pub count_files-length :
    (hash : Text → Text) (applied : AppliedMigrations) (ms : List MigrationFile) (counts : Status)
    → count_files hash applied ms ≡ ok counts
    → total counts ≡ length ms
unfolding count_files
count_files-length hash applied [] counts h = ok_total _ counts h
count_files-length hash applied (m ∷ ms) counts h =
    elim (Result-cases (count_files hash applied ms)) [
      | inr (e, failed) ↦ elim (Option-cases (applied m.name)) [
        | inl absent ↦ cc (rw (failed) at rw (absent, count_files) at h)
        | inr (stored, found) ↦ elim (Option-cases m.content) [
          | inl unread ↦ cc (rw (unread) at rw (found, count_files) at h)
          | inr (content, read) ↦ cc (rw (failed) at rw (read) at rw (found, count_files) at h)
        ]
      ]
      | inl (rest, counted) ↦
          let ih = count_files-length hash applied ms rest counted in
          elim (Option-cases (applied m.name)) [
            | inl absent ↦
                ok_total _ counts (rw (counted) at rw (absent, count_files) at h)
                ∙ (omega (arith, ih))
            | inr (stored, found) ↦ elim (Option-cases m.content) [
              | inl unread ↦ cc (rw (unread) at rw (found, count_files) at h)
              | inr (content, read) ↦
                  let h1 = rw (counted) at rw (read) at rw (found, count_files) at h in
                  elim (Bool-cases (text_eq stored [] || text_eq stored (hash content))) [
                    | inl same ↦ ok_total _ counts (rw (same) at h1) ∙ (omega (arith, ih))
                    | inr drift ↦ ok_total _ counts (rw (drift) at h1) ∙ (omega (arith, ih))
                  ]
            ]
          ]
    ]
