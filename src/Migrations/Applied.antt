-- ===== src/Migrations/Applied.antt =====
-- What a run of `db migrate` leaves: after a success nothing is pending.
use nestforge.Base.{
  ◌≡◌, refl, sym, ap, subst, ◌∙◌, Option, none, some, List, [], ◌∷◌, ◌++◌, String, ◌⊎◌, inl, inr,
  Result, ok, err, Result-cases, Option-cases, Bool-cases, Text, All,
}
use nestforge.Migrations.{
  MigrationFile, AppliedMigrations, set_applied, contains_sql_content, read_applied_migrations,
  journal_line,
}
use nestforge.Migrations.Commands.{
  Project, list_migration_files, pending_of, db_init, append_applied_migration, written,
  apply_migration, apply_migrations, db_migrate,
}
use nestforge.Migrations.Journal.{IsClosed, IsWord, read_applied_migrations-journal_line}
use nestforge.Migrations.Pending.{
  Known, IsFileName, Known-set_applied, Known-set_applied_other, pending_of_known, All-pending_of,
}

module _ {D : Type 0} where
  -- The journal is there, and closed.
  abbrev pub IsOpen : Project D → Type 0
  IsOpen s = (content : Text) × (s.journal ≡ some content) × IsClosed content

  db_init-IsOpen : (s : Project D) → (s.journal ≡ none) ⊎ IsOpen s → IsOpen (db_init s)
  unfolding db_init
  db_init-IsOpen s (inl absent) = rw (absent, db_init) ([], refl, inl refl)
  db_init-IsOpen s (inr (content, is, closed)) = rw (is, db_init) (content, is, closed)

  db_init_open : (s : Project D) → IsOpen s → db_init s ≡ s
  unfolding db_init
  db_init_open s (content, is, closed) =
      ap (λ (o : Option Text). elim o [ none ↦ record s { journal = some [] } | some c ↦ s ]) is

  db_init-migrations : (s : Project D) → (db_init s).migrations ≡ s.migrations
  unfolding db_init
  db_init-migrations s = elim (Option-cases s.journal) [
    | inl absent ↦ rw (absent, db_init) refl
    | inr (content, is) ↦ rw (is, db_init) refl
  ]

module _ {D : Type 0} (hash : Text → Text) (transaction : Text → D → Result String (Unit {0}) × D)
    (hash_words : (sql : Text) → IsWord (hash sql)) where
  -- A migration has been recorded.
  record Recorded (m : MigrationFile) (s s' : Project D) : Type 0 where
    stored : Text
    stored_word : IsWord stored
    journal : s'.journal ≡ written s.journal (journal_line m.name stored)
    migrations : s'.migrations ≡ s.migrations

  append-Recorded :
      (m : MigrationFile) (sql : Text) (s s' : Project D)
      → append_applied_migration m.name (hash sql) s ≡ (ok tt, s')
      → Recorded m s s'
  unfolding append_applied_migration
  append-Recorded m sql s s' h = elim (Bool-cases s.writable) [
    | inr shut ↦ cc (rw (shut, append_applied_migration) at h)
    | inl writable ↦
        let done =
          ap (λ (p : Result String (Unit {0}) × Project D). p.1)
            (rw (writable, append_applied_migration) at h) in
        record {
          stored = hash sql;
          stored_word = hash_words sql;
          journal = sym (ap (λ (p : Project D). p.journal) done);
          migrations = sym (ap (λ (p : Project D). p.migrations) done);
        }
  ]

  apply_migration-Recorded :
      (m : MigrationFile) (s s' : Project D)
      → apply_migration hash transaction m s ≡ (ok tt, s')
      → Recorded m s s'
  unfolding apply_migration
  apply_migration-Recorded m s s' h = elim (Option-cases m.content) [
    | inl unread ↦ cc (rw (unread, apply_migration) at h)
    | inr (sql, content) ↦ elim (Bool-cases (contains_sql_content sql)) [
      | inr blank ↦ append-Recorded m sql s s' (rw (blank) at rw (content, apply_migration) at h)
      | inl script ↦
          let h1 = rw (script) at rw (content, apply_migration) at h in
          elim (Result-cases (transaction sql s.database).0) [
            | inr (e, failed) ↦ cc (rw (failed) at h1)
            | inl (_, done) ↦
                let r =
                  append-Recorded m sql (record s { database = (transaction sql s.database).1 }) s'
                    (rw (done) at h1) in
                record {
                  stored = r.stored;
                  stored_word = r.stored_word;
                  journal = r.journal;
                  migrations = r.migrations;
                }
          ]
    ]
  ]

  -- What a successful run over some files leaves.
  record Ran (ms : List MigrationFile) (s s' : Project D) : Type 0 where
    still_open : IsOpen s'
    migrations : s'.migrations ≡ s.migrations
    keeps :
        (name : Text)
        → Known (read_applied_migrations s.journal) name
        → Known (read_applied_migrations s'.journal) name
    known : All (λ (m : MigrationFile). Known (read_applied_migrations s'.journal) m.name) ms

  Recorded-reads :
      (m : MigrationFile) (s s' : Project D)
      → IsFileName m.name
      → IsOpen s
      → (r : Recorded m s s')
      → IsOpen s'
        × (read_applied_migrations s'.journal
            ≡ set_applied m.name r.stored (read_applied_migrations s.journal))
  Recorded-reads m s s' (word, no_bar) (content, is, closed) r =
      let (reads, closed') =
        read_applied_migrations-journal_line content m.name r.stored closed word r.stored_word
          no_bar in
      let now : s'.journal ≡ some (content ++ journal_line m.name r.stored) =
        r.journal ∙ ap (λ (o : Option Text). written o (journal_line m.name r.stored)) is in
      (
        (content ++ journal_line m.name r.stored, now, closed'),
        ap read_applied_migrations now
            ∙ reads
            ∙ ap (λ (o : Option Text). set_applied m.name r.stored (read_applied_migrations o))
                (sym is),
      )

  apply_migrations-Ran :
      (ms : List MigrationFile) (s s' : Project D)
      → All (λ (m : MigrationFile). IsFileName m.name) ms
      → IsOpen s
      → apply_migrations hash transaction ms s ≡ (ok tt, s')
      → Ran ms s s'
  unfolding apply_migrations
  apply_migrations-Ran [] s s' names is_open h =
      let same : s ≡ s' = ap (λ (p : Result String (Unit {0}) × Project D). p.1) h in
      record {
        still_open = subst IsOpen same is_open;
        migrations = sym (ap (λ (p : Project D). p.migrations) same);
        keeps =
            λ name. subst (λ (p : Project D). Known (read_applied_migrations p.journal) name) same;
        known = tt;
      }
  apply_migrations-Ran (m ∷ ms) s s' (name, names) is_open h =
      elim (Result-cases (apply_migration hash transaction m s).0) [
        | inr (e, failed) ↦ cc (rw (failed, apply_migrations) at h)
        | inl (u, done) ↦
            let s1 = (apply_migration hash transaction m s).1 in
            let first : apply_migration hash transaction m s ≡ (ok tt, s1) =
              ap (λ (r : Result String (Unit {0})). (r, s1)) done in
            let r = apply_migration-Recorded m s s1 first in
            let (open1, reads) = Recorded-reads m s s1 name is_open r in
            let rest =
              apply_migrations-Ran ms s1 s' names open1 (rw (done, apply_migrations) at h) in
            record {
              still_open = rest.still_open;
              migrations = rest.migrations ∙ r.migrations;
              keeps = λ other was. rest.keeps other (
                  subst (λ (a : AppliedMigrations). Known a other) (sym reads)
                    (Known-set_applied_other m.name r.stored other
                      (read_applied_migrations s.journal) was));
              known = (
                rest.keeps m.name (
                    subst (λ (a : AppliedMigrations). Known a m.name) (sym reads)
                      (Known-set_applied m.name r.stored (read_applied_migrations s.journal))),
                rest.known,
              );
            }
      ]

  finished :
      (connected : Result String (Unit {0})) (s : Project D)
      → IsOpen s
      → pending_of (read_applied_migrations s.journal) (list_migration_files s.migrations) ≡ []
      → db_migrate hash transaction connected s ≡ (ok tt, s)
  unfolding db_migrate
  finished connected s is_open nothing =
      rw (still, db_migrate) (ap with_success (db_init_open s is_open))
    where
      with_success : Project D → Result String (Unit {0}) × Project D
      with_success t = (ok tt, t)

      still :
          pending_of
            (read_applied_migrations (db_init s).journal)
            (list_migration_files (db_init s).migrations)
          ≡ []
      still =
          subst
            (λ (t : Project D).
              pending_of (read_applied_migrations t.journal) (list_migration_files t.migrations)
              ≡ [])
            (sym (db_init_open s is_open)) nothing

  -- After `db migrate` has succeeded, another `db migrate` has nothing to do: it changes neither the
  -- journal nor the database, whether a connection can be made or not. This asks that the journal was
  -- missing, empty or ended with a newline, that no name of a file has whitespace or a bar in it, and
  -- that hashes have no whitespace.
  pub db_migrate_again :
      (connected later : Result String (Unit {0})) (s s' : Project D)
      → (s.journal ≡ none) ⊎ IsOpen s
      → All (λ (m : MigrationFile). IsFileName m.name) (list_migration_files s.migrations)
      → db_migrate hash transaction connected s ≡ (ok tt, s')
      → db_migrate hash transaction later s' ≡ (ok tt, s')
  unfolding db_migrate
  db_migrate_again connected later s s' sound names h =
      go
        (pending_of (read_applied_migrations (db_init s).journal)
          (list_migration_files (db_init s).migrations))
        refl connected h
    where
      go :
          (ms : List MigrationFile)
          → pending_of
              (read_applied_migrations (db_init s).journal)
              (list_migration_files (db_init s).migrations)
            ≡ ms
          → (c : Result String (Unit {0})) → db_migrate hash transaction c s ≡ (ok tt, s')
          → db_migrate hash transaction later s' ≡ (ok tt, s')
      go [] nothing c done =
          let same : db_init s ≡ s' =
            ap (λ (p : Result String (Unit {0}) × Project D). p.1)
              (rw (nothing, db_migrate) at done) in
          finished later s' (subst IsOpen same (db_init-IsOpen s sound)) (
            subst
              (λ (t : Project D).
                pending_of (read_applied_migrations t.journal) (list_migration_files t.migrations)
                ≡ [])
              same nothing)
      go (m ∷ ms) some_pending (err e) done = cc (rw (some_pending, db_migrate) at done)
      go (m ∷ ms) some_pending (ok u) done =
          let ran =
            apply_migrations-Ran (m ∷ ms) (db_init s) s'
              (subst (All (λ (n : MigrationFile). IsFileName n.name)) some_pending (
                All-pending_of (λ n. IsFileName n.name) _ _
                  (subst
                    (λ (l : List MigrationFile).
                      All (λ (n : MigrationFile). IsFileName n.name) (list_migration_files l))
                    (sym (db_init-migrations s)) names)))
              (db_init-IsOpen s sound) (rw (some_pending, db_migrate) at done) in
          finished later s' ran.still_open (
            subst
              (λ (l : List MigrationFile).
                pending_of (read_applied_migrations s'.journal) (list_migration_files l) ≡ [])
              (sym ran.migrations)
              (pending_of_known (read_applied_migrations (db_init s).journal)
                (read_applied_migrations s'.journal) (list_migration_files (db_init s).migrations)
                ran.keeps
                (subst
                  (All (λ (n : MigrationFile). Known (read_applied_migrations s'.journal) n.name))
                  (sym some_pending) ran.known)))
