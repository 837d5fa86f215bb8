-- ===== src/Migrations/Commands.antt =====
-- crates/nestforge-cli/src/main.rs: `db init`, `db generate`, `db migrate` and `db status`. Directories that
-- cannot be read or written, and names that are not UTF-8, are not modelled; a status of no files, which
-- prints no counts, has counts of zero.
use nestforge.Base.{
  ℕ, ◌+◌, Bool, false, ◌&&◌, ◌||◌, Option, none, some, List, [], ◌∷◌, ◌++◌, String, any, ◌==◌, ltb,
  if◌then◌else◌, Result, ok, err, Text, codes, text_eq, decimal,
}
use nestforge.Migrations.{
  MigrationFile, AppliedMigrations, contains_sql_content, read_applied_migrations, journal_line,
  sorted,
}

-- What the commands read and write: the directory, the journal, whether it can be written, the database.
pub record Project (D : Type 0) : Type 0 where
  pub migrations : List MigrationFile
  pub journal : Option Text
  pub writable : Bool
  pub database : D

-- The result of a command, with the context of its error, and the state that it leaves.
abbrev pub Command : Type 0 → Type 0
Command D = Project D → Result String (Unit {0}) × Project D

abbrev pub is_sql_name : Text → Bool
is_sql_name name = elim (split_last name) [ none ↦ false | some extension ↦ is_sql extension ]
  where
    lowered : Text → Text
    lowered [] = []
    lowered (c ∷ cs) = (if ltb 64 c && ltb c 91 then c + 32 else c) ∷ lowered cs

    is_sql : Text → Bool
    is_sql extension = text_eq (lowered extension) (codes "sql")

    -- `Path::extension`: what stands behind the last dot, if something stands in front of it.
    split_last : Text → Option Text
    split_last [] = none
    split_last (c ∷ cs) = behind cs
      where
        behind : Text → Option Text
        behind [] = none
        behind (d ∷ ds) =
            let later = behind ds in
            elim later [ some e ↦ some e | none ↦ if d == 46 then some ds else none ]

-- `list_migration_files`, before the sort.
unfoldable pub sql_files : List MigrationFile → List MigrationFile
sql_files [] = []
sql_files (m ∷ ms) = let rest = sql_files ms in if is_sql_name m.name then m ∷ rest else rest

unfoldable pub list_migration_files : List MigrationFile → List MigrationFile
unfolding sql_files sorted
list_migration_files ms = sorted (sql_files ms)

unfoldable pub pending_of : AppliedMigrations → List MigrationFile → List MigrationFile
pending_of applied [] = []
pending_of applied (m ∷ ms) =
    let rest = pending_of applied ms in elim (applied m.name) [ none ↦ m ∷ rest | some hash ↦ rest ]

abbrev pub written : Option Text → Text → Option Text
written none line = some line
written (some content) line = some (content ++ line)

module _ {D : Type 0} where
  -- `db_init`: the journal is made, if there is none. The directories and the examples of `.env` files
  -- are not part of the state.
  unfoldable pub db_init : Project D → Project D
  db_init s = elim s.journal [ none ↦ record s { journal = some [] } | some content ↦ s ]

  -- `db_generate`, for a slug and a time: the file must be new.
  unfoldable pub db_generate : Text → ℕ → Text → Command D
  unfolding db_init
  db_generate template stamp slug s =
      let s = db_init s in
      let name = decimal stamp ++ (codes "_" ++ (slug ++ codes ".sql")) in
      if any (λ (m : MigrationFile). text_eq m.name name) s.migrations
      then (err "Migration already exists", s)
      else (
        ok tt,
        record s {
          migrations = s.migrations ++ record { name = name; content = some template } ∷ [];
        },
      )

  unfoldable pub append_applied_migration : Text → Text → Command D
  append_applied_migration name hash s =
      if s.writable
      then (ok tt, record s { journal = written s.journal (journal_line name hash) })
      else (err "Failed to open the journal", s)

-- SHA-256 of a text, in hexadecimal digits; and a transaction that executes a script, which may fail to
-- begin, to execute or to commit.
module _ {D : Type 0} (hash : Text → Text)
    (transaction : Text → D → Result String (Unit {0}) × D) where
  -- The body of the loop of `db_migrate`.
  unfoldable pub apply_migration : MigrationFile → Command D
  unfolding append_applied_migration
  apply_migration m s = elim m.content [
    | none ↦ (err "Failed to read migration", s)
    | some sql ↦
        if contains_sql_content sql
        then (let (outcome, database) = transaction sql s.database in
            elim outcome [
              | err e ↦ (err e, record s { database = database })
              | ok _ ↦ append_applied_migration m.name (hash sql) (record s { database = database })
            ])
        else append_applied_migration m.name (hash sql) s
  ]

  unfoldable pub apply_migrations : List MigrationFile → Command D
  unfolding apply_migration
  apply_migrations [] s = (ok tt, s)
  apply_migrations (m ∷ ms) s =
      let (outcome, s') = apply_migration m s in
      elim outcome [ err e ↦ (err e, s') | ok _ ↦ apply_migrations ms s' ]

  -- `db_migrate`; `connected` is the outcome of the connection, with `DATABASE_URL` read.
  unfoldable pub db_migrate : Result String (Unit {0}) → Command D
  db_migrate connected s =
      let s = db_init s in
      elim (pending_of (read_applied_migrations s.journal) (list_migration_files s.migrations)) [
        | [] ↦ (ok tt, s)
        | m ∷ ms ↦ elim connected [ err e ↦ (err e, s) | ok _ ↦ apply_migrations (m ∷ ms) s ]
      ]

-- The counts that `db status` prints.
pub record Status : Type 0 where
  pub applied : ℕ
  pub pending : ℕ
  pub drift : ℕ

abbrev no_files : Status
no_files = record { applied = 0; pending = 0; drift = 0 }

module _ (hash : Text → Text) (applied : AppliedMigrations) where
  -- The loop of `db_status`, with the counts behind it; it stops at a file that it cannot read.
  unfoldable pub count_files : List MigrationFile → Result String Status
  count_files [] = ok no_files
  count_files (m ∷ ms) =
      let rest = count_files ms in
      elim (applied m.name) [
        | none ↦ elim rest [
          | err e ↦ err e
          | ok counts ↦ ok (record counts { pending = counts.pending + 1 })
        ]
        | some stored ↦ elim m.content [
          | none ↦ err "Failed to read migration"
          | some content ↦ elim rest [
            | err e ↦ err e
            | ok counts ↦
                if text_eq stored [] || text_eq stored (hash content)
                then ok (record counts { applied = counts.applied + 1 })
                else ok (record counts { drift = counts.drift + 1 })
          ]
        ]
      ]

-- `db_status`.
unfoldable pub db_status :
    {D : Type 0} → (Text → Text) → Project D → Result String Status × Project D
unfolding db_init count_files list_migration_files
db_status hash s =
    let s = db_init s in
    (count_files hash (read_applied_migrations s.journal) (list_migration_files s.migrations), s)
