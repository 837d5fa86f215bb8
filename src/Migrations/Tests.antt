-- ===== src/Migrations/Tests.antt =====
-- The theorems on the database commands at concrete inputs. The database is the list of the scripts
-- that it has executed; a script that begins with an exclamation mark fails.
use nestforge.Base.{
  ◌≡◌, refl, List, [], ◌∷◌, ◌++◌, Bool, true, false, none, some, String, Result, ok, err, inl, inr,
  Text, codes, ◌==◌, text_eq, trim_end_matches, trim_start_matches, decimal, is_whitespace, not,
  ◌↔◌, ◌&&◌, arith, All, subst, sym,
}
use nestforge.Migrations.{
  MigrationFile, AppliedMigrations, set_applied, in_code, contains_sql_content,
  read_applied_migrations, journal_line, bar,
}
use nestforge.Migrations.Commands.{
  Project, db_init, db_generate, db_migrate, db_status, pending_of, apply_migrations, count_files,
  list_migration_files,
}
use nestforge.Migrations.Journal.{IsClosed, read_applied_migrations-journal_line}
use nestforge.Migrations.Pending.{IsFileName}
use nestforge.Migrations.Applied.{db_migrate_again}
use nestforge.Migrations.Blank.{Blank, contains_sql_content_iff}
use nestforge.Migrations.Reports.{Stopped, apply_migrations-Stopped}

abbrev hash : Text → Text
hash sql = codes "ab"

abbrev transaction : Text → List Text → Result String (Unit {0}) × List Text
transaction [] d = (ok tt, d)
transaction (c ∷ cs) d = elim (c == 33) [
  | true ↦ (err "failed while executing SQL script", d)
  | false ↦ (ok tt, d ++ (c ∷ cs) ∷ [])
]

abbrev file : String → String → MigrationFile
file name content = record { name = codes name; content = some (codes content) }

abbrev project : Project (List Text)
project = record {
  migrations = file "2_b.sql" "SELECT 1" ∷ file "notes.txt" "a" ∷ file "1_a.SQL" "-- x" ∷ [];
  journal = none;
  writable = true;
  database = [];
}

abbrev migrated : Project (List Text)
migrated = record project {
  journal = some (codes "1_a.SQL|ab\n2_b.sql|ab\n");
  database = codes "SELECT 1" ∷ [];
}

listed :
    list_migration_files project.migrations ≡ file "1_a.SQL" "-- x" ∷ file "2_b.sql" "SELECT 1" ∷ []
unfolding list_migration_files text_eq
listed = refl

first_run : db_migrate hash transaction (ok tt) project ≡ (ok tt, migrated)
unfolding db_migrate db_init list_migration_files apply_migrations contains_sql_content
    read_applied_migrations pending_of text_eq
first_run = refl

status :
    db_status hash project
    ≡ (ok (record { applied = 0; pending = 2; drift = 0 }), record project { journal = some [] })
unfolding db_status text_eq read_applied_migrations
status = refl

status_after : (db_status hash migrated).0 ≡ ok (record { applied = 2; pending = 0; drift = 0 })
unfolding db_status text_eq read_applied_migrations trim_end_matches trim_start_matches
status_after = refl

generated :
    (db_generate (codes "--") 17 (codes "add_users") project).1.migrations
    ≡ project.migrations ++ file "17_add_users.sql" "--" ∷ []
unfolding db_generate db_init decimal text_eq
generated = refl

-- The name of a file, as a test.
abbrev is_file_name : Text → Bool
is_file_name [] = true
is_file_name (c ∷ cs) = not (is_whitespace c) && (not (c == bar) && is_file_name cs)

IsFileName_of : (name : Text) → is_file_name name ≡ true → IsFileName name
IsFileName_of [] h = (tt, tt)
IsFileName_of (c ∷ cs) h =
    let (word, no_bar) = IsFileName_of cs (ground arith) in
    (((ground arith), word), ((ground arith), no_bar))

-- The names have no white space and no bar.
names : All (λ (m : MigrationFile). IsFileName m.name) (list_migration_files project.migrations)
names =
    subst (All (λ (m : MigrationFile). IsFileName m.name)) (sym listed)
      (IsFileName_of (codes "1_a.SQL") refl, (IsFileName_of (codes "2_b.sql") refl, tt))

db_migrate_again_example :
    db_migrate hash transaction (err "no connection") migrated ≡ (ok tt, migrated)
db_migrate_again_example =
    db_migrate_again hash transaction (λ sql. (refl, (refl, tt))) (ok tt) (err "no connection")
      project migrated (inl refl) names first_run

contains_sql_content_iff_example :
    (contains_sql_content (codes " -- x\n/* /* SELECT */ -- y") ≡ false)
    ↔ Blank in_code (codes " -- x\n/* /* SELECT */ -- y")
contains_sql_content_iff_example = contains_sql_content_iff (codes " -- x\n/* /* SELECT */ -- y")

-- A comment within a comment does not count, and a script behind it is seen.
nested : contains_sql_content (codes "/* /* */ */") ≡ true
unfolding contains_sql_content
nested = refl

abbrev files : List MigrationFile
files = file "1_a.sql" "-- x" ∷ file "2_b.sql" "!" ∷ file "3_c.sql" "SELECT 1" ∷ []

abbrev half_way : Project (List Text)
half_way = record project { journal = some (codes "1_a.sql|ab\n") }

stops :
    apply_migrations hash transaction files project
    ≡ (err "failed while executing SQL script", half_way)
unfolding apply_migrations contains_sql_content
stops = refl

apply_migrations-Stopped_example :
    Stopped hash transaction files project "failed while executing SQL script" half_way
apply_migrations-Stopped_example =
    apply_migrations-Stopped hash transaction files project half_way
      "failed while executing SQL script" stops

-- What is known of two files.
abbrev journal : AppliedMigrations
journal =
    set_applied (codes "1_a.sql") (codes "ab")
      (set_applied (codes "2_b.sql") (codes "x") (λ n. none))

counted : count_files hash journal files ≡ ok (record { applied = 1; pending = 1; drift = 1 })
unfolding count_files text_eq
counted = refl

read_applied_migrations-journal_line_example :
    (read_applied_migrations
        (some (codes "1_a.sql|ab\n" ++ journal_line (codes "2_b.sql") (codes "cd")))
      ≡ set_applied
          (codes "2_b.sql")
          (codes "cd")
          (read_applied_migrations (some (codes "1_a.sql|ab\n"))))
    × IsClosed (codes "1_a.sql|ab\n" ++ journal_line (codes "2_b.sql") (codes "cd"))
read_applied_migrations-journal_line_example =
    read_applied_migrations-journal_line (codes "1_a.sql|ab\n") (codes "2_b.sql") (codes "cd")
      (inr (codes "1_a.sql|ab", refl)) (IsFileName_of (codes "2_b.sql") refl).0 (refl, (refl, tt))
      (IsFileName_of (codes "2_b.sql") refl).1
