-- ===== src/Migrations.antt =====
-- crates/nestforge-cli/src/main.rs: the database commands `db init`, `db generate`, `db migrate` and
-- `db status`. The state is the application's directory of migrations, its journal of applied
-- migrations, and the database. SHA-256, the connection and a transaction are parameters; what is
-- printed is not modelled, but for the counts of `db status`.
pub mod Commands
pub mod Blank
pub mod Reports
pub mod Journal
pub mod Pending
pub mod Applied
mod Tests
use nestforge.Base.{
  ℕ, zero, suc, ◌+◌, Bool, true, false, not, ◌&&◌, ◌||◌, Option, none, some, List, [], ◌∷◌, ◌++◌,
  String, if◌then◌else◌, Result, ok, err, ◌==◌, ltb, Text, codes, text_eq, is_whitespace, trim,
  split_once, text_lines, decimal,
}

-- Characters of SQL comments.
abbrev pub dash : ℕ
dash = 45

abbrev pub star : ℕ
star = 42

abbrev pub solidus : ℕ
solidus = 47

abbrev pub newline : ℕ
newline = 10

-- Where the loop of `contains_sql_content` is.
pub data Reading : Type 0 where
  in_code in_line_comment in_block_comment : Reading

-- The loop; `peek` looks at the character behind the one that is read, and takes it.
unfoldable pub has_sql : Reading → Text → Bool
has_sql reading [] = false
has_sql in_line_comment (c ∷ cs) =
    if c == newline then has_sql in_code cs else has_sql in_line_comment cs
has_sql in_block_comment (c ∷ []) = false
has_sql in_block_comment (c ∷ d ∷ ds) =
    if (c == star) && (d == solidus) then has_sql in_code ds else has_sql in_block_comment (d ∷ ds)
has_sql in_code (c ∷ []) = not (is_whitespace c)
has_sql in_code (c ∷ d ∷ ds) =
    if (c == dash) && (d == dash)
    then has_sql in_line_comment ds
    else if (c == solidus) && (d == star)
    then has_sql in_block_comment ds
    else if is_whitespace c
    then has_sql in_code (d ∷ ds)
    else true

unfoldable pub contains_sql_content : Text → Bool
unfolding has_sql
contains_sql_content sql = has_sql in_code sql

-- A file of the directory, with its content where it can be read.
pub record MigrationFile : Type 0 where
  pub name : Text
  pub content : Option Text

-- The hashes of the applied migrations, by their names.
abbrev pub AppliedMigrations : Type 0
AppliedMigrations = Text → Option Text

abbrev pub set_applied : Text → Text → AppliedMigrations → AppliedMigrations
set_applied name hash applied other = if text_eq name other then some hash else applied other

abbrev pub bar : ℕ
bar = 124

-- A line of the journal; one of an older format has no hash.
unfoldable pub insert_line : Text → AppliedMigrations → AppliedMigrations
unfolding text_eq split_once
insert_line line applied = elim (trim line) [
  | [] ↦ applied
  | c ∷ cs ↦ elim (split_once bar (c ∷ cs)) [
    | some (name, hash) ↦ set_applied name hash applied
    | none ↦ set_applied (c ∷ cs) [] applied
  ]
]

unfoldable pub insert_lines : List Text → AppliedMigrations → AppliedMigrations
unfolding insert_line
insert_lines [] applied = applied
insert_lines (line ∷ lines) applied = insert_lines lines (insert_line line applied)

-- `read_applied_migrations`.
unfoldable pub read_applied_migrations : Option Text → AppliedMigrations
unfolding insert_lines text_lines
read_applied_migrations none name = none
read_applied_migrations (some content) name = insert_lines (text_lines content) (λ other. none) name

-- The line that `append_applied_migration` writes.
abbrev pub journal_line : Text → Text → Text
journal_line name hash = name ++ bar ∷ (hash ++ newline ∷ [])

-- The order of paths in one directory.
abbrev pub comes_before : Text → Text → Bool
comes_before [] t = true
comes_before (c ∷ cs) [] = false
comes_before (c ∷ cs) (d ∷ ds) = if c == d then comes_before cs ds else ltb c d

unfoldable pub insert_sorted : MigrationFile → List MigrationFile → List MigrationFile
insert_sorted m [] = m ∷ []
insert_sorted m (n ∷ ns) =
    let rest = insert_sorted m ns in if comes_before m.name n.name then m ∷ n ∷ ns else n ∷ rest

unfoldable pub sorted : List MigrationFile → List MigrationFile
unfolding insert_sorted
sorted [] = []
sorted (m ∷ ms) = insert_sorted m (sorted ms)
