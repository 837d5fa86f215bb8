-- ===== src/Migrations/Pending.antt =====
-- Which files are pending, by the journal.
use nestforge.Base.{
  ◌≡◌, refl, some, List, [], ◌∷◌, inl, inr, Option-cases, Bool-cases, Text, text_eq, text_eq_iff,
  All,
}
use nestforge.Migrations.{MigrationFile, AppliedMigrations, set_applied}
use nestforge.Migrations.Commands.{pending_of}
use nestforge.Migrations.Journal.{IsWord, HasNoBar}

-- The name is in the journal.
abbrev pub Known : AppliedMigrations → Text → Type 0
Known applied name = (hash : Text) × (applied name ≡ some hash)

-- A name that a line of the journal can hold.
abbrev pub IsFileName : Text → Type 0
IsFileName name = IsWord name × HasNoBar name

pub Known-set_applied :
    (name hash : Text) (applied : AppliedMigrations) → Known (set_applied name hash applied) name
Known-set_applied name hash applied = (hash, rw ((text_eq_iff name name).1 refl) refl)

pub Known-set_applied_other :
    (name hash other : Text) (applied : AppliedMigrations)
    → Known applied other
    → Known (set_applied name hash applied) other
Known-set_applied_other name hash other applied (stored, e) =
    elim (Bool-cases (text_eq name other)) [
      | inl same ↦ (hash, rw same refl)
      | inr differ ↦ (stored, rw differ e)
    ]

-- If all that was pending is known in a journal that keeps what was known, nothing is pending there.
pub pending_of_known :
    (before after : AppliedMigrations) (ms : List MigrationFile)
    → ((name : Text) → Known before name → Known after name)
    → All (λ (m : MigrationFile). Known after m.name) (pending_of before ms)
    → pending_of after ms ≡ []
unfolding pending_of
pending_of_known before after [] keeps known = refl
pending_of_known before after (m ∷ ms) keeps known = elim (Option-cases (before m.name)) [
  | inl absent ↦
      let (here, rest) = rw (absent, pending_of) at known in
      rw (here.1, pending_of) (pending_of_known before after ms keeps rest)
  | inr (stored, found) ↦
      let (hash, e) = keeps m.name (stored, found) in
      rw (e, pending_of) (pending_of_known before after ms keeps (rw (found, pending_of) at known))
]

pub All-pending_of :
    (P : MigrationFile → Type 0) (applied : AppliedMigrations) (ms : List MigrationFile)
    → All P ms
    → All P (pending_of applied ms)
unfolding pending_of
All-pending_of P applied [] h = tt
All-pending_of P applied (m ∷ ms) (h, hs) = elim (Option-cases (applied m.name)) [
  | inl absent ↦ rw (absent, pending_of) (h, All-pending_of P applied ms hs)
  | inr (stored, found) ↦ rw (found, pending_of) (All-pending_of P applied ms hs)
]
