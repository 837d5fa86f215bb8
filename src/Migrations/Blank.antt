-- ===== src/Migrations/Blank.antt =====
-- What `contains_sql_content` takes for nothing: white space and comments.
use nestforge.Base.{
  ℕ, ◌≡◌, refl, sym, Bool, true, false, not, ◌&&◌, [], ◌∷◌, ◌==◌, ==_iff, arith, ==_iff, subst, inl,
  inr, Bool-cases, Text, is_whitespace, ◌↔◌,
}
use nestforge.Migrations.{
  Reading, in_code, in_line_comment, in_block_comment, has_sql, contains_sql_content, dash, star,
  solidus, newline,
}

-- The grammar of a text without SQL, from a point in code, in a line comment, or in a block comment. A
-- comment that is not closed goes to the end.
pub data Blank : Reading → Text → Type 0 where
  ends : {reading : Reading} → Blank reading []
  space : {c : ℕ} {s : Text} → is_whitespace c ≡ true → Blank in_code s → Blank in_code (c ∷ s)
  line : {s : Text} → Blank in_line_comment s → Blank in_code (dash ∷ dash ∷ s)
  block : {s : Text} → Blank in_block_comment s → Blank in_code (solidus ∷ star ∷ s)
  line_ends : {s : Text} → Blank in_code s → Blank in_line_comment (newline ∷ s)
  line_goes_on :
      {c : ℕ} {s : Text}
      → (c == newline) ≡ false
      → Blank in_line_comment s
      → Blank in_line_comment (c ∷ s)
  block_ends : {s : Text} → Blank in_code s → Blank in_block_comment (star ∷ solidus ∷ s)
  unclosed : {c : ℕ} → Blank in_block_comment (c ∷ [])
  block_goes_on :
      {c d : ℕ} {s : Text}
      → ((c == star) && (d == solidus)) ≡ false
      → Blank in_block_comment (d ∷ s)
      → Blank in_block_comment (c ∷ d ∷ s)

-- White space does not begin a comment.
space_no_mark : (c : ℕ) → is_whitespace c ≡ true → ((c == dash) ≡ false) × ((c == solidus) ≡ false)
space_no_mark c h = ground arith

both : (c d x y : ℕ) → ((c == x) && (d == y)) ≡ true → (c ≡ x) × (d ≡ y)
both c d x y h = (ground arith, ground arith)

unblank : (b : Bool) → not b ≡ false → b ≡ true
unblank true h = refl
unblank false h = sym h

-- What the loop finds blank is in the grammar.
has_sql-Blank : (reading : Reading) (s : Text) → has_sql reading s ≡ false → Blank reading s
unfolding has_sql
has_sql-Blank reading [] h = ends
has_sql-Blank in_line_comment (c ∷ cs) h = elim (Bool-cases (c == newline)) [
  | inl is ↦
      subst (λ (d : ℕ). Blank in_line_comment (d ∷ cs)) (sym ((==_iff c newline).0 is))
        (line_ends (has_sql-Blank in_code cs (rw (is, has_sql) at h)))
  | inr differs ↦
      line_goes_on differs (has_sql-Blank in_line_comment cs (rw (differs, has_sql) at h))
]
has_sql-Blank in_block_comment (c ∷ []) h = unclosed
has_sql-Blank in_block_comment (c ∷ d ∷ ds) h = elim (Bool-cases ((c == star) && (d == solidus))) [
  | inl is ↦
      let (first, second) = both c d star solidus is in
      subst (λ (x : ℕ). Blank in_block_comment (x ∷ d ∷ ds)) (sym first)
        (subst (λ (x : ℕ). Blank in_block_comment (star ∷ x ∷ ds)) (sym second)
          (block_ends (has_sql-Blank in_code ds (rw (is, has_sql) at h))))
  | inr differs ↦
      block_goes_on differs (has_sql-Blank in_block_comment (d ∷ ds) (rw (differs, has_sql) at h))
]
has_sql-Blank in_code (c ∷ []) h = space (unblank (is_whitespace c) h) ends
has_sql-Blank in_code (c ∷ d ∷ ds) h = elim (Bool-cases ((c == dash) && (d == dash))) [
  | inl is ↦
      let (first, second) = both c d dash dash is in
      subst (λ (x : ℕ). Blank in_code (x ∷ d ∷ ds)) (sym first)
        (subst (λ (x : ℕ). Blank in_code (dash ∷ x ∷ ds)) (sym second)
          (line (has_sql-Blank in_line_comment ds (rw (is, has_sql) at h))))
  | inr no_line ↦ elim (Bool-cases ((c == solidus) && (d == star))) [
    | inl is ↦
        let (first, second) = both c d solidus star is in
        subst (λ (x : ℕ). Blank in_code (x ∷ d ∷ ds)) (sym first)
          (subst (λ (x : ℕ). Blank in_code (solidus ∷ x ∷ ds)) (sym second)
            (block (has_sql-Blank in_block_comment ds (rw (is) at rw (no_line, has_sql) at h))))
    | inr no_block ↦ elim (Bool-cases (is_whitespace c)) [
      | inl is ↦
          space is (
            has_sql-Blank in_code (d ∷ ds) (rw (is) at rw (no_block) at rw (no_line, has_sql) at h))
      | inr sql ↦ cc (rw (sql) at rw (no_block) at rw (no_line, has_sql) at h)
    ]
  ]
]

-- What is in the grammar, the loop finds blank.
Blank-has_sql : {reading : Reading} {s : Text} → Blank reading s → has_sql reading s ≡ false
unfolding has_sql
Blank-has_sql {reading = in_code} ends = refl
Blank-has_sql {reading = in_line_comment} ends = refl
Blank-has_sql {reading = in_block_comment} ends = refl
Blank-has_sql (space {c = c} {s = []} is rest) = rw (is, has_sql) refl
Blank-has_sql (space {c = c} {s = d ∷ ds} is rest) =
    let (no_dash, no_solidus) = space_no_mark c is in
    rw (no_dash, has_sql) (rw no_solidus (rw is (Blank-has_sql rest)))
Blank-has_sql (line rest) = Blank-has_sql rest
Blank-has_sql (block rest) = Blank-has_sql rest
Blank-has_sql (line_ends rest) = Blank-has_sql rest
Blank-has_sql (line_goes_on differs rest) = rw (differs, has_sql) (Blank-has_sql rest)
Blank-has_sql (block_ends rest) = Blank-has_sql rest
Blank-has_sql unclosed = refl
Blank-has_sql (block_goes_on differs rest) = rw (differs, has_sql) (Blank-has_sql rest)

-- A script is skipped, and recorded as applied without being executed, exactly if it is white space
-- and comments only: the scan of `contains_sql_content` agrees with the grammar of such texts, in which
-- an unclosed comment goes to the end, a block comment does not nest, and no quote is known.
pub contains_sql_content_iff : (sql : Text) → (contains_sql_content sql ≡ false) ↔ Blank in_code sql
unfolding contains_sql_content
contains_sql_content_iff sql = (has_sql-Blank in_code sql, Blank-has_sql)
