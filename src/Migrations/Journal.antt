-- ===== src/Migrations/Journal.antt =====
-- The journal: a line that is appended to it is read back, and changes no other entry.
use nestforge.Base.{
  ◌≡◌, ◌≢◌, refl, sym, ap, subst, fun_ext, ◌∙◌, ℕ, ◌==◌, ==_iff, ==_refl, false, Option, none, some,
  List, [], ◌∷◌, ◌++◌, append_assoc, ◌⊎◌, inl, inr, Text, cons_head, drop_last_empty, strip_return,
  strip_returns, split, split_once, text_lines, is_whitespace, All, All-append, All-weaken,
  split-append, split_once-append, trim_matches_of_none, Bool-cases,
}
use nestforge.Migrations.{
  AppliedMigrations, set_applied, insert_line, insert_lines, read_applied_migrations, journal_line,
  newline, bar,
}

-- The journal is empty or ends with a newline.
abbrev pub IsClosed : Text → Type 0
IsClosed s = (s ≡ []) ⊎ ((t : Text) × (s ≡ t ++ newline ∷ []))

-- A name or a hash that can stand in a line: no whitespace, and no bar in a name.
abbrev pub IsWord : Text → Type 0
IsWord = All (λ c. is_whitespace c ≡ false)

abbrev pub HasNoBar : Text → Type 0
HasNoBar = All (λ c. c ≢ bar)

cons_head-append :
    (c : ℕ) (w : Text) (ws vs : List Text)
    → cons_head c ((w ∷ ws) ++ vs) ≡ cons_head c (w ∷ ws) ++ vs
cons_head-append c w ws vs = refl

-- `split` gives at least one piece.
split_cons : (p : ℕ) (s : Text) → (w : Text) × (ws : List Text) × (split p s ≡ w ∷ ws)
unfolding split
split_cons p [] = ([], [], refl)
split_cons p (c ∷ cs) = elim (Bool-cases (c == p)) [
  | inl same ↦ ([], split p cs, rw same refl)
  | inr other ↦ let (w, ws, e) = split_cons p cs in (c ∷ w, ws, rw (other, split) (rw e refl))
]

split-separator : (p : ℕ) (s t : Text) → split p (s ++ p ∷ t) ≡ split p s ++ split p t
unfolding split
split-separator p [] t = rw (==_refl p, split) refl
split-separator p (c ∷ cs) t = elim (Bool-cases (c == p)) [
  | inl same ↦ rw (same, split) (ap (λ (l : List Text). [] ∷ l) (split-separator p cs t))
  | inr other ↦
      let (w, ws, e) = split_cons p cs in
      rw (other, split) (ap (cons_head c) (split-separator p cs t) ∙ rw e refl)
]

not_newline : (c : ℕ) → is_whitespace c ≡ false → c ≢ newline
not_newline c h e = cc (subst (λ d. is_whitespace d ≡ false) e h)

not_return : (c : ℕ) → is_whitespace c ≡ false → (c == 13) ≡ false
not_return c h = elim (Bool-cases (c == 13)) [
  | inr other ↦ other
  | inl same ↦ cc (subst (λ d. is_whitespace d ≡ false) ((==_iff c 13).0 same) h)
]

drop_last_empty-append : (ws : List Text) → drop_last_empty (ws ++ [] ∷ []) ≡ ws
drop_last_empty-append [] = refl
drop_last_empty-append ([] ∷ []) = refl
drop_last_empty-append ((c ∷ cs) ∷ []) = refl
drop_last_empty-append (w ∷ v ∷ ws) =
    ap (λ (l : List Text). w ∷ l) (drop_last_empty-append (v ∷ ws))

strip_returns-append :
    (ws vs : List Text) → strip_returns (ws ++ vs) ≡ strip_returns ws ++ strip_returns vs
strip_returns-append [] vs = refl
strip_returns-append (w ∷ ws) vs =
    ap (λ (l : List Text). strip_return w ∷ l) (strip_returns-append ws vs)

strip_return_of_word : (w : Text) → IsWord w → strip_return w ≡ w
strip_return_of_word [] h = refl
strip_return_of_word (c ∷ []) (h, _) = rw (not_return c h) refl
strip_return_of_word (c ∷ d ∷ ds) (_, h) =
    ap (λ (l : Text). c ∷ l) (strip_return_of_word (d ∷ ds) h)

insert_lines-append :
    (xs ys : List Text) (m : AppliedMigrations)
    → insert_lines (xs ++ ys) m ≡ insert_lines ys (insert_lines xs m)
unfolding insert_lines
insert_lines-append [] ys m = refl
insert_lines-append (x ∷ xs) ys m = insert_lines-append xs ys (insert_line x m)

-- The entry of a line.
entry_line : Text → Text → Text
entry_line name hash = name ++ bar ∷ hash

entry_line-IsWord : (name hash : Text) → IsWord name → IsWord hash → IsWord (entry_line name hash)
unfolding entry_line
entry_line-IsWord name hash hn hh = All-append _ name (bar ∷ hash) hn (refl, hh)

insert_line-entry_line :
    (name hash : Text) (m : AppliedMigrations)
    → IsWord name
    → IsWord hash
    → HasNoBar name
    → insert_line (entry_line name hash) m ≡ set_applied name hash m
unfolding insert_line entry_line
insert_line-entry_line name hash m hn hh no_bar =
    rw
      (
        trim_matches_of_none is_whitespace (name ++ bar ∷ hash) (entry_line-IsWord name hash hn hh),
        insert_line,
      )
      (by_name name (split_once-append bar name hash no_bar))
  where
    by_name :
        (n : Text)
        → split_once bar (n ++ bar ∷ hash) ≡ some (name, hash)
        → elim (n ++ bar ∷ hash) [
          | [] ↦ m
          | c ∷ cs ↦ elim (split_once bar (c ∷ cs)) [
            | some (other, stored) ↦ set_applied other stored m
            | none ↦ set_applied (c ∷ cs) [] m
          ]
        ]
          ≡ set_applied name hash m
    by_name [] e =
        ap
          (λ (o : Option (Text × Text)). elim o [
            | some (other, stored) ↦ set_applied other stored m
            | none ↦ set_applied (bar ∷ hash) [] m
          ])
          e
    by_name (c ∷ cs) e =
        ap
          (λ (o : Option (Text × Text)). elim o [
            | some (other, stored) ↦ set_applied other stored m
            | none ↦ set_applied (c ∷ (cs ++ bar ∷ hash)) [] m
          ])
          e

text_lines-closed : (t : Text) → text_lines (t ++ newline ∷ []) ≡ strip_returns (split newline t)
unfolding text_lines split
text_lines-closed t =
    ap (λ (l : List Text). strip_returns (drop_last_empty l)) (split-separator newline t [])
    ∙ ap strip_returns (drop_last_empty-append (split newline t))

split-journal_line :
    (name hash : Text)
    → IsWord name
    → IsWord hash
    → split newline (journal_line name hash) ≡ entry_line name hash ∷ [] ∷ []
unfolding split entry_line
split-journal_line name hash hn hh =
    ap (split newline) (sym (append_assoc name (bar ∷ hash) (newline ∷ [])))
    ∙ split-append newline (name ++ bar ∷ hash) []
        (All-weaken not_newline (name ++ bar ∷ hash) (entry_line-IsWord name hash hn hh))

strip_returns-entry_line :
    (ws : List Text) (name hash : Text)
    → IsWord name
    → IsWord hash
    → strip_returns (drop_last_empty (ws ++ entry_line name hash ∷ [] ∷ []))
      ≡ strip_returns ws ++ entry_line name hash ∷ []
strip_returns-entry_line ws name hash hn hh =
    ap (λ (l : List Text). strip_returns (drop_last_empty l))
      (sym (append_assoc ws (entry_line name hash ∷ []) ([] ∷ [])))
    ∙ ap strip_returns (drop_last_empty-append (ws ++ entry_line name hash ∷ []))
    ∙ strip_returns-append ws (entry_line name hash ∷ [])
    ∙ ap (λ (w : Text). strip_returns ws ++ w ∷ [])
        (strip_return_of_word (entry_line name hash) (entry_line-IsWord name hash hn hh))

-- The lines of a journal that a line has been appended to.
text_lines-journal_line :
    (t name hash : Text)
    → IsWord name
    → IsWord hash
    → text_lines (t ++ newline ∷ journal_line name hash)
      ≡ text_lines (t ++ newline ∷ []) ++ entry_line name hash ∷ []
unfolding text_lines
text_lines-journal_line t name hash hn hh =
    ap (λ (l : List Text). strip_returns (drop_last_empty l))
      (split-separator newline t (journal_line name hash)
        ∙ ap (λ (l : List Text). split newline t ++ l) (split-journal_line name hash hn hh))
    ∙ strip_returns-entry_line (split newline t) name hash hn hh
    ∙ ap (λ (l : List Text). l ++ entry_line name hash ∷ []) (sym (text_lines-closed t))

lines_of_first :
    (name hash : Text)
    → IsWord name
    → IsWord hash
    → text_lines (journal_line name hash) ≡ entry_line name hash ∷ []
unfolding text_lines
lines_of_first name hash hn hh =
    ap (λ (l : List Text). strip_returns (drop_last_empty l)) (split-journal_line name hash hn hh)
    ∙ strip_returns-entry_line [] name hash hn hh

IsClosed-journal_line : (content name hash : Text) → IsClosed (content ++ journal_line name hash)
IsClosed-journal_line content name hash = inr (
  content ++ (name ++ bar ∷ hash),
  ap (λ (l : Text). content ++ l) (sym (append_assoc name (bar ∷ hash) (newline ∷ [])))
      ∙ sym (append_assoc content (name ++ bar ∷ hash) (newline ∷ [])),
)

-- A line that is appended to a closed journal, of a name and a hash without white space and a name
-- without a bar, is read back as one more entry, in place of an earlier one
-- of its name, and the journal is closed again.
pub read_applied_migrations-journal_line :
    (content name hash : Text)
    → IsClosed content
    → IsWord name
    → IsWord hash
    → HasNoBar name
    → (read_applied_migrations (some (content ++ journal_line name hash))
        ≡ set_applied name hash (read_applied_migrations (some content)))
      × IsClosed (content ++ journal_line name hash)
unfolding read_applied_migrations
read_applied_migrations-journal_line content name hash closed hn hh no_bar = elim closed [
  | inl empty ↦ (
    fun_ext (λ other.
        ap (λ (c : Text). insert_lines (text_lines (c ++ journal_line name hash)) (λ n. none) other)
          empty
        ∙ ap (λ (l : List Text). insert_lines l (λ n. none) other) (lines_of_first name hash hn hh)
        ∙ ap (λ (m : AppliedMigrations). m other)
            (insert_line-entry_line name hash (λ n. none) hn hh no_bar)
        ∙ ap (λ (c : Text). set_applied name hash (insert_lines (text_lines c) (λ n. none)) other)
            (sym empty)),
    IsClosed-journal_line content name hash,
  )
  | inr (t, ended) ↦ (
    fun_ext (λ other.
        ap (λ (c : Text). insert_lines (text_lines c) (λ n. none) other)
          (ap (λ (c : Text). c ++ journal_line name hash) ended
            ∙ append_assoc t (newline ∷ []) (journal_line name hash))
        ∙ ap (λ (l : List Text). insert_lines l (λ n. none) other)
            (text_lines-journal_line t name hash hn hh)
        ∙ ap (λ (m : AppliedMigrations). m other)
            (insert_lines-append (text_lines (t ++ newline ∷ [])) (entry_line name hash ∷ [])
                (λ n. none)
              ∙ insert_line-entry_line name hash
                  (insert_lines (text_lines (t ++ newline ∷ [])) (λ n. none)) hn hh no_bar)
        ∙ ap (λ (c : Text). set_applied name hash (insert_lines (text_lines c) (λ n. none)) other)
            (sym ended)),
    IsClosed-journal_line content name hash,
  )
]
