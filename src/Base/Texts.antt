-- ===== src/Base/Texts.antt =====
-- Texts that the code takes apart: lists of code points, with the operations of `str` that the
-- routes are made with.
use Prim.Native.Char.{code}
use Prim.Native.Nat.{ℕ}
use Prim.Native.String.{String}
use mathlib.Core.Path.{◌≡◌, refl}
use mathlib.Core.Logic.{◌⊎◌, ◌↔◌, inl, inr}
use mathlib.Core.Bool.{Bool, true, false, ◌||◌, ◌&&◌}
use mathlib.Core.Option.{Option, none, some}
use mathlib.Core.List.{List, [], ◌∷◌, ◌++◌}
use native.Mathlib.Omega.{arith}
use nestforge.Base.Tests.{◌==◌, if◌then◌else◌, leb, Bool-cases}

abbrev pub Text : Type 0
Text = List ℕ

-- The code points of a literal.
abbrev pub codes : String → Text
codes String.[] = []
codes (String.◌∷◌ c s) = code c ∷ codes s

abbrev pub slash : ℕ
slash = 47

abbrev pub is_slash : ℕ → Bool
is_slash c = c == slash

-- `char::is_whitespace`: the property White_Space.
abbrev pub is_whitespace : ℕ → Bool
is_whitespace c =
    (leb 9 c && leb c 13)
    || (c == 32
        || (c == 133
            || (c == 160
                || (c == 5760
                    || ((leb 8192 c && leb c 8202)
                        || (c == 8232
                            || (c == 8233 || (c == 8239 || (c == 8287 || c == 12288)))))))))

unfoldable pub text_eq : Text → Text → Bool
text_eq [] [] = true
text_eq [] (d ∷ ds) = false
text_eq (c ∷ cs) [] = false
text_eq (c ∷ cs) (d ∷ ds) = (c == d) && text_eq cs ds

unfoldable pub starts_with : Text → Text → Bool
starts_with [] s = true
starts_with (c ∷ cs) [] = false
starts_with (c ∷ cs) (d ∷ ds) = (c == d) && starts_with cs ds

unfoldable pub strip_prefix : Text → Text → Option Text
strip_prefix [] s = some s
strip_prefix (c ∷ cs) [] = none
strip_prefix (c ∷ cs) (d ∷ ds) = if c == d then strip_prefix cs ds else none

-- The pieces of a text between the places of a character; `cons_head` puts a character in front of
-- the first piece.
abbrev pub cons_head : ℕ → List Text → List Text
cons_head c [] = (c ∷ []) ∷ []
cons_head c (w ∷ ws) = (c ∷ w) ∷ ws

unfoldable pub split : ℕ → Text → List Text
split p [] = [] ∷ []
split p (c ∷ cs) = let rest = split p cs in if c == p then [] ∷ rest else cons_head c rest

unfoldable pub split_once : ℕ → Text → Option (Text × Text)
split_once p [] = none
split_once p (c ∷ cs) =
    let rest = split_once p cs in
    if c == p
    then some ([], cs)
    else elim rest [ none ↦ none | some (before, after) ↦ some (c ∷ before, after) ]

-- Without the empty piece behind the last separator.
abbrev pub drop_last_empty : List Text → List Text
drop_last_empty [] = []
drop_last_empty ([] ∷ []) = []
drop_last_empty ((c ∷ cs) ∷ []) = (c ∷ cs) ∷ []
drop_last_empty (w ∷ v ∷ ws) = w ∷ drop_last_empty (v ∷ ws)

-- A line without the carriage return that it ends with.
abbrev pub strip_return : Text → Text
strip_return [] = []
strip_return (c ∷ []) = if c == 13 then [] else c ∷ []
strip_return (c ∷ d ∷ ds) = c ∷ strip_return (d ∷ ds)

abbrev pub strip_returns : List Text → List Text
strip_returns [] = []
strip_returns (w ∷ ws) = strip_return w ∷ strip_returns ws

-- `str::lines`.
unfoldable pub text_lines : Text → List Text
unfolding split
text_lines s = strip_returns (drop_last_empty (split 10 s))

unfoldable pub trim_start_matches : (ℕ → Bool) → Text → Text
trim_start_matches p [] = []
trim_start_matches p (c ∷ cs) = if p c then trim_start_matches p cs else c ∷ cs

unfoldable pub trim_end_matches : (ℕ → Bool) → Text → Text
trim_end_matches p [] = []
trim_end_matches p (c ∷ cs) =
    let rest = trim_end_matches p cs in
    elim rest [ [] ↦ if p c then [] else c ∷ [] | x ∷ xs ↦ c ∷ x ∷ xs ]

abbrev pub trim_matches : (ℕ → Bool) → Text → Text
trim_matches p s = trim_end_matches p (trim_start_matches p s)

abbrev pub trim : Text → Text
trim s = trim_matches is_whitespace s

pub text_eq_iff : (s t : Text) → (text_eq s t ≡ true) ↔ (s ≡ t)
unfolding text_eq
text_eq_iff [] [] = ground arith
text_eq_iff [] (d ∷ ds) = ground arith
text_eq_iff (c ∷ cs) [] = ground arith
text_eq_iff (c ∷ cs) (d ∷ ds) = ground (arith, text_eq_iff cs ds)

pub starts_with_iff : (p s : Text) → (starts_with p s ≡ true) ↔ ((rest : Text) × (s ≡ p ++ rest))
unfolding starts_with
starts_with_iff [] s = ((λ h. (s, refl)), λ h. refl)
starts_with_iff (c ∷ cs) [] = ((λ h. cc), λ (rest, e). cc)
starts_with_iff (c ∷ cs) (d ∷ ds) = (
  (λ h.
      let (rest, e) = (starts_with_iff cs ds).0 (ground arith) in
      let same : c ≡ d = ground arith in (rest, ground arith)),
  λ (rest, e). let h = (starts_with_iff cs ds).1 (rest, ground arith) in ground arith,
)

-- A text does not end with a character that `trim_end_matches` has trimmed.
abbrev pub EndsOutside : (ℕ → Bool) → Text → Type 0
EndsOutside p [] = Unit
EndsOutside p (c ∷ []) = p c ≡ false
EndsOutside p (c ∷ d ∷ ds) = EndsOutside p (d ∷ ds)

pub trim_end_matches-EndsOutside : (p : ℕ → Bool) (s : Text) → EndsOutside p (trim_end_matches p s)
unfolding trim_end_matches
trim_end_matches-EndsOutside p [] = tt
trim_end_matches-EndsOutside p (c ∷ cs) =
    go (trim_end_matches p cs) (trim_end_matches-EndsOutside p cs)
  where
    go :
        (rest : Text)
        → EndsOutside p rest
        → EndsOutside p (elim rest [ [] ↦ if p c then [] else c ∷ [] | x ∷ xs ↦ c ∷ x ∷ xs ])
    go [] h = elim (Bool-cases (p c)) [ inl outer ↦ rw outer tt | inr inner ↦ rw inner inner ]
    go (x ∷ xs) h = h

pub trim_end_matches_head :
    (p : ℕ → Bool) (c : ℕ) (cs : Text)
    → ((trim_end_matches p (c ∷ cs) ≡ []) × (p c ≡ true))
      ⊎ ((ds : Text) × (trim_end_matches p (c ∷ cs) ≡ c ∷ ds))
unfolding trim_end_matches
trim_end_matches_head p c cs = go (trim_end_matches p cs) refl
  where
    go :
        (rest : Text)
        → trim_end_matches p cs ≡ rest
        → ((trim_end_matches p (c ∷ cs) ≡ []) × (p c ≡ true))
          ⊎ ((ds : Text) × (trim_end_matches p (c ∷ cs) ≡ c ∷ ds))
    go (x ∷ xs) e = inr (x ∷ xs, rw (e, trim_end_matches) refl)
    go [] e = elim (Bool-cases (p c)) [
      | inl outer ↦ inl (rw (e, outer, trim_end_matches) refl, outer)
      | inr inner ↦ inr ([], rw (e, inner, trim_end_matches) refl)
    ]
