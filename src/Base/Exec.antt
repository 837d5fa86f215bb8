-- ===== src/Base/Exec.antt =====
-- Fallible code over a state, with fuel: `none` where the fuel runs out, else the result and the
-- state that is left, after an error too. A `?` is a bind.
pub mod Keeps
pub mod Invert
pub mod Total
use mathlib.Core.Option.{Option, none, some}
use nestforge.Base.Results.{Result, ok, err}

abbrev pub Exec : Type 0 → Type 0 → Type 0 → Type 0
Exec S E A = S → Option (Result E A × S)

module _ {S E A : Type 0} where
  unfoldable pub pure : A → Exec S E A
  pure a s = some (ok a, s)

  unfoldable pub throw : E → Exec S E A
  throw e s = some (err e, s)

  unfoldable pub lift : Result E A → Exec S E A
  lift r s = some (r, s)

  -- A fallible read of the state.
  unfoldable pub asks : (S → Result E A) → Exec S E A
  asks f s = some (f s, s)

module _ {S E : Type 0} where
  unfoldable pub modify : (S → S) → Exec S E (Unit {0})
  modify f s = some (ok tt, f s)

module _ {S E A B : Type 0} where
  infixl 5 ◌>>=◌
  unfoldable pub ◌>>=◌ : Exec S E A → (A → Exec S E B) → Exec S E B
  ◌>>=◌ m f s = elim (m s) [
    | none ↦ none
    | some (ok a, s') ↦ f a s'
    | some (err e, s') ↦ some (err e, s')
  ]

module _ {S E B : Type 0} where
  infixl 5 ◌>>◌
  abbrev pub ◌>>◌ : Exec S E (Unit {0}) → Exec S E B → Exec S E B
  m >> k = m >>= λ _. k

module _ {S E F A : Type 0} where
  -- `match`ing on the result of a call in place of `?`.
  unfoldable pub try : Exec S E A → Exec S F (Result E A)
  try m s = elim (m s) [ none ↦ none | some (r, s') ↦ some (ok r, s') ]

  unfoldable pub map_error : (E → F) → Exec S E A → Exec S F A
  map_error f m s = elim (m s) [
    | none ↦ none
    | some (ok a, s') ↦ some (ok a, s')
    | some (err e, s') ↦ some (err (f e), s')
  ]

-- `match option { None => m, Some(a) => f(a) }`.
unfoldable pub on_option :
    {S E A B : Type 0} → Option A → Exec S E B → (A → Exec S E B) → Exec S E B
on_option none m f = m
on_option (some a) m f = f a
