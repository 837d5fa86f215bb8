-- ===== src/Store/Tests.antt =====
-- The theorems on the store at concrete inputs.
use nestforge.Base.{ℕ, refl, [], ◌∷◌, String}
use nestforge.Store.{Identifiable, Store, with_seed}
use nestforge.Store.Create.{IsIdentifiable}

record User : Type 0 where
  id : ℕ
  name : String

abbrev user : Identifiable User
user = record { id = λ u. u.id; set_id = λ n u. record u { id = n } }

abbrev user-lawful : IsIdentifiable user
user-lawful = record { id-set_id = λ n u. refl }

abbrev numbered : ℕ → String → User
numbered n name = record { id = n; name = name }

abbrev two : Store user
two = with_seed user (numbered 1 "Ann" ∷ numbered 5 "Bob" ∷ [])

abbrev three : Store user
three = with_seed user (numbered 1 "Ann" ∷ numbered 5 "Bob" ∷ numbered 6 "Cy" ∷ [])

abbrev full : Store user
full = with_seed user (numbered 0 "Ann" ∷ numbered 18446744073709551615 "Bob" ∷ [])

abbrev overfull : Store user
overfull =
    with_seed user (numbered 0 "Ann" ∷ numbered 18446744073709551615 "Bob" ∷ numbered 0 "Cy" ∷ [])
