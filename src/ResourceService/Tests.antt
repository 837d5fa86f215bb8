-- ===== src/ResourceService/Tests.antt =====
-- The theorems on resource services at concrete inputs: objects are lists of fields, and an entity
-- has an id and an age.
use nestforge.Base.{
  ℕ, ◌≡◌, refl, Bool, true, false, Option, none, some, List, [], ◌∷◌, String, str_eq, if◌then◌else◌,
  Result, ok, err, All, arith, Bool-cases, inl, inr,
}
use nestforge.Store.{Identifiable, Store, with_seed}
use nestforge.Store.Create.{IsIdentifiable}
use nestforge.ResourceService.{Json, Serde, Dto, update_from}
use nestforge.ResourceService.Ids.{KeepsIds, Replaced, update_from-Replaced}

data Leaf : Type 0 where
  null : Leaf
  number : ℕ → Leaf

abbrev Fields : Type 0
Fields = List (String × Leaf)

data Tree : Type 0 where
  leaf : Leaf → Tree
  fields : Fields → Tree

abbrev lookup : String → Fields → Option Tree
lookup k [] = none
lookup k ((j, v) ∷ rest) = if str_eq j k then some (leaf v) else lookup k rest

abbrev put_field : String → Tree → Fields → Fields
put_field k (leaf v) o = (k, v) ∷ o
put_field k (fields _) o = (k, null) ∷ o

abbrev without : String → Fields → Fields
without k [] = []
without k ((j, v) ∷ rest) = if str_eq j k then without k rest else (j, v) ∷ without k rest

abbrev as_trees : Fields → List (String × Tree)
as_trees [] = []
as_trees ((k, v) ∷ rest) = (k, leaf v) ∷ as_trees rest

abbrev as_fields : Tree → Option Fields
as_fields (leaf v) = none
as_fields (fields o) = some o

abbrev is_null_tree : Tree → Bool
is_null_tree (leaf null) = true
is_null_tree (leaf (number n)) = false
is_null_tree (fields o) = false

abbrev trees : Json
trees = record {
  Value = Tree;
  Object = Fields;
  as_object = as_fields;
  object = fields;
  insert = put_field;
  remove = without;
  entries = as_trees;
  is_null = is_null_tree;
  from_u64 = λ n. leaf (number n);
}

record Person : Type 0 where
  id : ℕ
  age : ℕ

abbrev person : Identifiable Person
person = record { id = λ u. u.id; set_id = λ n u. record u { id = n } }

abbrev person-lawful : IsIdentifiable person
person-lawful = record { id-set_id = λ n u. refl }

abbrev number_at : String → Fields → Option ℕ
number_at k [] = none
number_at k ((j, v) ∷ rest) =
    if str_eq j k then elim v [ null ↦ none | number n ↦ some n ] else number_at k rest

abbrev from_fields : Fields → Result String Person
from_fields o = elim (number_at "id" o) [
  | none ↦ err "missing field `id`"
  | some n ↦ elim (number_at "age" o) [
    | none ↦ err "missing field `age`"
    | some a ↦ ok (record { id = n; age = a })
  ]
]

abbrev from_tree : Tree → Result String Person
from_tree (leaf v) = err "invalid type"
from_tree (fields o) = from_fields o

abbrev person_serde : Serde trees Person String
person_serde = record {
  to_value = λ u. ok (fields (("id", number u.id) ∷ ("age", number u.age) ∷ []));
  from_value = from_tree;
}

without_key :
    (k : String) (o : Fields)
    → All (λ (e : String × Tree). str_eq e.0 k ≡ false) (as_trees (without k o))
without_key k [] = tt
without_key k ((j, v) ∷ rest) = elim (Bool-cases (str_eq j k)) [
  | inl same ↦ rw same (without_key k rest)
  | inr other ↦ rw other (other, without_key k rest)
]

lookup-put_field :
    (j k : String) (v : Tree) (o : Fields)
    → str_eq j k ≡ false
    → lookup k (put_field j v o) ≡ lookup k o
lookup-put_field j k (leaf v) o h = rw h refl
lookup-put_field j k (fields v) o h = rw h refl

number-lookup :
    (o : Fields) (n : ℕ) → lookup "id" o ≡ some (leaf (number n)) → number_at "id" o ≡ some n
number-lookup [] n h = cc
number-lookup ((j, v) ∷ rest) n h = ground (arith, number-lookup rest n)

read_back :
    (x : Person) (o : Fields) (n : ℕ) → number_at "id" o ≡ some n → from_fields o ≡ ok x → x.id ≡ n
read_back x o n e h = ground arith

person-KeepsIds : KeepsIds trees person person_serde
person-KeepsIds = record {
  get = lookup;
  get-insert = lookup-put_field;
  entries-remove = without_key;
  written = λ x v o e h. ground arith;
  read = λ x o n e h. read_back x o n (number-lookup o n e) h;
}

abbrev one : Store person
one = with_seed person (record { id = 4; age = 30 } ∷ [])

abbrev dto : Dto trees person person_serde
dto = ok (fields (("id", number 99) ∷ ("age", number 31) ∷ []))

update_from-Replaced_example :
    Replaced trees person person_serde 4 one
      (update_from trees person person_serde 4 dto one).0
      (update_from trees person person_serde 4 dto one).1
update_from-Replaced_example =
    update_from-Replaced trees person person_serde person-KeepsIds 4 dto one

abbrev two : Store person
two = with_seed person (record { id = 4; age = 30 } ∷ record { id = 5; age = 31 } ∷ [])
