-- ===== src/ResourceService.antt =====
-- crates/nestforge-core/src/resource_service.rs: `ResourceService`, over an `InMemoryStore`. The
-- JSON values and maps of serde_json and the serializers that an entity type derives are
-- parameters. A DTO is what `serde_json::to_value` makes of it. One call runs at a time.
pub mod Ids
mod Tests
use nestforge.Base.{
  ℕ, Bool, true, false, Option, none, some, List, [], ◌∷◌, String, if◌then◌else◌, Result, ok, err,
}
use nestforge.Store.{Identifiable, Store, find_by_id, create, update_by_id, replace_by_id}

-- `serde_json::Value` and `serde_json::Map`.
pub record Json : Type 1 where
  pub Value : Type 0
  pub Object : Type 0
  pub as_object : Value → Option Object
  pub object : Object → Value
  pub insert : String → Value → Object → Object
  pub remove : String → Object → Object
  pub entries : Object → List (String × Value)
  pub is_null : Value → Bool
  pub from_u64 : ℕ → Value

-- `Serialize` and `DeserializeOwned` of an entity type, with serde_json's error.
pub record Serde (json : Json) (T Error : Type 0) : Type 0 where
  pub to_value : T → Result Error json.Value
  pub from_value : json.Value → Result Error T

pub data ResourceError (Error : Type 0) : Type 0 where
  serialize : Error → ResourceError Error
  dto_not_object entity_not_object : ResourceError Error

module _ (json : Json) {T Error : Type 0} (entity : Identifiable T)
    (serde : Serde json T Error) where
  abbrev pub Dto : Type 0
  Dto = Result Error json.Value

  unfoldable pub exists : ℕ → Store entity → Bool
  exists n s = elim (find_by_id entity n s) [ none ↦ false | some _ ↦ true ]

  -- `from_value` of an object, its error turned by `?`.
  abbrev pub parse : json.Object → Result (ResourceError Error) T
  parse map = elim (serde.from_value (json.object map)) [ err e ↦ err (serialize e) | ok x ↦ ok x ]

  -- The object that a DTO serializes into.
  abbrev pub dto_object : Dto → Result (ResourceError Error) json.Object
  dto_object (err e) = err (serialize e)
  dto_object (ok v) = elim (json.as_object v) [ none ↦ err dto_not_object | some map ↦ ok map ]

  -- A DTO that names no id of its own.
  abbrev pub dto_entity : ℕ → Dto → Result (ResourceError Error) T
  dto_entity n dto = elim (dto_object dto) [
    | err e ↦ err e
    | ok map ↦ parse (json.insert "id" (json.from_u64 n) map)
  ]

  -- `none` is the panic of the store.
  unfoldable pub create_from :
      Dto → Store entity → Option (Result (ResourceError Error) T × Store entity)
  create_from dto s = elim (dto_entity 0 dto) [
    | err e ↦ some (err e, s)
    | ok x ↦ elim (create entity x s) [ none ↦ none | some (stored, s') ↦ some (ok stored, s') ]
  ]

  -- `for (key, value) in dto_map { if !value.is_null() { entity_map.insert(key, value); } }`
  unfoldable pub overlay : List (String × json.Value) → json.Object → json.Object
  overlay [] map = map
  overlay ((key, value) ∷ rest) map =
      overlay rest (if json.is_null value then map else json.insert key value map)

  -- The existing entity with the fields of the DTO in it.
  unfoldable pub merge : json.Object → T → Result (ResourceError Error) T
  unfolding overlay
  merge dto_map existing = elim (serde.to_value existing) [
    | err e ↦ err (serialize e)
    | ok v ↦ elim (json.as_object v) [
      | none ↦ err entity_not_object
      | some entity_map ↦ parse (overlay (json.entries (json.remove "id" dto_map)) entity_map)
    ]
  ]

  unfoldable pub update_from :
      ℕ → Dto → Store entity → Result (ResourceError Error) (Option T) × Store entity
  unfolding merge
  update_from n dto s = elim (dto_object dto) [
    | err e ↦ (err e, s)
    | ok dto_map ↦ elim (find_by_id entity n s) [
      | none ↦ (ok none, s)
      | some existing ↦ elim (merge dto_map existing) [
        | err e ↦ (err e, s)
        | ok merged ↦ let (updated, s') = update_by_id entity n (λ _. merged) s in (ok updated, s')
      ]
    ]
  ]

  unfoldable pub replace_from :
      ℕ → Dto → Store entity → Result (ResourceError Error) (Option T) × Store entity
  replace_from n dto s = elim (dto_entity n dto) [
    | err e ↦ (err e, s)
    | ok replacement ↦ let (updated, s') = replace_by_id entity n replacement s in (ok updated, s')
  ]
