-- ===== src/ResourceService/Ids.antt =====
-- The ids that a resource service keeps, whatever its DTOs say, and what its errors leave.
use nestforge.Base.{
  ℕ, ◌+◌, ◌<◌, ◌≡◌, ◌≢◌, refl, suc, false, Option, none, some, List, [], ◌∷◌, String, Result, ok,
  err, All, str_eq, arith, Bool-cases, Option-cases, Result-cases, inl, inr, subst, ◌∙◌,
}
use nestforge.Store.{Identifiable, Store, find_by_id, create, highest, count, u64_size}
use nestforge.Store.Lookup.{find-has_id}
use nestforge.Store.Create.{IsIdentifiable, create_lem}
use nestforge.Store.Change.{Changed, update_by_id-Changed, replace_by_id-Changed}
use nestforge.ResourceService.{
  Json, Serde, ResourceError, Dto, dto_object, dto_entity, parse, create_from, overlay, merge,
  update_from, replace_from,
}

-- What serde_json and a derived serializer promise of the field `id`.
pub record KeepsIds (json : Json) {T Error : Type 0} (entity : Identifiable T)
    (serde : Serde json T Error) : Type 0 where
  pub get : String → json.Object → Option json.Value
  pub get-insert :
      (j k : String) (v : json.Value) (map : json.Object)
      → str_eq j k ≡ false
      → get k (json.insert j v map) ≡ get k map
  pub entries-remove :
      (k : String) (map : json.Object)
      → All (λ (e : String × json.Value). str_eq e.0 k ≡ false) (json.entries (json.remove k map))
  pub written :
      (x : T) (v : json.Value) (map : json.Object)
      → serde.to_value x ≡ ok v
      → json.as_object v ≡ some map
      → get "id" map ≡ some (json.from_u64 (entity.id x))
  pub read :
      (x : T) (map : json.Object) (n : ℕ)
      → get "id" map ≡ some (json.from_u64 n)
      → serde.from_value (json.object map) ≡ ok x
      → entity.id x ≡ n

module _ (json : Json) {T Error : Type 0} (entity : Identifiable T)
    (serde : Serde json T Error) where
  parse-eq-ok :
      (map : json.Object) (x : T)
      → parse json entity serde map ≡ ok x
      → serde.from_value (json.object map) ≡ ok x
  parse-eq-ok map x h = ground arith

  -- What an update or a replacement makes of the store: an error or a missing id leaves it as it is,
  -- and else the entity returned is the one that it holds under the id, and nothing else has changed.
  abbrev pub Replaced :
      ℕ → Store entity → Result (ResourceError Error) (Option T) → Store entity → Type 0
  Replaced n s (err e) s' = s' ≡ s
  Replaced n s (ok none) s' = (find_by_id entity n s ≡ none) × (s' ≡ s)
  Replaced n s (ok (some x)) s' =
      (entity.id x ≡ n)
      × (find_by_id entity n s' ≡ some x)
      × ((m : ℕ) → m ≢ n → find_by_id entity m s' ≡ find_by_id entity m s)
      × (count entity s' ≡ count entity s)

  Replaced-Changed :
      (n : ℕ) (x : T) (s s' : Store entity) (o : Option T)
      → entity.id x ≡ n
      → Changed entity n (λ _. x) s o s'
      → Replaced n s (ok o) s'
  Replaced-Changed n x s s' none same (inl (missing, _, kept)) = (missing, kept)
  Replaced-Changed n x s s' none same (inr (y, found, e, now, others, size)) = cc
  Replaced-Changed n x s s' (some z) same (inl (missing, e, kept)) = cc
  Replaced-Changed n x s s' (some z) same (inr (y, found, e, now, others, size)) =
      let it : z ≡ x = ground arith in (rw it same, rw it now, others, size)

  -- What a creation makes of the store.
  abbrev pub Created : Store entity → Result (ResourceError Error) T → Store entity → Type 0
  Created s (err e) s' = s' ≡ s
  Created s (ok x) s' =
      (find_by_id entity (entity.id x) s ≡ none)
      × (find_by_id entity (entity.id x) s' ≡ some x)
      × ((m : ℕ) → m ≢ entity.id x → find_by_id entity m s' ≡ find_by_id entity m s)
      × (count entity s' ≡ suc (count entity s))

  carry :
      (s s1 s2 : Store entity) (q r : Result (ResourceError Error) T)
      → ◌≡◌ {A = Option (Result (ResourceError Error) T × Store entity)}
          (some (q, s1))
          (some (r, s2))
      → Created s q s1
      → Created s r s2
  carry s s1 s2 q r h c =
      let same : q ≡ r = ground arith in
      let same' : s1 ≡ s2 = ground arith in
      subst (λ t. Created s r t) same' (subst (λ o. Created s o s1) same c)

module _ (json : Json) {T Error : Type 0} (entity : Identifiable T) (serde : Serde json T Error)
    (keeps : KeepsIds json entity serde) where
  get-overlay :
      (fields : List (String × json.Value)) (map : json.Object)
      → All (λ (e : String × json.Value). str_eq e.0 "id" ≡ false) fields
      → keeps.get "id" (overlay json entity serde fields map) ≡ keeps.get "id" map
  unfolding overlay
  get-overlay [] map h = refl
  get-overlay ((k, v) ∷ fields) map h = elim (Bool-cases (json.is_null v)) [
    | inl null ↦ rw null (get-overlay fields map h.1)
    | inr value ↦
        rw value (get-overlay fields (json.insert k v map) h.1 ∙ keeps.get-insert k "id" v map h.0)
  ]

  id-merge :
      (dto_map : json.Object) (existing merged : T)
      → merge json entity serde dto_map existing ≡ ok merged
      → entity.id merged ≡ entity.id existing
  unfolding merge
  id-merge dto_map existing merged h = elim (Result-cases (serde.to_value existing)) [
    | inr (e, failed) ↦ cc (rw (failed, merge) at h)
    | inl (v, serialized) ↦ elim (Option-cases (json.as_object v)) [
      | inl scalar ↦ cc (rw (serialized, scalar, merge) at h)
      | inr (map, is_object) ↦
          let fields = json.entries (json.remove "id" dto_map) in
          let parsed : parse json entity serde (overlay json entity serde fields map) ≡ ok merged =
            rw (serialized, is_object, merge) at h in
          keeps.read merged (overlay json entity serde fields map) (entity.id existing)
            (get-overlay fields map (keeps.entries-remove "id" dto_map)
              ∙ keeps.written existing v map serialized is_object)
            (parse-eq-ok json entity serde _ merged parsed)
    ]
  ]

  has_the_id : (n : ℕ) (s : Store entity) (x : T) → find_by_id entity n s ≡ some x → entity.id x ≡ n
  unfolding find_by_id
  has_the_id n s x h = elim (Bool-cases s.poisoned) [
    | inl shut ↦ cc (rw shut at h)
    | inr open_so ↦ find-has_id entity s.held n x (rw open_so at h)
  ]

  -- `update_from` of whatever DTO and id: it is an error, and the store is as it was; or no entity has
  -- the id, and the store is as it was; or it returns an entity that still has the id, which the
  -- store holds under it, while every other entity stays and their number too.
  pub update_from-Replaced :
      (n : ℕ) (dto : Dto json entity serde) (s : Store entity)
      → Replaced json entity serde n s
          (update_from json entity serde n dto s).0
          (update_from json entity serde n dto s).1
  unfolding update_from
  update_from-Replaced n dto s = elim (Result-cases (dto_object json entity serde dto)) [
    | inr (e, failed) ↦ rw (failed, update_from) refl
    | inl (map, is_object) ↦ elim (Option-cases (find_by_id entity n s)) [
      | inl missing ↦ rw (is_object, missing, update_from) (missing, refl)
      | inr (existing, found) ↦ elim (Result-cases (merge json entity serde map existing)) [
        | inr (e, failed) ↦ rw (is_object, found, failed, update_from) refl
        | inl (merged, done) ↦
            let same = id-merge map existing merged done ∙ has_the_id n s existing found in
            rw (is_object, found, done, update_from)
              (Replaced-Changed json entity serde n merged s _ _ same
                (update_by_id-Changed entity n (λ _. merged) s (λ y h. same)))
      ]
    ]
  ]

module _ (json : Json) {T Error : Type 0} (entity : Identifiable T) (serde : Serde json T Error)
    (lawful : IsIdentifiable entity) where
  -- `replace_from` leaves the store as it is where it fails or no entity has the id; else it returns
  -- an entity of that id, whatever id the DTO names, which the store holds in place of the old one,
  -- while every other entity stays and their number too.
  pub replace_from-Replaced :
      (n : ℕ) (dto : Dto json entity serde) (s : Store entity)
      → Replaced json entity serde n s
          (replace_from json entity serde n dto s).0
          (replace_from json entity serde n dto s).1
  unfolding replace_from
  replace_from-Replaced n dto s = elim (Result-cases (dto_entity json entity serde n dto)) [
    | inr (e, failed) ↦ rw (failed, replace_from) refl
    | inl (x, parsed) ↦
        rw (parsed, replace_from)
          (Replaced-Changed json entity serde n (entity.set_id n x) s _ _ (lawful.id-set_id n x)
            (replace_by_id-Changed entity n x s lawful))
  ]

  -- `create_from` leaves the store as it is where it fails; else, while ids are left, the entity that
  -- it returns has an id that no entity had, whatever id the DTO names, the store holds it under
  -- that id, and every other entity stays.
  pub create_from-Created :
      (dto : Dto json entity serde) (s s' : Store entity) (r : Result (ResourceError Error) T)
      → highest entity s.held + 1 < u64_size
      → create_from json entity serde dto s ≡ some (r, s')
      → Created json entity serde s r s'
  unfolding create_from
  create_from-Created dto s s' r lt h = elim (Result-cases (dto_entity json entity serde 0 dto)) [
    | inr (e, failed) ↦
        carry json entity serde s s s' (err e) r (rw (failed, create_from) at h) refl
    | inl (x, parsed) ↦ elim (Option-cases (create entity x s)) [
      | inl panicked ↦ cc (rw (parsed, panicked, create_from) at h)
      | inr ((stored, s1), created) ↦
          carry json entity serde s s1 s' (ok stored) r (rw (parsed, created, create_from) at h)
            (create_lem entity lawful x stored s s1 lt created)
    ]
  ]
