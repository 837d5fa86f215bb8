-- ===== src/Store/Create.antt =====
-- `InMemoryStore::create`: the id that it gives, and what the store holds afterwards.
use nestforge.Base.{
  ℕ, suc, ◌<◌, ◌+◌, ◌≡◌, ◌≢◌, false, none, some, List, [], ◌∷◌, ◌++◌, length-append, arith,
  Option-cases, inl, inr, ◌∙◌,
}
use nestforge.Store.{
  Identifiable, u64_size, find, has_id, highest, next_id, Store, find_by_id, count, create,
}
use nestforge.Store.Lookup.{find-above_highest, find-concat, find-concat_before}

-- What `Identifiable` promises.
pub record IsIdentifiable {T : Type 0} (entity : Identifiable T) : Type 0 where
  pub id-set_id : (n : ℕ) (x : T) → entity.id (entity.set_id n x) ≡ n

module _ {T : Type 0} (entity : Identifiable T) (lawful : IsIdentifiable entity) where
  next_id-lt :
      (items : List T)
      → highest entity items + 1 < u64_size
      → next_id entity items ≡ highest entity items + 1
  unfolding next_id
  next_id-lt items h = omega arith

  created_at :
      (items : List T) (x : T)
      → find (has_id entity (entity.id x)) items ≡ none
      → find (has_id entity (entity.id x)) (items ++ x ∷ []) ≡ some x
  created_at items x h = ground (arith, find-concat entity items x (entity.id x))

  created_beside :
      (items : List T) (x : T) (m : ℕ)
      → m ≢ entity.id x
      → find (has_id entity m) (items ++ x ∷ []) ≡ find (has_id entity m) items
  created_beside items x m ne = elim (Option-cases (find (has_id entity m) items)) [
    | inl missing ↦ ground (arith, find-concat entity items x m)
    | inr (y, found) ↦ ground (arith, find-concat_before entity items x y m)
  ]

  -- Where the ids are not used up, `create` gives an id that no entity of the store has; afterwards
  -- the store holds the new entity under it, under every other id what it held before, and one
  -- entity more.
  pub create_lem :
      (item x : T) (s s' : Store entity)
      → highest entity s.held + 1 < u64_size
      → create entity item s ≡ some (x, s')
      → (find_by_id entity (entity.id x) s ≡ none)
        × (find_by_id entity (entity.id x) s' ≡ some x)
        × ((m : ℕ) → m ≢ entity.id x → find_by_id entity m s' ≡ find_by_id entity m s)
        × (count entity s' ≡ suc (count entity s))
  unfolding create find_by_id count
  create_lem item x s s' lt h =
      let open_so : s.poisoned ≡ false = ground arith in
      let stored : x ≡ entity.set_id (next_id entity s.held) item = ground arith in
      let grown : s' ≡ record s { held = s.held ++ x ∷ [] } = ground arith in
      let numbered : entity.id x ≡ highest entity s.held + 1 =
        rw stored (lawful.id-set_id _ _ ∙ next_id-lt s.held lt) in
      let fresh = find-above_highest entity s.held (entity.id x) (omega arith) in
      (
        rw open_so fresh,
        rw (grown, open_so) (created_at s.held x fresh),
        λ m ne. rw (grown, open_so) (created_beside s.held x m ne),
        rw (grown, open_so) (omega (arith, length-append s.held (x ∷ []))),
      )

  -- Where an entity has the largest `u64` as its id, the new entity's id is 0; if an entity has this
  -- id already, a lookup of 0 goes on to find that one, not the one just created.
  pub create_wraps :
      (item x y : T) (s s' : Store entity)
      → highest entity s.held + 1 ≡ u64_size
      → find_by_id entity 0 s ≡ some y
      → create entity item s ≡ some (x, s')
      → (entity.id x ≡ 0) × (find_by_id entity 0 s' ≡ some y)
  unfolding create find_by_id next_id
  create_wraps item x y s s' full held h =
      let open_so : s.poisoned ≡ false = ground arith in
      let stored : x ≡ entity.set_id (next_id entity s.held) item = ground arith in
      let grown : s' ≡ record s { held = s.held ++ x ∷ [] } = ground arith in
      (
        rw (stored, lawful.id-set_id) (omega arith),
        rw (grown, open_so) (find-concat_before entity s.held x y 0 (rw open_so at held)),
      )
