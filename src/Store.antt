-- ===== src/Store.antt =====
-- crates/nestforge-core/src/store.rs: `InMemoryStore`, a vector behind a lock. An entity type is a
-- parameter, as are the `id` and `set_id` of its `Identifiable`.
pub mod Lookup
pub mod Create
pub mod Change
mod Tests
use nestforge.Base.{
  ℕ, ◌+◌, ◌%◌, Bool, true, false, Option, none, some, List, [], ◌∷◌, ◌++◌, ◌==◌, if◌then◌else◌,
  length, RwLock, unpoisoned, ltb,
}

pub record Identifiable (T : Type 0) : Type 0 where
  pub id : T → ℕ
  pub set_id : ℕ → T → T

-- The numbers of a `u64`.
abbrev pub u64_size : ℕ
u64_size = 18446744073709551616

-- `iter().find(..).cloned()`.
unfoldable pub find : {T : Type 0} → (T → Bool) → List T → Option T
find p [] = none
find p (x ∷ xs) = if p x then some x else find p xs

-- `iter_mut().find(..)`, and the change of what it finds; with the new item, the new vector.
unfoldable pub update_first : {T : Type 0} → (T → Bool) → (T → T) → List T → Option (T × List T)
update_first p f [] = none
update_first p f (x ∷ xs) =
    let rest = update_first p f xs in
    if p x
    then some (f x, f x ∷ xs)
    else elim rest [ none ↦ none | some (y, ys) ↦ some (y, x ∷ ys) ]

-- `remove(position(..)?)`.
unfoldable pub remove_first : {T : Type 0} → (T → Bool) → List T → Option (T × List T)
remove_first p [] = none
remove_first p (x ∷ xs) =
    let rest = remove_first p xs in
    if p x then some (x, xs) else elim rest [ none ↦ none | some (y, ys) ↦ some (y, x ∷ ys) ]

module _ {T : Type 0} (entity : Identifiable T) where
  abbrev pub has_id : ℕ → T → Bool
  has_id n x = entity.id x == n

  -- `iter().map(id).max().unwrap_or(0)`.
  unfoldable pub highest : List T → ℕ
  highest [] = 0
  highest (x ∷ xs) = let rest = highest xs in if ltb rest (entity.id x) then entity.id x else rest

  -- `.. + 1`, in a build without overflow checks.
  unfoldable pub next_id : List T → ℕ
  unfolding highest
  next_id items = (highest items + 1) % u64_size

  abbrev pub Store : Type 0
  Store = RwLock (List T)

  abbrev pub with_seed : List T → Store
  with_seed seed = unpoisoned seed

  unfoldable pub find_all : Store → List T
  find_all s = if s.poisoned then [] else s.held

  unfoldable pub find_by_id : ℕ → Store → Option T
  unfolding find
  find_by_id n s = if s.poisoned then none else find (has_id n) s.held

  unfoldable pub count : Store → ℕ
  count s = if s.poisoned then 0 else length s.held

  -- `none` is the panic of `expect`.
  unfoldable pub create : T → Store → Option (T × Store)
  unfolding next_id
  create item s =
      if s.poisoned
      then none
      else (let stored = entity.set_id (next_id s.held) item in
          some (stored, record s { held = s.held ++ stored ∷ [] }))

  -- The end of an operation that changes what it finds.
  abbrev pub changed : Store → Option (T × List T) → Option T × Store
  changed s none = (none, s)
  changed s (some (x, items)) = (some x, record s { held = items })

  unfoldable pub update_by_id : ℕ → (T → T) → Store → Option T × Store
  unfolding update_first
  update_by_id n updater s =
      if s.poisoned then (none, s) else changed s (update_first (has_id n) updater s.held)

  unfoldable pub replace_by_id : ℕ → T → Store → Option T × Store
  unfolding update_first
  replace_by_id n replacement s =
      if s.poisoned
      then (none, s)
      else changed s (update_first (has_id n) (λ _. entity.set_id n replacement) s.held)

  unfoldable pub delete_by_id : ℕ → Store → Option T × Store
  unfolding remove_first
  delete_by_id n s = if s.poisoned then (none, s) else changed s (remove_first (has_id n) s.held)
