-- ===== src/Store/Change.antt =====
-- `update_by_id`, `replace_by_id` and `delete_by_id`, on the branches where the id is there and
-- where it is not.
use nestforge.Base.{
  ℕ, suc, ◌≡◌, ◌≢◌, refl, ap, sym, subst, ◌∙◌, false, Option, none, some, List, inl, inr, ◌⊎◌,
  Bool-cases,
}
use nestforge.Store.{
  Identifiable, has_id, update_first, remove_first, Store, find_by_id, count, changed, update_by_id,
  replace_by_id, delete_by_id,
}
use nestforge.Store.Lookup.{
  IsDistinct, update_first-Updated, update_first-absent, remove_first-Removed, remove_first-absent,
  find-has_id,
}
use nestforge.Store.Create.{IsIdentifiable}

module _ {T : Type 0} (entity : Identifiable T) where
  -- What an operation on the entity of id `n` makes of a store: the id is not there and the store
  -- stays as it is, or the entity is changed by `f` and every other one stays.
  abbrev pub Changed : ℕ → (T → T) → Store entity → Option T → Store entity → Type 0
  Changed n f s o s' =
      ((find_by_id entity n s ≡ none) × (o ≡ none) × (s' ≡ s))
      ⊎ ((x : T) × (find_by_id entity n s ≡ some x)
          × (o ≡ some (f x))
          × (find_by_id entity n s' ≡ some (f x))
          × ((m : ℕ) → m ≢ n → find_by_id entity m s' ≡ find_by_id entity m s)
          × (count entity s' ≡ count entity s))

  -- What a removal makes of a store.
  abbrev pub Deleted : ℕ → Store entity → Option T → Store entity → Type 0
  Deleted n s o s' =
      ((find_by_id entity n s ≡ none) × (o ≡ none) × (s' ≡ s))
      ⊎ ((x : T) × (find_by_id entity n s ≡ some x)
          × (o ≡ some x)
          × (find_by_id entity n s' ≡ none)
          × ((m : ℕ) → m ≢ n → find_by_id entity m s' ≡ find_by_id entity m s)
          × (count entity s ≡ suc (count entity s')))

  changed_open :
      (n : ℕ) (f : T → T) (s : Store entity)
      → ((x : T) → entity.id x ≡ n → entity.id (f x) ≡ n)
      → s.poisoned ≡ false
      → (o : Option (T × List T)) → update_first (has_id entity n) f s.held ≡ o
      → Changed n f s (changed entity s o).0 (changed entity s o).1
  unfolding find_by_id count
  changed_open n f s keeps open_so none h =
      inl (rw open_so (update_first-absent entity n f s.held h), refl, refl)
  changed_open n f s keeps open_so (some (y, ys)) h =
      let u = update_first-Updated entity n f s.held ys y h in
      let same : entity.id y ≡ n =
        rw u.new (keeps u.old (find-has_id entity s.held n u.old u.found)) in
      inr (
        u.old,
        rw open_so u.found,
        ap some u.new,
        rw open_so (u.kept same ∙ ap some u.new),
        λ m ne. rw open_so (u.others same m ne),
        rw open_so u.size,
      )

  -- `update_by_id` with an updater that keeps the id: where the id is not there it returns nothing and
  -- changes nothing; else it returns the updated entity, which lookups of the id now find, and
  -- leaves the entities of all other ids, and their number, as they were.
  pub update_by_id-Changed :
      (n : ℕ) (f : T → T) (s : Store entity)
      → ((x : T) → entity.id x ≡ n → entity.id (f x) ≡ n)
      → Changed n f s (update_by_id entity n f s).0 (update_by_id entity n f s).1
  unfolding update_by_id find_by_id
  update_by_id-Changed n f s keeps = elim (Bool-cases s.poisoned) [
    | inl shut ↦ inl (rw shut refl, rw shut refl, rw shut refl)
    | inr open_so ↦
        let opened : update_by_id entity n f s
            ≡ changed entity s (update_first (has_id entity n) f s.held) =
          rw open_so refl in
        subst (λ p. Changed n f s p.0 p.1) (sym opened) (changed_open n f s keeps open_so _ refl)
  ]

  -- `replace_by_id` puts the replacement under the id that it is given, whatever id the replacement
  -- had, and changes no other entity; where the id is not there it changes nothing.
  pub replace_by_id-Changed :
      (n : ℕ) (x : T) (s : Store entity)
      → IsIdentifiable entity
      → Changed n
          (λ _. entity.set_id n x)
          s
          (replace_by_id entity n x s).0
          (replace_by_id entity n x s).1
  unfolding replace_by_id find_by_id
  replace_by_id-Changed n x s lawful = elim (Bool-cases s.poisoned) [
    | inl shut ↦ inl (rw shut refl, rw shut refl, rw shut refl)
    | inr open_so ↦
        let opened : replace_by_id entity n x s
            ≡ changed entity s (update_first (has_id entity n) (λ _. entity.set_id n x) s.held) =
          rw open_so refl in
        subst (λ p. Changed n (λ _. entity.set_id n x) s p.0 p.1) (sym opened)
          (changed_open n (λ _. entity.set_id n x) s (λ y h. lawful.id-set_id n x) open_so _ refl)
  ]

  removed_open :
      (n : ℕ) (s : Store entity)
      → IsDistinct entity s.held
      → s.poisoned ≡ false
      → (o : Option (T × List T)) → remove_first (has_id entity n) s.held ≡ o
      → Deleted n s (changed entity s o).0 (changed entity s o).1
  unfolding find_by_id count
  removed_open n s d open_so none h =
      inl (rw open_so (remove_first-absent entity n s.held h), refl, refl)
  removed_open n s d open_so (some (y, ys)) h =
      let u = remove_first-Removed entity n s.held ys y h in
      inr (
        y,
        rw open_so u.found,
        refl,
        rw open_so (u.gone d),
        λ m ne. rw open_so (u.others m ne),
        rw open_so u.size,
      )

  -- `delete_by_id` in a store where no two entities have one id: it returns the entity of the id,
  -- which is not found any more, and leaves those of all other ids; where the id is not there it
  -- changes nothing.
  pub delete_by_id-Deleted :
      (n : ℕ) (s : Store entity)
      → IsDistinct entity s.held
      → Deleted n s (delete_by_id entity n s).0 (delete_by_id entity n s).1
  unfolding delete_by_id find_by_id
  delete_by_id-Deleted n s d = elim (Bool-cases s.poisoned) [
    | inl shut ↦ inl (rw shut refl, rw shut refl, rw shut refl)
    | inr open_so ↦
        let opened : delete_by_id entity n s
            ≡ changed entity s (remove_first (has_id entity n) s.held) =
          rw open_so refl in
        subst (λ p. Deleted n s p.0 p.1) (sym opened) (removed_open n s d open_so _ refl)
  ]
