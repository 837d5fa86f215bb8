-- ===== src/Store/Lookup.antt =====
-- Lookups in a vector of entities by their ids, and what the changes of a vector do to them.
use nestforge.Base.{
  ℕ, ◌<◌, suc, ◌≡◌, ◌≢◌, refl, none, some, List, [], ◌∷◌, ◌++◌, ◌==◌, if◌then◌else◌, length, arith,
  Bool-cases, Option-cases, inl, inr,
}
use nestforge.Store.{Identifiable, find, update_first, remove_first, has_id, highest}

module _ {T : Type 0} (entity : Identifiable T) where
  -- No two entities have one id.
  abbrev pub IsDistinct : List T → Type 0
  IsDistinct [] = Unit
  IsDistinct (x ∷ xs) = (find (has_id entity (entity.id x)) xs ≡ none) × IsDistinct xs

  pub find-above_highest :
      (xs : List T) (n : ℕ) → highest entity xs < n → find (has_id entity n) xs ≡ none
  unfolding find highest
  find-above_highest [] n h = refl
  find-above_highest (x ∷ xs) n h = ground (arith, find-above_highest xs n)

  pub find-concat :
      (xs : List T) (y : T) (n : ℕ)
      → find (has_id entity n) xs ≡ none
      → find (has_id entity n) (xs ++ y ∷ []) ≡ (if entity.id y == n then some y else none)
  unfolding find
  find-concat [] y n h = refl
  find-concat (x ∷ xs) y n h = ground (arith, find-concat xs y n)

  pub find-concat_before :
      (xs : List T) (y x : T) (n : ℕ)
      → find (has_id entity n) xs ≡ some x
      → find (has_id entity n) (xs ++ y ∷ []) ≡ some x
  unfolding find
  find-concat_before [] y x n h = cc
  find-concat_before (z ∷ xs) y x n h = ground (arith, find-concat_before xs y x n)

  pub find-has_id :
      (xs : List T) (n : ℕ) (x : T) → find (has_id entity n) xs ≡ some x → entity.id x ≡ n
  unfolding find
  find-has_id [] n x h = cc
  find-has_id (y ∷ xs) n x h = ground (arith, find-has_id xs n x)

  pub IsDistinct-concat :
      (xs : List T) (y : T)
      → IsDistinct xs
      → find (has_id entity (entity.id y)) xs ≡ none
      → IsDistinct (xs ++ y ∷ [])
  unfolding find
  IsDistinct-concat [] y d h = (refl, tt)
  IsDistinct-concat (x ∷ xs) y d h =
      (ground (arith, find-concat xs y (entity.id x)), IsDistinct-concat xs y d.1 (ground arith))

  -- What `update_first` does at an id, as long as the new entity keeps it.
  pub record Updated (n : ℕ) (f : T → T) (xs : List T) (y : T) (ys : List T) : Type 0 where
    pub old : T
    pub found : find (has_id entity n) xs ≡ some old
    pub new : y ≡ f old
    pub kept : entity.id y ≡ n → find (has_id entity n) ys ≡ some y
    pub others :
        entity.id y ≡ n → (m : ℕ) → m ≢ n → find (has_id entity m) ys ≡ find (has_id entity m) xs
    pub size : length ys ≡ length xs

  pub update_first-Updated :
      (n : ℕ) (f : T → T) (xs ys : List T) (y : T)
      → update_first (has_id entity n) f xs ≡ some (y, ys)
      → Updated n f xs y ys
  unfolding update_first find
  update_first-Updated n f [] ys y h = cc
  update_first-Updated n f (x ∷ xs) ys y h = elim (Bool-cases (has_id entity n x)) [
    | inl here ↦ record {
      old = x;
      found = ground arith;
      new = ground arith;
      kept = λ k. ground arith;
      others = λ k m ne. ground arith;
      size = ground arith;
    }
    | inr later ↦ elim (Option-cases (update_first (has_id entity n) f xs)) [
      | inl missing ↦ ground arith
      | inr ((z, zs), changed) ↦
          let u = update_first-Updated n f xs zs z changed in
          record {
            old = u.old;
            found = ground (arith, u.found);
            new = ground (arith, u.new);
            kept = λ k. ground (arith, u.kept);
            others = λ k m ne. ground (arith, λ (q : entity.id z ≡ n). u.others q m ne);
            size = ground (arith, u.size);
          }
    ]
  ]

  pub update_first-absent :
      (n : ℕ) (f : T → T) (xs : List T)
      → update_first (has_id entity n) f xs ≡ none
      → find (has_id entity n) xs ≡ none
  unfolding update_first find
  update_first-absent n f [] h = refl
  update_first-absent n f (x ∷ xs) h = ground (arith, update_first-absent n f xs)

  -- What `remove_first` does at an id.
  pub record Removed (n : ℕ) (xs : List T) (y : T) (ys : List T) : Type 0 where
    pub found : find (has_id entity n) xs ≡ some y
    pub gone : IsDistinct xs → find (has_id entity n) ys ≡ none
    pub others : (m : ℕ) → m ≢ n → find (has_id entity m) ys ≡ find (has_id entity m) xs
    pub size : length xs ≡ suc (length ys)

  pub remove_first-Removed :
      (n : ℕ) (xs ys : List T) (y : T)
      → remove_first (has_id entity n) xs ≡ some (y, ys)
      → Removed n xs y ys
  unfolding remove_first find
  remove_first-Removed n [] ys y h = cc
  remove_first-Removed n (x ∷ xs) ys y h = elim (Bool-cases (has_id entity n x)) [
    | inl here ↦ record {
      found = ground arith;
      gone = λ d. ground arith;
      others = λ m ne. ground arith;
      size = ground arith;
    }
    | inr later ↦ elim (Option-cases (remove_first (has_id entity n) xs)) [
      | inl missing ↦ ground arith
      | inr ((z, zs), changed) ↦
          let u = remove_first-Removed n xs zs z changed in
          record {
            found = ground (arith, u.found);
            gone = λ d. ground (arith, u.gone);
            others = λ m ne. ground (arith, u.others m ne);
            size = ground (arith, u.size);
          }
    ]
  ]

  pub remove_first-absent :
      (n : ℕ) (xs : List T)
      → remove_first (has_id entity n) xs ≡ none
      → find (has_id entity n) xs ≡ none
  unfolding remove_first find
  remove_first-absent n [] h = refl
  remove_first-absent n (x ∷ xs) h = ground (arith, remove_first-absent n xs)
