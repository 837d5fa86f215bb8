-- ===== src/ModuleGraph/Walk/Sorted.antt =====
-- Orders of modules in which each comes once, behind all that it imports.
use nestforge.Base.{
  ◌≡◌, refl, true, false, List, [], ◌∷◌, ◌++◌, String, contains, insert, All, arith,
  contains-insert, str_eq,
}

module _ {K : Type 0} (name : K → String) where
  -- The set of names with those of some modules added, in order.
  abbrev pub adding : List K → List String → List String
  adding [] v = v
  adding (k ∷ ks) v = adding ks (insert (name k) v)

  pub contains-adding :
      (ks : List K) (v : List String) (s : String)
      → contains v s ≡ true
      → contains (adding ks v) s ≡ true
  contains-adding [] v s h = h
  contains-adding (k ∷ ks) v s h = contains-adding ks _ s (rw contains-insert (ground arith))

  pub absent-adding :
      (ks : List K) (v : List String) (s : String)
      → contains v s ≡ false
      → All (λ k. str_eq (name k) s ≡ false) ks
      → contains (adding ks v) s ≡ false
  absent-adding [] v s h a = h
  absent-adding (k ∷ ks) v s h a = absent-adding ks _ s (rw contains-insert (ground arith)) a.1

  pub adding-append :
      (xs ys : List K) (v : List String) → adding (xs ++ ys) v ≡ adding ys (adding xs v)
  adding-append [] ys v = refl
  adding-append (x ∷ xs) ys v = adding-append xs ys _

module _ {K : Type 0} (name : K → String) (imports : K → List K) where
  -- Each module is new where its turn comes, and all that it imports is there.
  abbrev pub IsSorted : List String → List K → Type 0
  IsSorted v [] = Unit
  IsSorted v (k ∷ ks) =
      (contains v (name k) ≡ false)
      × All (λ i. contains v (name i) ≡ true) (imports k)
      × IsSorted (insert (name k) v) ks

  pub IsSorted-append :
      (xs ys : List K) (v : List String)
      → IsSorted v xs
      → IsSorted (adding name xs v) ys
      → IsSorted v (xs ++ ys)
  IsSorted-append [] ys v h k = k
  IsSorted-append (x ∷ xs) ys v h k = (h.0, h.1, IsSorted-append xs ys _ h.2 k)
