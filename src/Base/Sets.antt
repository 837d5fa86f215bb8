-- ===== src/Base/Sets.antt =====
-- `HashSet<&str>` as a list of texts: it is tested, added to and removed from, never iterated.
use Prim.Native.String.{String}
use mathlib.Core.Path.{◌≡◌, refl, ap}
use mathlib.Core.Logic.{inl, inr}
use mathlib.Core.Bool.{Bool, true, false, ◌||◌}
use mathlib.Core.List.{List, [], ◌∷◌, ◌++◌}
use native.Mathlib.Omega.{arith}
use text.Mathlib.TextEquality.{eq_iff}
use text.Mathlib.TextPositions.{eq_refl}
use nestforge.Base.Tests.{str_eq, if◌then◌else◌, Bool-cases}

unfoldable pub contains : List String → String → Bool
contains [] s = false
contains (x ∷ xs) s = str_eq x s || contains xs s

unfoldable pub insert : String → List String → List String
unfolding contains
insert s xs = if contains xs s then xs else s ∷ xs

unfoldable pub remove : String → List String → List String
remove s [] = []
remove s (x ∷ xs) = if str_eq x s then remove s xs else x ∷ remove s xs

pub contains-insert :
    (s t : String) (xs : List String) → contains (insert s xs) t ≡ (str_eq s t || contains xs t)
unfolding insert
contains-insert s t xs = elim (Bool-cases (contains xs s)) [
  | inl h ↦ rw h (ground (arith, eq_iff s t, ap (contains xs) {x = s} {y = t}))
  | inr h ↦ rw h
]

pub contains-insert_self : (s : String) (xs : List String) → contains (insert s xs) s ≡ true
contains-insert_self s xs = rw contains-insert (ground (arith, eq_refl s))

pub contains-append :
    (xs ys : List String) (s : String) → contains (xs ++ ys) s ≡ (contains xs s || contains ys s)
unfolding contains
contains-append [] ys s = refl
contains-append (x ∷ xs) ys s = ground (arith, contains-append xs ys s)

pub contains-concat :
    (xs : List String) (x s : String) → contains (xs ++ x ∷ []) s ≡ (contains xs s || str_eq x s)
unfolding contains
contains-concat [] x s = ground arith
contains-concat (y ∷ ys) x s = ground (arith, contains-concat ys x s)

pub insert_of_absent :
    (s : String) (xs : List String) → contains xs s ≡ false → insert s xs ≡ s ∷ xs
unfolding insert
insert_of_absent s xs h = rw h

pub contains-remove :
    (s t : String) (xs : List String)
    → contains (remove s xs) t ≡ (if str_eq s t then false else contains xs t)
unfolding contains remove
contains-remove s t [] = ground arith
contains-remove s t (x ∷ xs) =
    ground (arith, contains-remove s t xs, eq_iff x s, eq_iff x t, eq_iff s t)

remove_of_absent : (s : String) (xs : List String) → contains xs s ≡ false → remove s xs ≡ xs
unfolding contains remove
remove_of_absent s [] h = refl
remove_of_absent s (x ∷ xs) h = ground (arith, remove_of_absent s xs)

-- Taking out what has just been added gives the set back.
pub remove-cons_self :
    (s : String) (xs : List String) → contains xs s ≡ false → remove s (s ∷ xs) ≡ xs
unfolding remove
remove-cons_self s xs h = rw (eq_refl s) (remove_of_absent s xs h)

abbrev pub Subset : List String → List String → Type 0
Subset xs ys = (s : String) → contains xs s ≡ true → contains ys s ≡ true

pub Subset-refl : (xs : List String) → Subset xs xs
Subset-refl xs s h = h

pub Subset-trans : (xs ys zs : List String) → Subset xs ys → Subset ys zs → Subset xs zs
Subset-trans xs ys zs f g s h = g s (f s h)

pub Subset-cons : (x : String) (xs : List String) → Subset xs (x ∷ xs)
unfolding contains
Subset-cons x xs s h = ground arith
