-- ===== src/ModuleGraph/Walk/Ends.antt =====
-- A walk ends, whatever the graph, if the names of its modules are finitely many.
use nestforge.Base.{
  ℕ, zero, suc, ◌≡◌, ◌≢◌, ◌≤◌, ◌<◌, refl, true, false, Option, none, some, List, [], ◌∷◌, String,
  if◌then◌else◌, Result, ok, contains, insert, length, arith, Bool-cases, inl, inr, contains-insert,
  eq_iff,
}
use nestforge.Base.Exec.{Exec, pure}
use nestforge.Base.Exec.Invert.{bind-eq-none, modify-eq-ok, modify-ne-none}
use nestforge.ModuleGraph.Walk.{VisitError, Walk, inside, visit_all, explore, visit, default}
use nestforge.ModuleGraph.Walk.Order.{Done, visit-Done}

-- How many of the names in `u` are not in `v`.
missing : List String → List String → ℕ
missing [] v = 0
missing (x ∷ u) v = if contains v x then missing u v else suc (missing u v)

missing-le : (u v : List String) → missing u v ≤ length u
unfolding missing
missing-le [] v = omega arith
missing-le (x ∷ u) v = ground (arith, missing-le u v)

missing-insert-le :
    (u : List String) (n : String) (v : List String) → missing u (insert n v) ≤ missing u v
unfolding missing
missing-insert-le [] n v = omega arith
missing-insert-le (x ∷ u) n v = ground (arith, missing-insert-le u n v, contains-insert n x v)

missing-insert-lt :
    (u : List String) (n : String) (v : List String)
    → contains u n ≡ true
    → contains v n ≡ false
    → missing u (insert n v) < missing u v
unfolding missing contains
missing-insert-lt [] n v h k = cc
missing-insert-lt (x ∷ u) n v h k = ground (
  arith,
  missing-insert-lt u n v,
  missing-insert-le u n v,
  contains-insert n x v,
  eq_iff x n,
  eq_iff n x,
)

module _ {S K : Type 0} (name : K → String) (imports : K → List K)
    (body : K → Exec S String (Unit {0})) (u : List String)
    (named : (m : K) → contains u (name m) ≡ true) (total : (m : K) (s : S) → body m s ≢ none) where
  inside-ne-none : (m : K) (w : Walk S) → inside (body m) w ≢ none
  inside-ne-none m w h = ground (arith, total m w.rest)

  module _ (n : ℕ) (f : K → Exec (Walk S) VisitError (Unit {0}))
      (ends : (m : K) (w : Walk S) → missing u w.visiting < n → f m w ≢ none)
      (each : (m : K) (w w' : Walk S)
        → f m w ≡ some (ok tt, w')
        → Done name imports body (m ∷ []) w w') where
    visit_all-ne-none :
        (ms : List K) (w : Walk S) → missing u w.visiting < n → visit_all f ms w ≢ none
    unfolding visit_all pure
    visit_all-ne-none [] w lt h = cc
    visit_all-ne-none (m ∷ ms) w lt h = elim (bind-eq-none (f m) _ w h) [
      | inl here ↦ ends m w lt here
      | inr (_, w1, first, rest) ↦
          visit_all-ne-none ms w1 (rw ((each m w w1 first).visiting) lt) rest
    ]

    explore-ne-none :
        (m : K) (w : Walk S)
        → contains w.visiting (name m) ≡ false
        → missing u w.visiting < suc n
        → explore name imports body f m w ≢ none
    unfolding explore
    explore-ne-none m w closed lt h = elim (bind-eq-none _ _ w h) [
      | inl entering ↦ modify-ne-none _ w entering
      | inr (_, w1, entered, h1) ↦ elim (bind-eq-none (visit_all f (imports m)) _ w1 h1) [
        | inl importing ↦
            visit_all-ne-none (imports m) w1
              (rw (modify-eq-ok _ w entered)
                (omega (arith, missing-insert-lt u (name m) w.visiting (named m) closed)))
              importing
        | inr (_, w2, _, h2) ↦ elim (bind-eq-none (inside (body m)) _ w2 h2) [
          | inl doing ↦ inside-ne-none m w2 doing
          | inr (_, w3, _, leaving) ↦ modify-ne-none _ w3 leaving
        ]
      ]
    ]

  visit-ne-none :
      (fuel : ℕ) (m : K) (w : Walk S)
      → missing u w.visiting < fuel
      → visit name imports body fuel m w ≢ none
  unfolding visit
  visit-ne-none zero m w lt h = elim lt [ ]
  visit-ne-none (suc fuel) m w lt h = elim (Bool-cases (contains w.visited (name m))) [
    | inl seen ↦ cc (rw seen at h)
    | inr unseen ↦ elim (Bool-cases (contains w.visiting (name m))) [
      | inl circular ↦ cc (rw (unseen, circular) at h)
      | inr closed ↦
          explore-ne-none fuel (visit name imports body fuel) (visit-ne-none fuel)
            (visit-Done name imports body fuel) m w closed lt (rw (unseen, closed) at h)
    ]
  ]

  some_of_ne_none :
      (o : Option (Result VisitError (Unit {0}) × Walk S))
      → o ≢ none
      → (r : Result VisitError (Unit {0})) × (w : Walk S) × (o ≡ some (r, w))
  some_of_ne_none none h = absurd (h refl)
  some_of_ne_none (some (r, w)) h = (r, w, refl)

  -- A walk ends if every module has its name in one list, the graph cyclic or not: fuel above the
  -- length of the list is enough. What is done with a module must end.
  pub visit_ends :
      (fuel : ℕ) (root : K) (s : S)
      → length u < fuel
      → (r : Result VisitError (Unit {0})) × (w : Walk S) × (visit name imports body fuel root
            (default s)
          ≡ some (r, w))
  visit_ends fuel root s lt =
      some_of_ne_none _ (visit-ne-none fuel root (default s) (omega (arith, missing-le u [])))
