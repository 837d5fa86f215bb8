-- ===== src/ModuleGraph/Walk/Cycles.antt =====
-- A cycle that a walk reports is a cycle of imports.
use mathlib.Core.List.{Memᴰ}
use nestforge.Base.{
  ℕ, zero, suc, ◌≡◌, refl, ap, ◌∙◌, sym, true, Option, some, List, [], ◌∷◌, ◌++◌, String, Result,
  ok, err, contains, map, map-append, arith, Bool-cases, inl, inr, contains-insert, contains-concat,
}
use nestforge.Base.Exec.{Exec, pure}
use nestforge.Base.Exec.Invert.{bind-eq-err, modify-eq-ok, modify-ne-err}
use nestforge.ModuleGraph.Walk.{
  VisitError, import_cycle, Walk, inside, enter, visit_all, explore, visit, default,
}
use nestforge.ModuleGraph.Walk.Order.{Done, visit-Done}

module _ {K : Type 0} (name : K → String) (imports : K → List K) where
  -- Each module of the path imports the next.
  abbrev pub IsChain : List K → Type 0
  IsChain [] = Unit
  IsChain (k ∷ []) = Unit
  IsChain (k ∷ j ∷ ks) = Memᴰ j (imports k) × IsChain (j ∷ ks)

  IsChain-concat :
      (ks : List K) (m i : K)
      → IsChain (ks ++ m ∷ [])
      → Memᴰ i (imports m)
      → IsChain ((ks ++ m ∷ []) ++ i ∷ [])
  IsChain-concat [] m i h mem = (mem, tt)
  IsChain-concat (k ∷ []) m i h mem = (h.0, (mem, tt))
  IsChain-concat (k ∷ j ∷ ks) m i h mem = (h.0, IsChain-concat (j ∷ ks) m i h.1 mem)

  -- Names as they are reported: those of a path of imports whose last name stands in it before.
  pub record IsCycle (names : List String) : Type 0 where
    pub path : List K
    pub last : K
    pub chain : IsChain (path ++ last ∷ [])
    pub spelled : names ≡ map name path ++ name last ∷ []
    pub repeats : contains (map name path) (name last) ≡ true

module _ {S K : Type 0} (name : K → String) (imports : K → List K)
    (body : K → Exec S String (Unit {0})) where
  -- The stack of a walk is a path that leads to the module at hand, and holds all that is open.
  record IsOpen (ks : List K) (w : Walk S) : Type 0 where
    stacked : w.stack ≡ map name ks
    opened : (s : String) → contains w.visiting s ≡ true → contains w.stack s ≡ true

  IsOpen-enter :
      (ks : List K) (m : K) (w : Walk S) → IsOpen ks w → IsOpen (ks ++ m ∷ []) (enter (name m) w)
  IsOpen-enter ks m w o = record {
    stacked =
        ap (λ (l : List String). l ++ name m ∷ []) o.stacked ∙ sym (map-append name ks (m ∷ []));
    opened = λ s h.
        rw contains-concat (ground (arith, o.opened s, contains-insert (name m) s w.visiting));
  }

  IsOpen-Done :
      (ks : List K) (ms : List K) (w w' : Walk S)
      → Done name imports body ms w w'
      → IsOpen ks w
      → IsOpen ks w'
  IsOpen-Done ks ms w w' d o = record {
    stacked = d.stack ∙ o.stacked;
    opened = λ s h. rw d.stack (o.opened s (rw d.visiting at h));
  }

  -- What is to be shown of the visit of one module.
  abbrev Sound : (K → Exec (Walk S) VisitError (Unit {0})) → Type 0
  Sound f =
      (m : K) (ks : List K) (w w' : Walk S) (names : List String)
      → IsOpen ks w
      → IsChain name imports (ks ++ m ∷ [])
      → f m w ≡ some (err (import_cycle names), w')
      → IsCycle name imports names

  module _ (f : K → Exec (Walk S) VisitError (Unit {0})) (sound : Sound f)
      (each : (m : K) (w w' : Walk S)
        → f m w ≡ some (ok tt, w')
        → Done name imports body (m ∷ []) w w') where
    visit_all-Sound :
        (ms : List K) (m : K) (ks : List K) (w w' : Walk S) (names : List String)
        → ((i : K) → Memᴰ i ms → Memᴰ i (imports m))
        → IsOpen (ks ++ m ∷ []) w
        → IsChain name imports (ks ++ m ∷ [])
        → visit_all f ms w ≡ some (err (import_cycle names), w')
        → IsCycle name imports names
    unfolding visit_all pure
    visit_all-Sound [] m ks w w' names inc o c h = cc
    visit_all-Sound (i ∷ is) m ks w w' names inc o c h = elim (bind-eq-err (f i) _ w h) [
      | inl here ↦
          sound i (ks ++ m ∷ []) w w' names o
            (IsChain-concat name imports ks m i c (inc i (Memᴰ.head refl))) here
      | inr (_, w1, first, rest) ↦
          visit_all-Sound is m ks w1 w' names (λ j mem. inc j (Memᴰ.tail mem))
            (IsOpen-Done _ (i ∷ []) w w1 (each i w w1 first) o) c rest
    ]

  inside-ne-cycle :
      (m : K) (w w' : Walk S) (names : List String)
      → ¬ (inside (body m) w ≡ some (err (import_cycle names), w'))
  inside-ne-cycle m w w' names h = ground arith

  spelling :
      (w w' : Walk S) (a b : List String)
      → ◌≡◌ {A = Option (Result VisitError (Unit {0}) × Walk S)}
          (some (err (import_cycle a), w))
          (some (err (import_cycle b), w'))
      → b ≡ a
  spelling w w' a b h = ground arith

  explore-Sound :
      (f : K → Exec (Walk S) VisitError (Unit {0}))
      → Sound f
      → ((m : K) (w w' : Walk S) → f m w ≡ some (ok tt, w') → Done name imports body (m ∷ []) w w')
      → Sound (explore name imports body f)
  unfolding explore
  explore-Sound f sound each m ks w w' names o c h = elim (bind-eq-err _ _ w h) [
    | inl entering ↦ absurd (modify-ne-err _ w entering)
    | inr (_, w1, entered, h1) ↦ elim (bind-eq-err (visit_all f (imports m)) _ w1 h1) [
      | inl importing ↦
          visit_all-Sound f sound each (imports m) m ks w1 w' names (λ i mem. mem)
            (rw (modify-eq-ok _ w entered) (IsOpen-enter ks m w o)) c importing
      | inr (_, w2, _, h2) ↦ elim (bind-eq-err (inside (body m)) _ w2 h2) [
        | inl doing ↦ absurd (inside-ne-cycle m w2 w' names doing)
        | inr (_, w3, _, leaving) ↦ absurd (modify-ne-err _ w3 leaving)
      ]
    ]
  ]

  visit-Sound : (fuel : ℕ) → Sound (visit name imports body fuel)
  unfolding visit
  visit-Sound zero m ks w w' names o c h = cc
  visit-Sound (suc fuel) m ks w w' names o c h = elim (Bool-cases (contains w.visited (name m))) [
    | inl seen ↦ cc (rw seen at h)
    | inr unseen ↦ elim (Bool-cases (contains w.visiting (name m))) [
      | inl circular ↦ record {
        path = ks;
        last = m;
        chain = c;
        spelled =
            spelling w w' (w.stack ++ name m ∷ []) names (rw (unseen, circular) at h)
            ∙ ap (λ (l : List String). l ++ name m ∷ []) o.stacked;
        repeats = rw (← o.stacked) (o.opened (name m) circular);
      }
      | inr closed ↦
          explore-Sound (visit name imports body fuel) (visit-Sound fuel)
            (visit-Done name imports body fuel) m ks w w' names o c (rw (unseen, closed) at h)
    ]
  ]

  -- The names in a reported import cycle are those of modules each of which imports the next, and
  -- the last of them stands in the list before.
  pub visit-IsCycle :
      (fuel : ℕ) (root : K) (s : S) (w : Walk S) (names : List String)
      → visit name imports body fuel root (default s) ≡ some (err (import_cycle names), w)
      → IsCycle name imports names
  unfolding contains
  visit-IsCycle fuel root s w names h =
      visit-Sound fuel root [] (default s) w names (record { stacked = refl; opened = λ x e. cc })
        tt h
