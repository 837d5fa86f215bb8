-- ===== src/ModuleGraph/Walk/Order.antt =====
-- A walk that succeeds has done every module that it reached once, behind its imports.
use nestforge.Base.{
  ℕ, zero, suc, ◌≡◌, refl, ap, ◌∙◌, sym, subst, true, false, Option, some, List, [], ◌∷◌, ◌++◌,
  String, Result, ok, contains, insert, remove, drop_last, All, All-append, All-weaken, arith,
  Bool-cases, inl, inr, contains-insert, contains-insert_self, insert_of_absent, remove-cons_self,
  drop_last-concat, str_eq, eq_iff,
}
use nestforge.Base.Exec.{Exec, pure, ◌>>◌}
use nestforge.Base.Exec.Invert.{bind-eq-ok, bind-of-ok, modify-eq-ok}
use nestforge.ModuleGraph.Walk.Sorted.{
  adding, IsSorted, contains-adding, absent-adding, adding-append, IsSorted-append,
}
use nestforge.ModuleGraph.Walk.{VisitError, Walk, inside, enter, leave, visit_all, explore, visit}

module _ {S K : Type 0} (name : K → String) (imports : K → List K)
    (body : K → Exec S String (Unit {0})) where
  abbrev pub run_all : List K → Exec S String (Unit {0})
  run_all [] = pure tt
  run_all (k ∷ ks) = do body k; run_all ks

  -- What a successful walk over some modules has done.
  pub record Done (ms : List K) (w w' : Walk S) : Type 0 where
    pub order : List K
    pub visited : w'.visited ≡ adding name order w.visited
    pub visiting : w'.visiting ≡ w.visiting
    pub stack : w'.stack ≡ w.stack
    pub ran : run_all order w.rest ≡ some (ok tt, w'.rest)
    pub sorted : IsSorted name imports w.visited order
    pub fresh : All (λ k. contains w.visiting (name k) ≡ false) order
    pub reached : All (λ m. contains w'.visited (name m) ≡ true) ms

  pub run_all-append :
      (xs ys : List K) (s s1 s2 : S)
      → run_all xs s ≡ some (ok tt, s1)
      → run_all ys s1 ≡ some (ok tt, s2)
      → run_all (xs ++ ys) s ≡ some (ok tt, s2)
  unfolding pure
  run_all-append [] ys s s1 s2 h k = let same : s ≡ s1 = ground arith in rw same k
  run_all-append (x ∷ xs) ys s s1 s2 h k =
      let (_, t, first, rest) = bind-eq-ok (body x) _ s h in
      bind-of-ok (body x) _ s first ∙ run_all-append xs ys t s1 s2 rest k

  Done-nil : (w : Walk S) → Done [] w w
  unfolding pure
  Done-nil w = record {
    order = [];
    visited = refl;
    visiting = refl;
    stack = refl;
    ran = refl;
    sorted = tt;
    fresh = tt;
    reached = tt;
  }

  Done-seen : (m : K) (w : Walk S) → contains w.visited (name m) ≡ true → Done (m ∷ []) w w
  unfolding pure
  Done-seen m w h = record {
    order = [];
    visited = refl;
    visiting = refl;
    stack = refl;
    ran = refl;
    sorted = tt;
    fresh = tt;
    reached = (h, tt);
  }

  Done-cons :
      (m : K) (ms : List K) (w w1 w2 : Walk S)
      → Done (m ∷ []) w w1
      → Done ms w1 w2
      → Done (m ∷ ms) w w2
  Done-cons m ms w w1 w2 d e = record {
    order = d.order ++ e.order;
    visited =
        e.visited
        ∙ ap (adding name e.order) d.visited
        ∙ sym (adding-append name d.order e.order w.visited);
    visiting = e.visiting ∙ d.visiting;
    stack = e.stack ∙ d.stack;
    ran = run_all-append d.order e.order w.rest w1.rest w2.rest d.ran e.ran;
    sorted =
        IsSorted-append name imports d.order e.order w.visited d.sorted
          (subst (λ v. IsSorted name imports v e.order) d.visited e.sorted);
    fresh =
        All-append _ d.order e.order d.fresh
          (subst (λ v. All (λ k. contains v (name k) ≡ false) e.order) d.visiting e.fresh);
    reached =
        (rw e.visited (contains-adding name e.order w1.visited (name m) d.reached.0), e.reached);
  }

  -- The module itself, behind its imports.
  module _ (m : K) (w w1 : Walk S) (unseen : contains w.visited (name m) ≡ false)
      (closed : contains w.visiting (name m) ≡ false)
      (d : Done (imports m) (enter (name m) w) w1) where
    differs :
        (k : K)
        → contains (insert (name m) w.visiting) (name k) ≡ false
        → str_eq (name k) (name m) ≡ false
    differs k h = ground (
      arith,
      contains-insert (name m) (name k) w.visiting,
      eq_iff (name m) (name k),
      eq_iff (name k) (name m),
      h,
    )

    outside :
        (k : K)
        → contains (insert (name m) w.visiting) (name k) ≡ false
        → contains w.visiting (name k) ≡ false
    outside k h = ground (arith, contains-insert (name m) (name k) w.visiting, h)

    still_unseen : contains w1.visited (name m) ≡ false
    still_unseen =
        rw d.visited (
          absent-adding name d.order w.visited (name m) unseen (All-weaken differs d.order d.fresh))

    Done-module :
        (a : S)
        → body m w1.rest ≡ some (ok tt, a)
        → Done (m ∷ []) w (leave (name m) (record w1 { rest = a }))
    unfolding pure
    Done-module a ran = record {
      order = d.order ++ m ∷ [];
      visited =
          ap (insert (name m)) d.visited ∙ sym (adding-append name d.order (m ∷ []) w.visited);
      visiting =
          ap (remove (name m)) (d.visiting ∙ insert_of_absent (name m) w.visiting closed)
          ∙ remove-cons_self (name m) w.visiting closed;
      stack = ap drop_last d.stack ∙ drop_last-concat w.stack (name m);
      ran =
          run_all-append d.order (m ∷ []) w.rest w1.rest a d.ran
            (bind-of-ok (body m) _ w1.rest ran);
      sorted =
          IsSorted-append name imports d.order (m ∷ []) w.visited d.sorted
            (subst (λ v. IsSorted name imports v (m ∷ [])) d.visited (still_unseen, d.reached, tt));
      fresh = All-append _ d.order (m ∷ []) (All-weaken outside d.order d.fresh) (closed, tt);
      reached = (contains-insert_self (name m) w1.visited, tt);
    }

  module _ (f : K → Exec (Walk S) VisitError (Unit {0}))
      (each : (m : K) (w w' : Walk S) → f m w ≡ some (ok tt, w') → Done (m ∷ []) w w') where
    pub visit_all-Done :
        (ms : List K) (w w' : Walk S) → visit_all f ms w ≡ some (ok tt, w') → Done ms w w'
    unfolding visit_all pure
    visit_all-Done [] w w' h =
        let same : w ≡ w' = ground arith in subst (Done [] w) same (Done-nil w)
    visit_all-Done (m ∷ ms) w w' h =
        let (_, w1, first, others) = bind-eq-ok (f m) _ w h in
        Done-cons m ms w w1 w' (each m w w1 first) (visit_all-Done ms w1 w' others)

  inside-eq-ok :
      (m : K) (w w' : Walk S)
      → inside (body m) w ≡ some (ok tt, w')
      → (body m w.rest ≡ some (ok tt, w'.rest)) × (w' ≡ record w { rest = w'.rest })
  inside-eq-ok m w w' h = ground arith

  unchanged :
      (w w' : Walk S)
      → ◌≡◌ {A = Option (Result VisitError (Unit {0}) × Walk S)}
          (some (ok tt, w))
          (some (ok tt, w'))
      → w ≡ w'
  unchanged w w' h = ground arith

  explore-Done :
      (f : K → Exec (Walk S) VisitError (Unit {0}))
      → ((i : K) (v v' : Walk S) → f i v ≡ some (ok tt, v') → Done (i ∷ []) v v')
      → (m : K) (w w' : Walk S) → contains w.visited (name m) ≡ false
      → contains w.visiting (name m) ≡ false
      → explore name imports body f m w ≡ some (ok tt, w')
      → Done (m ∷ []) w w'
  unfolding explore
  explore-Done f each m w w' unseen closed h =
      let (_, w1, entered, h1) = bind-eq-ok _ _ w h in
      let (_, w2, imported, h2) = bind-eq-ok (visit_all f (imports m)) _ w1 h1 in
      let (_, w3, done, left) = bind-eq-ok (inside (body m)) _ w2 h2 in
      let d = visit_all-Done f each (imports m) w1 w2 imported in
      let (ran, same) = inside-eq-ok m w2 w3 done in
      let e = modify-eq-ok (enter (name m)) w entered in
      let e3 = modify-eq-ok (leave (name m)) w3 left in
      subst (Done (m ∷ []) w) (ap (leave (name m)) (sym same) ∙ sym e3)
        (Done-module m w w2 unseen closed (subst (λ v. Done (imports m) v w2) e d) w3.rest ran)

  pub visit-Done :
      (fuel : ℕ) (m : K) (w w' : Walk S)
      → visit name imports body fuel m w ≡ some (ok tt, w')
      → Done (m ∷ []) w w'
  unfolding visit
  visit-Done zero m w w' h = cc
  visit-Done (suc fuel) m w w' h = elim (Bool-cases (contains w.visited (name m))) [
    | inl seen ↦ subst (Done (m ∷ []) w) (unchanged w w' (rw seen at h)) (Done-seen m w seen)
    | inr unseen ↦ elim (Bool-cases (contains w.visiting (name m))) [
      | inl circular ↦ cc (rw (unseen, circular) at h)
      | inr closed ↦
          explore-Done (visit name imports body fuel) (visit-Done fuel) m w w' unseen closed
            (rw (unseen, closed) at h)
    ]
  ]
