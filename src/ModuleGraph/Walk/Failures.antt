-- ===== src/ModuleGraph/Walk/Failures.antt =====
-- Where the failures of a walk come from, and what it has done before.
use mathlib.Core.List.{Memᴰ}
use nestforge.Base.{
  ℕ, zero, suc, ◌≡◌, refl, ap, sym, subst, ◌∙◌, true, Option, some, List, [], ◌∷◌, ◌++◌,
  append_assoc, append-nil, String, Result, ok, err, contains, arith, Bool-cases, inl, inr, All,
}
use nestforge.Base.Exec.{Exec, pure}
use nestforge.Base.Exec.Invert.{bind-eq-err, modify-eq-ok, modify-ne-err}
use nestforge.ModuleGraph.Walk.{
  VisitError, failed, import_cycle, Walk, inside, enter, visit_all, explore, visit,
}
use nestforge.ModuleGraph.Walk.Sorted.{IsSorted, adding, adding-append, IsSorted-append}
use nestforge.ModuleGraph.Walk.Order.{Done, run_all, run_all-append, visit-Done, visit_all-Done}

module _ {K : Type 0} (imports : K → List K) where
  -- A module is imported, at some depth.
  pub data Imported : K → K → Type 0 where
    itself : {k : K} → Imported k k
    by_import : {k i j : K} → Memᴰ i (imports k) → Imported i j → Imported k j

module _ {S K : Type 0} (name : K → String) (imports : K → List K)
    (body : K → Exec S String (Unit {0})) where
  -- The turns that a walk has completed, one after another, each module once and behind its imports.
  pub record Begun (w : Walk S) (last : S) : Type 0 where
    pub order : List K
    pub turns : run_all name imports body order w.rest ≡ some (ok tt, last)
    pub sorted : IsSorted name imports w.visited order

  -- A module below the root whose imports are done, and whose turn then gave the message.
  pub record FailedAt (root : K) (w : Walk S) (message : String) (last : S) : Type 0 where
    pub at : K
    pub before : S
    pub begun : Begun w before
    pub imported : Imported imports root at
    pub ready : All (λ i. contains (adding name begun.order w.visited) (name i) ≡ true) (imports at)
    pub ran : body at before ≡ some (err message, last)

  -- A cycle is found behind some turns, below some modules that are open.
  pub record Circular (open_names : List String) (w : Walk S) (names : List String) (last : S)
      : Type 0 where
    pub begun : Begun w last
    pub below : List String
    pub spelled : names ≡ open_names ++ below

  Begun-after :
      {ms : List K} {w w1 : Walk S} {last : S}
      → Done name imports body ms w w1
      → Begun w1 last
      → Begun w last
  Begun-after {w = w} {w1 = w1} {last = last} d b = record {
    order = d.order ++ b.order;
    turns = run_all-append name imports body d.order b.order w.rest w1.rest last d.ran b.turns;
    sorted =
        IsSorted-append name imports d.order b.order w.visited d.sorted
          (subst (λ (v : List String). IsSorted name imports v b.order) d.visited b.sorted);
  }

  FailedAt-after :
      {ms : List K} {w w1 : Walk S} {root : K} {message : String} {last : S}
      → Done name imports body ms w w1
      → FailedAt root w1 message last
      → FailedAt root w message last
  unfolding Begun-after
  FailedAt-after {w = w} d f = record {
    at = f.at;
    before = f.before;
    begun = Begun-after d f.begun;
    imported = f.imported;
    ready =
        subst (λ (v : List String). All (λ i. contains v (name i) ≡ true) (imports f.at))
          (ap (adding name f.begun.order) d.visited
            ∙ sym (adding-append name d.order f.begun.order w.visited))
          f.ready;
    ran = f.ran;
  }

  -- A module that is entered has the visited names and the state of before.
  Begun-enter : (w : Walk S) (n : String) {last : S} → Begun (enter n w) last → Begun w last
  Begun-enter w n b = record { order = b.order; turns = b.turns; sorted = b.sorted }

  FailedAt-enter :
      (w : Walk S) (n : String) {root from : K} {message : String} {last : S}
      → ((j : K) → Imported imports from j → Imported imports root j)
      → FailedAt from (enter n w) message last
      → FailedAt root w message last
  unfolding Begun-enter
  FailedAt-enter w n below f = record {
    at = f.at;
    before = f.before;
    begun = Begun-enter w n f.begun;
    imported = below f.at f.imported;
    ready = f.ready;
    ran = f.ran;
  }

  abbrev Fails : (K → Exec (Walk S) VisitError (Unit {0})) → Type 0
  Fails f =
      (m : K) (w w' : Walk S)
      → ((message : String)
          → f m w ≡ some (err (failed message), w')
          → FailedAt m w message w'.rest)
        × ((names : List String)
            → f m w ≡ some (err (import_cycle names), w')
            → Circular (w.stack ++ name m ∷ []) w names w'.rest)

  -- What is found below one of some modules.
  record FailedBelow (ms : List K) (w : Walk S) (message : String) (last : S) : Type 0 where
    from : K
    listed : Memᴰ from ms
    found : FailedAt from w message last

  module _ (f : K → Exec (Walk S) VisitError (Unit {0})) (fails : Fails f)
      (each : (m : K) (w w' : Walk S)
        → f m w ≡ some (ok tt, w')
        → Done name imports body (m ∷ []) w w') where
    visit_all-FailedBelow :
        (ms : List K) (w w' : Walk S) (message : String)
        → visit_all f ms w ≡ some (err (failed message), w')
        → FailedBelow ms w message w'.rest
    unfolding visit_all pure
    visit_all-FailedBelow [] w w' message h = cc
    visit_all-FailedBelow (m ∷ ms) w w' message h = elim (bind-eq-err (f m) _ w h) [
      | inl here ↦ record {
        from = m;
        listed = Memᴰ.head refl;
        found = (fails m w w').0 message here;
      }
      | inr (_, w1, first, rest) ↦
          let below = visit_all-FailedBelow ms w1 w' message rest in
          record {
            from = below.from;
            listed = Memᴰ.tail below.listed;
            found = FailedAt-after (each m w w1 first) below.found;
          }
    ]

    visit_all-Circular :
        (ms : List K) (w w' : Walk S) (names : List String)
        → visit_all f ms w ≡ some (err (import_cycle names), w')
        → Circular w.stack w names w'.rest
    unfolding visit_all pure
    visit_all-Circular [] w w' names h = cc
    visit_all-Circular (m ∷ ms) w w' names h = elim (bind-eq-err (f m) _ w h) [
      | inl here ↦
          let c = (fails m w w').1 names here in
          record {
            begun = c.begun;
            below = name m ∷ c.below;
            spelled = c.spelled ∙ append_assoc w.stack (name m ∷ []) c.below;
          }
      | inr (_, w1, first, rest) ↦
          let d = each m w w1 first in
          let c = visit_all-Circular ms w1 w' names rest in
          record {
            begun = Begun-after d c.begun;
            below = c.below;
            spelled = c.spelled ∙ ap (λ (l : List String). l ++ c.below) d.stack;
          }
    ]

    inside-FailedAt :
        (m : K) (w w1 w' : Walk S) (message : String)
        → Done name imports body (imports m) w w1
        → inside (body m) w1 ≡ some (err (failed message), w')
        → FailedAt m w message w'.rest
    inside-FailedAt m w w1 w' message d h = record {
      at = m;
      before = w1.rest;
      begun = record { order = d.order; turns = d.ran; sorted = d.sorted };
      imported = itself;
      ready =
          subst (λ (v : List String). All (λ i. contains v (name i) ≡ true) (imports m)) d.visited
            d.reached;
      ran = ground arith;
    }

    inside-not_circular :
        (m : K) (w w' : Walk S) (names : List String)
        → ¬ (inside (body m) w ≡ some (err (import_cycle names), w'))
    inside-not_circular m w w' names h = ground arith

    explore-Fails : Fails (explore name imports body f)
    unfolding explore
    explore-Fails m w w' = (failing, circular)
      where
        failing :
            (message : String)
            → explore name imports body f m w ≡ some (err (failed message), w')
            → FailedAt m w message w'.rest
        failing message h = elim (bind-eq-err _ _ w h) [
          | inl entering ↦ absurd (modify-ne-err _ w entering)
          | inr (_, w1, entered, h1) ↦
              let e = modify-eq-ok (enter (name m)) w entered in
              elim (bind-eq-err (visit_all f (imports m)) _ w1 h1) [
                | inl importing ↦
                    let below =
                      subst (λ (v : Walk S). FailedBelow (imports m) v message w'.rest) e
                        (visit_all-FailedBelow (imports m) w1 w' message importing) in
                    FailedAt-enter w (name m) (λ j under. by_import below.listed under) below.found
                | inr (_, w2, done, h2) ↦ elim (bind-eq-err (inside (body m)) _ w2 h2) [
                  | inl doing ↦
                      FailedAt-enter w (name m) (λ j under. under)
                        (inside-FailedAt m (enter (name m) w) w2 w' message
                          (subst (λ (v : Walk S). Done name imports body (imports m) v w2) e
                            (visit_all-Done name imports body f each (imports m) w1 w2 done))
                          doing)
                  | inr (_, w3, _, leaving) ↦ absurd (modify-ne-err _ w3 leaving)
                ]
              ]
        ]

        circular :
            (names : List String)
            → explore name imports body f m w ≡ some (err (import_cycle names), w')
            → Circular (w.stack ++ name m ∷ []) w names w'.rest
        circular names h = elim (bind-eq-err _ _ w h) [
          | inl entering ↦ absurd (modify-ne-err _ w entering)
          | inr (_, w1, entered, h1) ↦
              let e = modify-eq-ok (enter (name m)) w entered in
              elim (bind-eq-err (visit_all f (imports m)) _ w1 h1) [
                | inl importing ↦
                    let c =
                      subst (λ (v : Walk S). Circular v.stack v names w'.rest) e
                        (visit_all-Circular (imports m) w1 w' names importing) in
                    record {
                      begun = Begun-enter w (name m) c.begun;
                      below = c.below;
                      spelled = c.spelled;
                    }
                | inr (_, w2, _, h2) ↦ elim (bind-eq-err (inside (body m)) _ w2 h2) [
                  | inl doing ↦ absurd (inside-not_circular m w2 w' names doing)
                  | inr (_, w3, _, leaving) ↦ absurd (modify-ne-err _ w3 leaving)
                ]
              ]
        ]

  at_once :
      (m : K) (w w' : Walk S) (names : List String)
      → ◌≡◌ {A = Option (Result VisitError (Unit {0}) × Walk S)}
          (some (err (import_cycle (w.stack ++ name m ∷ [])), w))
          (some (err (import_cycle names), w'))
      → Circular (w.stack ++ name m ∷ []) w names w'.rest
  unfolding pure
  at_once m w w' names h =
      let same : w ≡ w' = ground arith in
      let named : names ≡ w.stack ++ name m ∷ [] = ground arith in
      record {
        begun = record {
          order = [];
          turns = ap (λ (v : Walk S). some (ok tt, v.rest)) same;
          sorted = tt;
        };
        below = [];
        spelled = named ∙ sym (append-nil (w.stack ++ name m ∷ []));
      }

  -- A walk fails with a message only if the turn of some module below the root failed with it, behind
  -- its imports, in the state that the turns before it left; and it finds a cycle behind such turns.
  pub visit-Fails : (fuel : ℕ) → Fails (visit name imports body fuel)
  unfolding visit
  visit-Fails zero m w w' = (λ message h. cc, λ names h. cc)
  visit-Fails (suc fuel) m w w' = elim (Bool-cases (contains w.visited (name m))) [
    | inl seen ↦ (λ message h. cc (rw seen at h), λ names h. cc (rw seen at h))
    | inr unseen ↦ elim (Bool-cases (contains w.visiting (name m))) [
      | inl circular ↦ (
        λ message h. cc (rw (unseen, circular) at h),
        λ names h. at_once m w w' names (rw (unseen, circular) at h),
      )
      | inr closed ↦
          let (failing, circular) =
            explore-Fails (visit name imports body fuel) (visit-Fails fuel)
              (visit-Done name imports body fuel) m w w' in
          (
            λ message h. failing message (rw (unseen, closed) at h),
            λ names h. circular names (rw (unseen, closed) at h),
          )
    ]
  ]
