-- ===== src/ModuleGraph/Walk.antt =====
-- crates/nestforge-core/src/module.rs: the depth-first walk that `visit_module`,
-- `visit_module_docs` and `visit_module_graph` share; they differ in what they do with a module
-- once its imports are done. A module is a key: its name and its imports are given by functions,
-- so the graph may be infinite, and two modules may have one name. `none` is a walk that goes
-- deeper than the fuel, which the program does not bound.
pub mod Sorted
pub mod Order
pub mod Cycles
pub mod Ends
pub mod Failures
use nestforge.Base.{
  ℕ, zero, suc, Bool, Option, none, some, List, [], ◌∷◌, ◌++◌, String, if◌then◌else◌, Result, ok,
  err, contains, insert, remove, drop_last,
}
use nestforge.Base.Exec.{Exec, pure, lift, modify, ◌>>=◌, ◌>>◌}

pub data VisitError : Type 0 where
  import_cycle : List String → VisitError
  failed : String → VisitError

-- The fields that the three states have in common, and the rest.
pub record Walk (S : Type 0) : Type 0 where
  pub visited : List String
  pub visiting : List String
  pub stack : List String
  pub rest : S

abbrev pub default : {S : Type 0} → S → Walk S
default a = record { visited = []; visiting = []; stack = []; rest = a }

-- What is done with a module, on the rest of the state alone.
abbrev pub inside : {S : Type 0} → Exec S String (Unit {0}) → Exec (Walk S) VisitError (Unit {0})
inside m w = elim (m w.rest) [
  | none ↦ none
  | some (ok _, a) ↦ some (ok tt, record w { rest = a })
  | some (err e, a) ↦ some (err (failed e), record w { rest = a })
]

abbrev pub enter : {S : Type 0} → String → Walk S → Walk S
enter n w = record w { visiting = insert n w.visiting; stack = w.stack ++ n ∷ [] }

abbrev pub leave : {S : Type 0} → String → Walk S → Walk S
leave n w = record w {
  stack = drop_last w.stack;
  visiting = remove n w.visiting;
  visited = insert n w.visited;
}

-- `for imported in imports { visit(imported, state)?; }`
unfoldable pub visit_all :
    {S K : Type 0}
    → (K → Exec (Walk S) VisitError (Unit {0}))
    → List K
    → Exec (Walk S) VisitError (Unit {0})
visit_all f [] = pure tt
visit_all f (m ∷ ms) = do f m; visit_all f ms

module _ {S K : Type 0} (name : K → String) (imports : K → List K)
    (body : K → Exec S String (Unit {0})) where
  -- A module that is met for the first time: its imports, then itself.
  unfoldable pub explore :
      (K → Exec (Walk S) VisitError (Unit {0})) → K → Exec (Walk S) VisitError (Unit {0})
  unfolding visit_all
  explore again m = do
    modify (enter (name m))
    visit_all again (imports m)
    inside (body m)
    modify (leave (name m))

  unfoldable pub visit : ℕ → K → Exec (Walk S) VisitError (Unit {0})
  unfolding explore contains
  visit zero m w = none
  visit (suc fuel) m w =
      if contains w.visited (name m)
      then some (ok tt, w)
      else if contains w.visiting (name m)
      then some (err (import_cycle (w.stack ++ name m ∷ [])), w)
      else explore (visit fuel) m w
