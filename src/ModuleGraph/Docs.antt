-- ===== src/ModuleGraph/Docs.antt =====
-- crates/nestforge-core/src/module.rs: `visit_module_docs` and `collect_module_route_docs`.
pub mod Gathered
use nestforge.Base.{ℕ, Option, none, some, List, [], ◌++◌, String, Result, ok, err}
use nestforge.Base.Exec.{Exec, modify}
use nestforge.ModuleGraph.ModuleRef.{ModuleRef}
use nestforge.ModuleGraph.Walk.{Walk, VisitError, default, visit}

module _ {V E Router Doc K : Type 0} (modules : K → ModuleRef V E Router Doc K) where
  -- `state.route_docs.extend(..)`.
  unfoldable pub extend_docs : K → Exec (List Doc) String (Unit {0})
  extend_docs k = modify (λ docs. docs ++ (modules k).route_docs)

  unfoldable pub visit_module_docs : ℕ → K → Exec (Walk (List Doc)) VisitError (Unit {0})
  unfolding extend_docs
  visit_module_docs = visit (λ k. (modules k).name) (λ k. (modules k).imports) extend_docs

  unfoldable pub collect_module_route_docs : ℕ → K → Option (Result VisitError (List Doc))
  unfolding visit_module_docs
  collect_module_route_docs fuel root = elim (visit_module_docs fuel root (default [])) [
    | none ↦ none
    | some (err e, w) ↦ some (err e)
    | some (ok _, w) ↦ some (ok w.rest)
  ]
