-- ===== src/ModuleGraph/Report.antt =====
-- crates/nestforge-core/src/module.rs: `visit_module_graph`, `collect_module_graph` and the
-- report.
pub mod Sorted
use nestforge.Base.{
  ℕ, Bool, Option, none, some, List, [], ◌∷◌, ◌++◌, map, String, if◌then◌else◌, Result, ok, err,
  length, str_eq,
}
use nestforge.Base.Exec.{Exec, modify}
use nestforge.ModuleGraph.ModuleRef.{ModuleRef}
use nestforge.ModuleGraph.Walk.{Walk, VisitError, default, visit}

pub record ModuleGraphEntry : Type 0 where
  pub name : String
  pub imports : List String
  pub exports : List String
  pub controller_count : ℕ
  pub is_global : Bool

-- `ModuleGraphReport`, and its `module`: the first entry of a name.
abbrev pub ModuleGraphReport : Type 0
ModuleGraphReport = List ModuleGraphEntry

unfoldable pub module_named : ModuleGraphReport → String → Option ModuleGraphEntry
module_named [] name = none
module_named (e ∷ es) name = if str_eq e.name name then some e else module_named es name

module _ {V E Router Doc K : Type 0} (modules : K → ModuleRef V E Router Doc K) where
  abbrev pub entry : K → ModuleGraphEntry
  entry k = record {
    name = (modules k).name;
    imports = map (λ i. (modules i).name) (modules k).imports;
    exports = (modules k).exports;
    controller_count = length (modules k).controllers;
    is_global = (modules k).is_global;
  }

  -- `state.modules.push(..)`.
  unfoldable pub push_entry : K → Exec ModuleGraphReport String (Unit {0})
  push_entry k = modify (λ entries. entries ++ entry k ∷ [])

  unfoldable pub visit_module_graph : ℕ → K → Exec (Walk ModuleGraphReport) VisitError (Unit {0})
  unfolding push_entry
  visit_module_graph = visit (λ k. (modules k).name) (λ k. (modules k).imports) push_entry

  unfoldable pub collect_module_graph : ℕ → K → Option (Result VisitError ModuleGraphReport)
  unfolding visit_module_graph
  collect_module_graph fuel root = elim (visit_module_graph fuel root (default [])) [
    | none ↦ none
    | some (err e, w) ↦ some (err e)
    | some (ok _, w) ↦ some (ok w.rest)
  ]
