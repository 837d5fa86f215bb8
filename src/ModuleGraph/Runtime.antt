-- ===== src/ModuleGraph/Runtime.antt =====
-- crates/nestforge-core/src/module.rs: `visit_module`, `initialize_module_runtime` and the
-- lifecycle hooks.
pub mod Turns
pub mod Registered
pub mod Hooks
pub mod Failures
use nestforge.Base.{
  ℕ, Bool, Option, none, some, List, [], ◌∷◌, ◌++◌, reverse, String, if◌then◌else◌, Result, ok, err,
  insert,
}
use nestforge.Base.Exec.{Exec, pure, throw, asks, modify, map_error, ◌>>=◌, ◌>>◌}
use nestforge.Container.State.{Shared, ContainerError, to_string, is_type_registered_name, ◌<>◌}
use nestforge.Base.{map_err}
use nestforge.ModuleGraph.ModuleRef.{ModuleRef, LifecycleHook}
use nestforge.ModuleGraph.Walk.{Walk, VisitError, default, visit}

-- The fields of `ModuleGraphState` beside those of the walk, and the container.
pub record Built (V E Router : Type 0) : Type 0 where
  pub container : Shared V E
  pub controllers : List Router
  pub module_init_hooks : List (LifecycleHook V E)
  pub module_destroy_hooks : List (LifecycleHook V E)
  pub application_bootstrap_hooks : List (LifecycleHook V E)
  pub application_shutdown_hooks : List (LifecycleHook V E)
  pub global_modules : List String

pub record InitializedModule (V E Router : Type 0) : Type 0 where
  pub controllers : List Router
  pub module_init_hooks : List (LifecycleHook V E)
  pub module_destroy_hooks : List (LifecycleHook V E)
  pub application_bootstrap_hooks : List (LifecycleHook V E)
  pub application_shutdown_hooks : List (LifecycleHook V E)

abbrev pub failed_to_register : String → String → String
failed_to_register name e = "Failed to register module `" <> name <> "`: " <> e

abbrev pub failed_to_verify : String → ContainerError → String
failed_to_verify name e = "Failed to verify exports for module `" <> name <> "`: " <> to_string e

abbrev pub not_exported : String → String → String
not_exported name export =
    "Module `" <> name <> "` exports `" <> export
    <> "` but that provider is not registered in the container"

module _ {V E Router : Type 0} where
  abbrev pub on_container :
      Exec (Shared V E) String (Unit {0}) → Exec (Built V E Router) String (Unit {0})
  on_container m b = elim (m b.container) [
    | none ↦ none
    | some (r, s) ↦ some (r, record b { container = s })
  ]

  -- `for export in exports`: each must be the name of a registered type.
  unfoldable pub check_exports : String → List String → Exec (Built V E Router) String (Unit {0})
  check_exports name [] = pure tt
  check_exports name (export ∷ exports) = do
    is_registered ←
        asks (λ b. map_err (failed_to_verify name) (is_type_registered_name export b.container))
    if is_registered then check_exports name exports else throw (not_exported name export)

module _ {V E Router Doc K : Type 0} where
  abbrev pub extend : ModuleRef V E Router Doc K → Built V E Router → Built V E Router
  extend m b = record b {
    controllers = b.controllers ++ m.controllers;
    module_init_hooks = b.module_init_hooks ++ m.on_module_init;
    module_destroy_hooks = b.module_destroy_hooks ++ m.on_module_destroy;
    application_bootstrap_hooks = b.application_bootstrap_hooks ++ m.on_application_bootstrap;
    application_shutdown_hooks = b.application_shutdown_hooks ++ m.on_application_shutdown;
    global_modules = if m.is_global then insert m.name b.global_modules else b.global_modules;
  }

  -- What `visit_module` does with a module when its imports are done.
  unfoldable pub register_module :
      ModuleRef V E Router Doc K → Exec (Built V E Router) String (Unit {0})
  unfolding check_exports
  register_module m = do
    on_container (map_error (failed_to_register m.name) m.register)
    modify (extend m)
    check_exports m.name m.exports

-- The application: a key for the root, and the module of each key.
module _ {V E Router Doc K : Type 0} (modules : K → ModuleRef V E Router Doc K) where
  unfoldable pub visit_module : ℕ → K → Exec (Walk (Built V E Router)) VisitError (Unit {0})
  visit_module =
      visit (λ k. (modules k).name) (λ k. (modules k).imports) (λ k. register_module (modules k))

  abbrev pub nothing_built : Shared V E → Built V E Router
  nothing_built s = record {
    container = s;
    controllers = [];
    module_init_hooks = [];
    module_destroy_hooks = [];
    application_bootstrap_hooks = [];
    application_shutdown_hooks = [];
    global_modules = [];
  }

  abbrev pub initialized : Built V E Router → InitializedModule V E Router
  initialized b = record {
    controllers = b.controllers;
    module_init_hooks = b.module_init_hooks;
    module_destroy_hooks = reverse b.module_destroy_hooks;
    application_bootstrap_hooks = b.application_bootstrap_hooks;
    application_shutdown_hooks = reverse b.application_shutdown_hooks;
  }

  -- A failed initialization has changed the container as far as it went.
  unfoldable pub initialize_module_runtime :
      ℕ → K → Exec (Shared V E) VisitError (InitializedModule V E Router)
  unfolding visit_module register_module
  initialize_module_runtime fuel root s =
      elim (visit_module fuel root (default (nothing_built s))) [
        | none ↦ none
        | some (err e, w) ↦ some (err e, w.rest.container)
        | some (ok _, w) ↦ some (ok (initialized w.rest), w.rest.container)
      ]

-- `run_lifecycle_hooks`, for each of the four phases.
unfoldable pub run_lifecycle_hooks :
    {V E : Type 0} → List (LifecycleHook V E) → Exec (Shared V E) String (Unit {0})
run_lifecycle_hooks [] = pure tt
run_lifecycle_hooks (hook ∷ hooks) = do hook; run_lifecycle_hooks hooks
