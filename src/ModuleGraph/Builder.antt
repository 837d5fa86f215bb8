-- ===== src/ModuleGraph/Builder.antt =====
-- crates/nestforge-core/src/module.rs: `DynamicModuleBuilder`, without `register_provider`, whose
-- provider is taken out of a lock, and `provider_async`, which blocks on a future.
pub mod Exports
use nestforge.Base.{ℕ, Bool, true, false, List, [], ◌∷◌, ◌++◌, String}
use nestforge.Base.Exec.{Exec, pure, ◌>>=◌, ◌>>◌}
use nestforge.Container.State.{RustType, FactoryFn, Shared, Container, to_string}
use nestforge.Container.Register.{register}
use nestforge.Container.Resolve.{run_factory, resolve}
use nestforge.Provider.{attempt}
use nestforge.ModuleGraph.ModuleRef.{ModuleRef, LifecycleHook, dynamic}

pub record DynamicModuleBuilder (V E Router Doc K : Type 0) : Type 0 where
  pub name : String
  pub registration_steps : List (Exec (Shared V E) String (Unit {0}))
  pub imports : List K
  pub exports : List String
  pub controllers : List Router
  pub route_docs : List Doc
  pub on_module_init : List (LifecycleHook V E)
  pub on_module_destroy : List (LifecycleHook V E)
  pub on_application_bootstrap : List (LifecycleHook V E)
  pub on_application_shutdown : List (LifecycleHook V E)
  pub is_global : Bool

-- `for step in registration_steps.iter() { step(container)?; }`
unfoldable pub run_steps :
    {V E : Type 0}
    → List (Exec (Shared V E) String (Unit {0}))
    → Exec (Shared V E) String (Unit {0})
run_steps [] = pure tt
run_steps (step ∷ steps) = do step; run_steps steps

module _ {V E Router Doc K : Type 0} where
  unfoldable pub new_builder : String → DynamicModuleBuilder V E Router Doc K
  new_builder name = record {
    name = name;
    registration_steps = [];
    imports = [];
    exports = [];
    controllers = [];
    route_docs = [];
    on_module_init = [];
    on_module_destroy = [];
    on_application_bootstrap = [];
    on_application_shutdown = [];
    is_global = false;
  }

  -- `register`.
  unfoldable pub register_step :
      Exec (Shared V E) String (Unit {0})
      → DynamicModuleBuilder V E Router Doc K
      → DynamicModuleBuilder V E Router Doc K
  register_step step b = record b { registration_steps = b.registration_steps ++ step ∷ [] }

  unfoldable pub provider_value :
      RustType → V → DynamicModuleBuilder V E Router Doc K → DynamicModuleBuilder V E Router Doc K
  unfolding register_step
  provider_value t v b = register_step (attempt to_string (register t v)) b

  -- The factory runs where the module registers, with the fuel that its `resolve`s are given.
  unfoldable pub provider_factory :
      ℕ
      → Container
      → RustType
      → FactoryFn V E
      → DynamicModuleBuilder V E Router Doc K
      → DynamicModuleBuilder V E Router Doc K
  unfolding register_step
  provider_factory fuel c t f b =
      register_step (do v ← run_factory (resolve fuel) (f c); attempt to_string (register t v)) b

  unfoldable pub import_module :
      K → DynamicModuleBuilder V E Router Doc K → DynamicModuleBuilder V E Router Doc K
  import_module k b = record b { imports = b.imports ++ k ∷ [] }

  unfoldable pub export_type :
      RustType → DynamicModuleBuilder V E Router Doc K → DynamicModuleBuilder V E Router Doc K
  export_type t b = record b { exports = b.exports ++ t.type_name ∷ [] }

  -- `controller`, with the controller's router and its documentation.
  unfoldable pub controller :
      Router
      → List Doc
      → DynamicModuleBuilder V E Router Doc K
      → DynamicModuleBuilder V E Router Doc K
  controller router docs b = record b {
    controllers = b.controllers ++ router ∷ [];
    route_docs = b.route_docs ++ docs;
  }

  unfoldable pub module_init :
      LifecycleHook V E
      → DynamicModuleBuilder V E Router Doc K
      → DynamicModuleBuilder V E Router Doc K
  module_init hook b = record b { on_module_init = b.on_module_init ++ hook ∷ [] }

  unfoldable pub module_destroy :
      LifecycleHook V E
      → DynamicModuleBuilder V E Router Doc K
      → DynamicModuleBuilder V E Router Doc K
  module_destroy hook b = record b { on_module_destroy = b.on_module_destroy ++ hook ∷ [] }

  unfoldable pub application_bootstrap :
      LifecycleHook V E
      → DynamicModuleBuilder V E Router Doc K
      → DynamicModuleBuilder V E Router Doc K
  application_bootstrap hook b = record b {
    on_application_bootstrap = b.on_application_bootstrap ++ hook ∷ [];
  }

  unfoldable pub application_shutdown :
      LifecycleHook V E
      → DynamicModuleBuilder V E Router Doc K
      → DynamicModuleBuilder V E Router Doc K
  application_shutdown hook b = record b {
    on_application_shutdown = b.on_application_shutdown ++ hook ∷ [];
  }

  unfoldable pub global :
      DynamicModuleBuilder V E Router Doc K → DynamicModuleBuilder V E Router Doc K
  global b = record b { is_global = true }

  unfoldable pub build : DynamicModuleBuilder V E Router Doc K → ModuleRef V E Router Doc K
  unfolding dynamic run_steps
  build b = record (dynamic b.name (run_steps b.registration_steps)) {
    imports = b.imports;
    exports = b.exports;
    controllers = b.controllers;
    route_docs = b.route_docs;
    on_module_init = b.on_module_init;
    on_module_destroy = b.on_module_destroy;
    on_application_bootstrap = b.on_application_bootstrap;
    on_application_shutdown = b.on_application_shutdown;
    is_global = b.is_global;
  }
