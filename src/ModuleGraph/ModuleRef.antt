-- ===== src/ModuleGraph/ModuleRef.antt =====
-- crates/nestforge-core/src/module.rs: `ModuleRef`, with what its closures return. The routers of
-- axum and the documentation of routes are opaque here; a module is named by a key `K`, so that
-- the modules that it imports may import it.
use nestforge.Base.{Bool, false, List, [], String}
use nestforge.Base.Exec.{Exec}
use nestforge.Container.State.{Shared}

-- `fn(&Container) -> Result<()>`, called with the root container.
abbrev pub LifecycleHook : Type 0 → Type 0 → Type 0
LifecycleHook V E = Exec (Shared V E) String (Unit {0})

pub record ModuleRef (V E Router Doc K : Type 0) : Type 0 where
  pub name : String
  pub register : Exec (Shared V E) String (Unit {0})
  pub controllers : List Router
  pub route_docs : List Doc
  pub on_module_init : List (LifecycleHook V E)
  pub on_module_destroy : List (LifecycleHook V E)
  pub on_application_bootstrap : List (LifecycleHook V E)
  pub on_application_shutdown : List (LifecycleHook V E)
  pub imports : List K
  pub exports : List String
  pub is_global : Bool

module _ {V E Router Doc K : Type 0} where
  unfoldable pub dynamic : String → Exec (Shared V E) String (Unit {0}) → ModuleRef V E Router Doc K
  dynamic name register = record {
    name = name;
    register = register;
    controllers = [];
    route_docs = [];
    on_module_init = [];
    on_module_destroy = [];
    on_application_bootstrap = [];
    on_application_shutdown = [];
    imports = [];
    exports = [];
    is_global = false;
  }
