-- ===== src/HttpFactory/Life.antt =====
-- crates/nestforge-http/src/factory.rs: `create` and `listen`, with the lifecycle hooks that they
-- run.
use nestforge.Base.{ℕ, Option, none, some, [], String, Result, ok, err}
use nestforge.Base.Exec.{Exec, pure, map_error, ◌>>=◌, ◌>>◌}
use nestforge.Container.State.{Shared, Container, new}
use nestforge.ModuleGraph.ModuleRef.{ModuleRef}
use nestforge.ModuleGraph.Walk.{VisitError}
use nestforge.ModuleGraph.Runtime.{
  InitializedModule, initialize_module_runtime, run_lifecycle_hooks,
}
use nestforge.Pipeline.{Request}
use nestforge.HttpFactory.{World, Http}
use nestforge.HttpFactory.App.{Axum, NestForgeFactory, into_router}

-- `anyhow::Error`.
pub data FactoryError : Type 0 where
  graph_error : VisitError → FactoryError
  hook_error server_error : String → FactoryError

module _ (Value Body Res O : Type 0) {V E Router Doc K : Type 0}
    (modules : K → ModuleRef V E Router Doc K) where
  abbrev pub created :
      Container → InitializedModule V E Router → NestForgeFactory Value Body Res V E O Router
  created container runtime = record {
    container = container;
    runtime = runtime;
    controllers = runtime.controllers;
    extra_routers = [];
    global_prefix = none;
    version = none;
    auth_resolver = none;
    global_guards = [];
    global_interceptors = [];
    global_exception_filters = [];
    middleware_bindings = [];
  }

  -- `create`, once it has an empty container.
  unfoldable pub boot :
      ℕ
      → K
      → Container
      → Exec (Shared V E) FactoryError (NestForgeFactory Value Body Res V E O Router)
  unfolding initialize_module_runtime run_lifecycle_hooks
  boot fuel root container = do
    runtime ← map_error graph_error (initialize_module_runtime modules fuel root)
    map_error hook_error (run_lifecycle_hooks runtime.module_init_hooks)
    map_error hook_error (run_lifecycle_hooks runtime.application_bootstrap_hooks)
    pure (created container runtime)

  -- `create`, in a process whose state outside the container is `e`.
  unfoldable pub create :
      ℕ
      → K
      → E
      → Option (Result FactoryError (NestForgeFactory Value Body Res V E O Router) × Shared V E)
  unfolding new boot
  create fuel root e = let (empty, container) = new e in boot fuel root container empty

-- A phase of hooks, on the container.
module _ {V E O : Type 0} where
  unfoldable pub on_shared :
      Exec (Shared V E) String (Unit {0}) → Exec (World V E O) FactoryError (Unit {0})
  on_shared m w = elim (m w.shared) [
    | none ↦ none
    | some (ok u, s) ↦ some (ok u, record w { shared = s })
    | some (err e, s) ↦ some (err (hook_error e), record w { shared = s })
  ]

module _ {Value Body Res V E O : Type 0} (http : Http Value Body Res V O)
    (axum : Axum (Request Value Body) Res (World V E O)) where
  open axum use {Router}

  -- `axum::serve` is documented never to end; the hooks behind it run only if it does, with success.
  unfoldable pub listen :
      Exec (World V E O) String (Unit {0})
      → (Router → Exec (World V E O) String (Unit {0}))
      → NestForgeFactory Value Body Res V E O Router
      → Exec (World V E O) FactoryError (Unit {0})
  unfolding into_router on_shared run_lifecycle_hooks
  listen bind serve f = do
    map_error server_error bind
    map_error server_error (serve (into_router http axum f))
    on_shared (run_lifecycle_hooks f.runtime.module_destroy_hooks)
    on_shared (run_lifecycle_hooks f.runtime.application_shutdown_hooks)
