-- ===== src/Testing.antt =====
-- crates/nestforge-testing/src/lib.rs: the factory of testing modules, with the values that override
-- providers, and what a testing module gives. The merged routers are axum's and async-graphql's.
pub mod Overridden
mod Tests
use nestforge.Base.{ℕ, Option, none, some, List, [], ◌∷◌, ◌++◌, String, Result, ok, err}
use nestforge.Base.Exec.{Exec, pure, map_error, ◌>>=◌, ◌>>◌}
use nestforge.Container.State.{RustType, Shared, Container, ContainerError, new}
use nestforge.Container.Register.{override_value}
use nestforge.ModuleGraph.ModuleRef.{ModuleRef}
use nestforge.ModuleGraph.Walk.{VisitError}
use nestforge.ModuleGraph.Runtime.{
  InitializedModule, initialize_module_runtime, run_lifecycle_hooks,
}
use nestforge.Microservices.{
  Failure, TransportMetadata, MicroserviceContext, ContextTypes, MicroserviceRegistry, new_context,
  no_metadata,
}
use nestforge.Microservices.Client.{
  InProcessClient, new_client, with_transport, with_client_metadata,
}
use nestforge.WebSockets.{WebSocketContext}
use nestforge.Grpc.{GrpcContext}

-- `anyhow::Error`.
pub data TestError : Type 0 where
  override_failed : ContainerError → TestError
  graph_failed : VisitError → TestError
  hook_failed : String → TestError

-- A closure of `override_provider`, for a type and a value.
pub record Override (V : Type 0) : Type 0 where
  pub target : RustType
  pub value : V

-- The overrides of a `TestFactory`.
abbrev pub TestFactory : Type 0 → Type 0
TestFactory V = List (Override V)

unfoldable pub override_provider : {V : Type 0} → RustType → V → TestFactory V → TestFactory V
override_provider target value f = f ++ record { target = target; value = value } ∷ []

pub record TestingModule (V E Router : Type 0) : Type 0 where
  pub container : Container
  pub runtime : InitializedModule V E Router

module _ {V E : Type 0} where
  -- The loop of `build`.
  unfoldable pub apply_overrides :
      Container → TestFactory V → Exec (Shared V E) TestError (Unit {0})
  apply_overrides c [] s = some (ok tt, s)
  apply_overrides c (o ∷ os) s =
      let (outcome, s') = override_value c o.target o.value s in
      elim outcome [ err e ↦ some (err (override_failed e), s') | ok _ ↦ apply_overrides c os s' ]

module _ {V E Router Doc K : Type 0} (modules : K → ModuleRef V E Router Doc K) where
  -- `build`, behind the loop.
  unfoldable pub initialize_and_boot :
      ℕ → K → Container → Exec (Shared V E) TestError (TestingModule V E Router)
  initialize_and_boot fuel root container = do
    runtime ← map_error graph_failed (initialize_module_runtime modules fuel root)
    map_error hook_failed (run_lifecycle_hooks runtime.module_init_hooks)
    map_error hook_failed (run_lifecycle_hooks runtime.application_bootstrap_hooks)
    pure (record { container = container; runtime = runtime })

  -- `build`, in a process whose state outside the container is `e`.
  unfoldable pub build_test :
      ℕ → TestFactory V → K → E → Option (Result TestError (TestingModule V E Router) × Shared V E)
  build_test fuel overrides root e =
      let (empty, container) = new e in
      (apply_overrides container overrides >> initialize_and_boot fuel root container) empty

module _ {V E Router : Type 0} where
  unfoldable pub shutdown_test : TestingModule V E Router → Exec (Shared V E) TestError (Unit {0})
  shutdown_test m = do
    map_error hook_failed (run_lifecycle_hooks m.runtime.module_destroy_hooks)
    map_error hook_failed (run_lifecycle_hooks m.runtime.application_shutdown_hooks)

  unfoldable pub test_grpc_context : TestingModule V E Router → GrpcContext
  test_grpc_context m = record { container = m.container }

  -- `websocket_context_with`; `websocket_context` has no id, no identity and no headers.
  unfoldable pub test_websocket_context :
      {Headers : Type 0}
      → Option V
      → Option V
      → Headers
      → TestingModule V E Router
      → WebSocketContext V Headers
  test_websocket_context request_id auth_identity headers m = record {
    container = m.container;
    request_id = request_id;
    auth_identity = auth_identity;
    headers = headers;
  }

  -- `microservice_context_with_metadata`; `microservice_context` has no metadata.
  unfoldable pub test_microservice_context :
      ContextTypes
      → ℕ
      → String
      → String
      → TransportMetadata
      → TestingModule V E Router
      → Exec (Shared V E) Failure (MicroserviceContext V)
  test_microservice_context types fuel transport pattern metadata m =
      new_context types fuel m.container transport pattern metadata

  -- `microservice_client_with_metadata`.
  unfoldable pub test_microservice_client :
      {Value : Type 0}
      → MicroserviceRegistry Value V E
      → String
      → TransportMetadata
      → TestingModule V E Router
      → InProcessClient Value V E
  test_microservice_client registry transport metadata m =
      with_client_metadata metadata (with_transport transport (new_client m.container registry))
