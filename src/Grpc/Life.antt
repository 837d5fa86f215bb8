-- ===== src/Grpc/Life.antt =====
-- crates/nestforge-grpc/src/lib.rs: `GrpcServerConfig` and `NestForgeGrpcFactory`, with the hooks that its
-- start and its end run. The parsing of an address and the server are parameters.
use nestforge.Base.{ℕ, ◌≡◌, ap, ◌∙◌, Option, some, String, Result, ok, map_err, Text, codes}
use nestforge.Base.Exec.{Exec, pure, lift, map_error, ◌>>=◌, ◌>>◌}
use nestforge.Base.Exec.Invert.{bind-eq-ok, lift-eq-ok, map_error-eq-ok}
use nestforge.Container.State.{Shared, Container, new}
use nestforge.ModuleGraph.ModuleRef.{ModuleRef}
use nestforge.ModuleGraph.Walk.{VisitError}
use nestforge.ModuleGraph.Runtime.{
  InitializedModule, initialize_module_runtime, run_lifecycle_hooks,
}
use nestforge.Grpc.{GrpcContext}

-- `anyhow::Error`.
pub data GrpcError : Type 0 where
  graph_failure : VisitError → GrpcError
  hook_failure : String → GrpcError
  invalid_address : String → GrpcError
  server_failure : String → GrpcError

pub record GrpcServerConfig : Type 0 where
  pub addr : Text

unfoldable pub default_config : GrpcServerConfig
default_config = record { addr = codes "127.0.0.1:50051" }

pub record NestForgeGrpcFactory (V E Router : Type 0) : Type 0 where
  pub container : Container
  pub runtime : InitializedModule V E Router
  pub config : GrpcServerConfig

module _ {V E Router : Type 0} where
  unfoldable pub with_addr :
      Text → NestForgeGrpcFactory V E Router → NestForgeGrpcFactory V E Router
  with_addr addr f = record f { config = record { addr = addr } }

  unfoldable pub with_config :
      GrpcServerConfig → NestForgeGrpcFactory V E Router → NestForgeGrpcFactory V E Router
  with_config config f = record f { config = config }

  unfoldable pub factory_context : NestForgeGrpcFactory V E Router → GrpcContext
  factory_context f = record { container = f.container }

module _ {V E Router Doc K : Type 0} (modules : K → ModuleRef V E Router Doc K) where
  -- `create`, once it has an empty container.
  unfoldable pub start_grpc :
      ℕ → K → Container → Exec (Shared V E) GrpcError (NestForgeGrpcFactory V E Router)
  unfolding default_config
  start_grpc fuel root container = do
    runtime ← map_error graph_failure (initialize_module_runtime modules fuel root)
    map_error hook_failure (run_lifecycle_hooks runtime.module_init_hooks)
    map_error hook_failure (run_lifecycle_hooks runtime.application_bootstrap_hooks)
    pure (record { container = container; runtime = runtime; config = default_config })

  -- `create`, in a process whose state outside the container is `e`.
  unfoldable pub create_grpc :
      ℕ → K → E → Option (Result GrpcError (NestForgeGrpcFactory V E Router) × Shared V E)
  create_grpc fuel root e = let (empty, container) = new e in start_grpc fuel root container empty

module _ {V E Router Addr : Type 0} (parse : Text → Result String Addr) where
  -- `socket_addr`.
  unfoldable pub socket_addr : NestForgeGrpcFactory V E Router → Result GrpcError Addr
  socket_addr f = map_err invalid_address (parse f.config.addr)

  unfoldable pub listen_with :
      (GrpcContext → Addr → Exec (Shared V E) String (Unit {0}))
      → NestForgeGrpcFactory V E Router
      → Exec (Shared V E) GrpcError (Unit {0})
  unfolding factory_context socket_addr
  listen_with serve f = do
    addr ← lift (socket_addr f)
    map_error server_failure (serve (factory_context f) addr)
    map_error hook_failure (run_lifecycle_hooks f.runtime.module_destroy_hooks)
    map_error hook_failure (run_lifecycle_hooks f.runtime.application_shutdown_hooks)

  -- What a server that ends with success has done.
  record Served (serve : GrpcContext → Addr → Exec (Shared V E) String (Unit {0}))
      (f : NestForgeGrpcFactory V E Router) (s s' : Shared V E) : Type 0 where
    addr : Addr
    ended : Shared V E
    destroyed : Shared V E
    parsed : socket_addr f ≡ ok addr
    served : serve (factory_context f) addr s ≡ some (ok tt, ended)
    destroys : run_lifecycle_hooks f.runtime.module_destroy_hooks ended ≡ some (ok tt, destroyed)
    shuts_down :
        run_lifecycle_hooks f.runtime.application_shutdown_hooks destroyed ≡ some (ok tt, s')

  -- A server that ends with success has served at its address, in its container, and has then run the
  -- hooks of the modules' destruction and, behind them, those of the application's shutdown.
  listen_with-Served :
      (serve : GrpcContext → Addr → Exec (Shared V E) String (Unit {0}))
      (f : NestForgeGrpcFactory V E Router) (s s' : Shared V E)
      → listen_with serve f s ≡ some (ok tt, s')
      → Served serve f s s'
  unfolding listen_with
  listen_with-Served serve f s s' h =
      let (addr, s1, parsing, rest) = bind-eq-ok _ _ s h in
      let (u, s2, serving, hooks) = bind-eq-ok _ _ s1 rest in
      let (v, s3, destroying, last) = bind-eq-ok _ _ s2 hooks in
      let (parsed, same) = lift-eq-ok _ addr s s1 parsing in
      record {
        addr = addr;
        ended = s2;
        destroyed = s3;
        parsed = parsed;
        served =
            ap (serve (factory_context f) addr) same ∙ map_error-eq-ok server_failure _ s1 serving;
        destroys = map_error-eq-ok hook_failure _ s2 destroying;
        shuts_down = map_error-eq-ok hook_failure _ s3 last;
      }
