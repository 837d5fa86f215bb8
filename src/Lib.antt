-- ===== src/Lib.antt =====
-- NestForge: models of the framework's own logic, and the theorems that make it correct.
--
-- NestForge is a web framework on axum. An application is a tree of modules; each registers providers
-- in a dependency injection container, exports some of their types, and brings controllers and
-- lifecycle hooks. At the start the framework walks over the modules' imports, lets each register
-- itself behind what it imports, and collects controllers and hooks. A request then goes through the
-- middleware that is bound to its route, and in the route itself through guards, interceptors and the
-- handler, in a scope of the container of its own. Services keep their entities in an in-memory store,
-- an interceptor caches responses, and a registry runs scheduled tasks. A registry of handlers serves
-- messages and events of other transports, by a client in the process, over gRPC and over WebSockets. The
-- routes' documentation becomes an OpenAPI document with its pages, and a command line tool generates
-- names and runs the migrations of the database.
--
-- The files and the code that they model, by paths from the repository's root:
--
--   Base, Base/...      lists, sets of names, results, locks and texts that the models share; Base/Exec
--                       is a monad of operations on a state that may fail or run out of fuel, with
--                       rules for what an operation keeps (Keeps), how it ends (Total), and what its
--                       outcome says of its parts (Invert).
--   Container/...       crates/nestforge-core/src/container.rs. State: `Container` as a handle of a
--                       shared state (the maps, the names, the override map of every scope), with
--                       poisoned locks; Register: `register`, `replace`, `override_value` and the
--                       factories; Resolve: `resolve`, `resolve_in_module` and their four steps.
--   Provider/...        crates/nestforge-core/src/provider.rs: the four providers and their `register`.
--   ModuleGraph/...     crates/nestforge-core/src/module.rs. Walk: the depth-first walk that
--                       `visit_module`, `visit_module_docs` and `visit_module_graph` share; Runtime:
--                       `initialize_module_runtime` and `run_lifecycle_hooks`; Report:
--                       `collect_module_graph`; Docs: `collect_module_route_docs`; Builder:
--                       `DynamicModuleBuilder`.
--   HttpException       crates/nestforge-core/src/error.rs, and `AuthIdentity` of
--                       crates/nestforge-core/src/auth.rs.
--   RequestDecorators/... crates/nestforge-core/src/request.rs and validation.rs beside it: the
--                       extractors of a handler's arguments, pipes, validation (Traced), cookies
--                       (Cookies), and the two readers of a bearer token (Tokens).
--   HttpFactory/...     crates/nestforge-http/src/factory.rs. The root: `request_context_middleware` with
--                       the ids and the scope of a request; App: the options and `into_router`, layer
--                       by layer; Life: `create` and `listen`. It uses the container, the graph's
--                       runtime, the pipeline and the middleware.
--   Microservices/...   crates/nestforge-microservices/src/lib.rs: envelopes, contexts, the registry with
--                       its builder and dispatch; Client: the client in the process.
--   WebSockets/...      crates/nestforge-websockets/src/lib.rs: the endpoint's path, contexts, and frames
--                       that the registry of the microservices handles.
--   Grpc/...            crates/nestforge-grpc/src/lib.rs: contexts and calls that this registry handles;
--                       Life: the factory and its server.
--   Testing/...         crates/nestforge-testing/src/lib.rs: `TestFactory::build` with its overrides, and
--                       what a `TestingModule` gives.
--   Documentation/...   crates/nestforge-core/src/documentation.rs: `RouteDocumentation` and its options.
--   OpenApi/...         crates/nestforge-openapi/src/lib.rs: the document made of routes (Document), the
--                       configured pages, the relative paths in them (Relative), and the
--                       browser that follows them (Browser).
--   Migrations/...      crates/nestforge-cli/src/main.rs: `db_init`, `db_generate`, `db_migrate` and
--                       `db_status` over the files, the journal and the database (Commands).
--   CommandLine/...     the same file: the conversions of names, and the options of the generators.
--   Pipeline/...        crates/nestforge-core/src/pipeline.rs: guards, `run_interceptor_chain`,
--                       `next_to_fn`, `execute_pipeline`.
--   RouteBuilder/...    crates/nestforge-core/src/route_builder.rs: `full_path`.
--   Middleware/...      crates/nestforge-http/src/middleware.rs: `MiddlewareRoute`, `RouteMatcher`, the
--                       consumer and `run_middleware_chain`.
--   Store/...           crates/nestforge-core/src/store.rs: `InMemoryStore`.
--   ResourceService/... crates/nestforge-core/src/resource_service.rs: `create_from`, `update_from` and
--                       `replace_from` over the store.
--   Cache/...           crates/nestforge-cache/src/lib.rs: `CacheInterceptor::around`.
--   Schedule/...        crates/nestforge-schedule/src/lib.rs: `ScheduleRegistry`.
--
-- A Rust type is an identity and a name; a value of any type is tagged with the identity that it was
-- made at. Closures are data: a factory is a tree of what it does with the container that it gets,
-- which may be any of its operations, an interceptor or a middleware a tree of its calls of `next` and
-- of what it changes outside. A guard may change what is outside too; an exception filter is a
-- function. Each runs one step at a time, and one operation at a time runs on a shared state;
-- interleavings of threads are not modelled, poisoned locks are. `axum::serve` is a parameter of
-- `listen`; it is documented never to end, and no theorem is about the hooks behind it. The code of
-- libraries is a parameter: serde_json with its laws on the field `id`, the serializers of payloads,
-- the cache store with `get` after `set`, UTF-8 and header values, axum's routers with the equations
-- of layers and merging, the clock and the server of an application, SHA-256, connections and
-- transactions, the letters' cases of Unicode, and tokio as a list of what was spawned. A text is the
-- list of its code points.
--
-- Two recursions have no bound in the code and fuel here. `resolve` spends one unit for each factory
-- that runs inside another, which is enough where the factories depend on one another in no circle and
-- register no factories as they run;
-- the walk spends one for each open import, and the number of module names and one is always enough,
-- cycles included. A `u64` id of the store and the `u64` counter of the request ids wrap, the first as
-- in a build without overflow checks. The decimals of a request's id are made with fuel for 39 digits,
-- as many as the clock's `u128` can have.
--
-- Not modelled: logging; axum's routing and extraction; async registration of modules; response
-- envelopes; the configuration from environment variables; the database, its repositories, Redis,
-- MongoDB and GraphQL, which are clients of other services or glue; the upgrade of a socket; the JSON,
-- YAML and HTML texts of the documentation; the macros; what the command line tool scaffolds and
-- shows, and the vendored terminal library.
pub mod Base
pub mod Cache
pub mod CommandLine
pub mod Container
pub mod Documentation
pub mod Grpc
pub mod HttpException
pub mod HttpFactory
pub mod Microservices
pub mod Middleware
pub mod Migrations
pub mod ModuleGraph
pub mod OpenApi
pub mod Pipeline
pub mod Provider
pub mod RequestDecorators
pub mod ResourceService
pub mod RouteBuilder
pub mod Schedule
pub mod Store
pub mod Testing
pub mod WebSockets
