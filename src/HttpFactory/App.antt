-- ===== src/HttpFactory/App.antt =====
-- crates/nestforge-http/src/factory.rs: `NestForgeFactory`, its options, its router, and its life.
use nestforge.Base.{
  false, Option, none, some, List, [], ◌∷◌, ◌++◌, if◌then◌else◌, Text, slash, is_slash, trim,
  trim_matches, trim_start_matches, trim_end_matches,
}
use nestforge.Container.State.{Container}
use nestforge.HttpException.{HttpException, internal_server_error}
use nestforge.Pipeline.{
  Request, Guard, ExceptionFilter, Interceptor, Next, NextFn, execute_pipeline,
}
use nestforge.Middleware.{
  NestMiddleware, MiddlewareBinding, MiddlewareConsumer, apply, for_routes, run_middleware_chain,
}
use nestforge.ModuleGraph.Runtime.{InitializedModule}
use nestforge.HttpFactory.{World, Http, AuthResolver, request_context_middleware}

-- Routers of axum. A layer is given the request and the service that it stands around.
pub record Axum (Req Res W : Type 0) : Type 1 where
  pub Router : Type 0
  -- `Router::new`
  pub empty : Router
  pub merge : Router → Router → Router
  -- `Router::new().nest(path, router)`
  pub nest : Text → Router → Router
  pub layer : (Req → (Req → W → Res × W) → W → Res × W) → Router → Router
  pub route_layer : (Req → (Req → W → Res × W) → W → Res × W) → Router → Router
  pub call : Router → Req → W → Res × W

pub record NestForgeFactory (Value Body Res V E O Router : Type 0) : Type 0 where
  pub container : Container
  pub runtime : InitializedModule V E Router
  pub controllers : List Router
  pub extra_routers : List Router
  pub global_prefix : Option Text
  pub version : Option Text
  pub auth_resolver : Option (AuthResolver Value V E O)
  pub global_guards : List (Guard Value (World V E O))
  pub global_interceptors : List (Interceptor Value Body Res (World V E O))
  pub global_exception_filters : List (ExceptionFilter Value)
  pub middleware_bindings : List (MiddlewareBinding Value Body Res (World V E O))

-- What the options are trimmed to; an empty one is ignored.
unfoldable pub trimmed_option : Text → Option Text
unfolding trim_start_matches trim_end_matches
trimmed_option raw = elim (trim_matches is_slash (trim raw)) [ [] ↦ none | c ∷ cs ↦ some (c ∷ cs) ]

module _ {Value Body Res V E O Router : Type 0} where
  unfoldable pub with_global_prefix :
      Text
      → NestForgeFactory Value Body Res V E O Router
      → NestForgeFactory Value Body Res V E O Router
  unfolding trimmed_option
  with_global_prefix prefix f = elim (trimmed_option prefix) [
    | none ↦ f
    | some p ↦ record f { global_prefix = some p }
  ]

  unfoldable pub with_version :
      Text
      → NestForgeFactory Value Body Res V E O Router
      → NestForgeFactory Value Body Res V E O Router
  unfolding trimmed_option
  with_version version f = elim (trimmed_option version) [
    | none ↦ f
    | some v ↦ record f { version = some v }
  ]

  unfoldable pub use_guard :
      Guard Value (World V E O)
      → NestForgeFactory Value Body Res V E O Router
      → NestForgeFactory Value Body Res V E O Router
  use_guard guard f = record f { global_guards = f.global_guards ++ guard ∷ [] }

  unfoldable pub use_interceptor :
      Interceptor Value Body Res (World V E O)
      → NestForgeFactory Value Body Res V E O Router
      → NestForgeFactory Value Body Res V E O Router
  use_interceptor interceptor f = record f {
    global_interceptors = f.global_interceptors ++ interceptor ∷ [];
  }

  unfoldable pub use_exception_filter :
      ExceptionFilter Value
      → NestForgeFactory Value Body Res V E O Router
      → NestForgeFactory Value Body Res V E O Router
  use_exception_filter filter f = record f {
    global_exception_filters = f.global_exception_filters ++ filter ∷ [];
  }

  unfoldable pub configure_middleware :
      (MiddlewareConsumer Value Body Res (World V E O)
        → MiddlewareConsumer Value Body Res (World V E O))
      → NestForgeFactory Value Body Res V E O Router
      → NestForgeFactory Value Body Res V E O Router
  configure_middleware configure f = record f {
    middleware_bindings = f.middleware_bindings ++ configure [];
  }

  unfoldable pub use_middleware :
      NestMiddleware Value Body Res (World V E O)
      → NestForgeFactory Value Body Res V E O Router
      → NestForgeFactory Value Body Res V E O Router
  unfolding for_routes
  use_middleware middleware f = record f {
    middleware_bindings = f.middleware_bindings ++ for_routes [] (apply middleware []);
  }

  unfoldable pub with_auth_resolver :
      AuthResolver Value V E O
      → NestForgeFactory Value Body Res V E O Router
      → NestForgeFactory Value Body Res V E O Router
  with_auth_resolver resolver f = record f { auth_resolver = some resolver }

  unfoldable pub merge_router :
      Router
      → NestForgeFactory Value Body Res V E O Router
      → NestForgeFactory Value Body Res V E O Router
  merge_router router f = record f { extra_routers = f.extra_routers ++ router ∷ [] }

module _ {Value Body Res W : Type 0} (into_response : HttpException Value → Res) where
  -- `next_to_fn`: the rest of the service, for one call.
  unfoldable pub next_to_fn : NextFn Value Body Res W
  next_to_fn req s =
      if s.poisoned
      then (into_response (internal_server_error "Middleware lock poisoned"), s)
      else elim s.next [
        | none ↦ (into_response (internal_server_error "Middleware next called multiple times"), s)
        | some next ↦ let (res, w) = next req s.world in (res, record s { next = none; world = w })
      ]

  -- The layer of the middleware, which an application without any skips.
  unfoldable pub middleware_layer :
      List (MiddlewareBinding Value Body Res W)
      → Request Value Body
      → Next Value Body Res W
      → W
      → Res × W
  unfolding next_to_fn run_middleware_chain
  middleware_layer middlewares req next w = elim middlewares [
    | [] ↦ next req w
    | b ∷ bs ↦
        let (res, s) =
          run_middleware_chain (b ∷ bs) next_to_fn req
            (record { poisoned = false; next = some next; world = w }) in
        (res, s.world)
  ]

module _ {Req Res W : Type 0} (axum : Axum Req Res W) where
  open axum use {Router, merge, nest}

  unfoldable pub merge_all : Router → List Router → Router
  merge_all app [] = app
  merge_all app (r ∷ rs) = merge_all (merge app r) rs

  unfoldable pub nested_at : Option Text → Router → Router
  nested_at none app = app
  nested_at (some segment) app = nest (slash ∷ segment) app

module _ {Value Body Res V E O : Type 0} (axum : Axum (Request Value Body) Res (World V E O)) where
  -- The routes of the controllers and of the merged routers, under the prefix and the version.
  unfoldable pub routes : NestForgeFactory Value Body Res V E O axum.Router → axum.Router
  unfolding merge_all nested_at
  routes f = nested_at axum f.global_prefix (
      nested_at axum f.version
        (merge_all axum (merge_all axum axum.empty f.controllers) f.extra_routers))

module _ {Value Body Res V E O : Type 0} (http : Http Value Body Res V O)
    (axum : Axum (Request Value Body) Res (World V E O)) where
  open axum use {Router, empty, merge, layer, route_layer}

  -- The routes in the pipeline of the global guards, interceptors and filters.
  unfoldable pub piped : NestForgeFactory Value Body Res V E O Router → Router
  piped f =
      route_layer
        (λ req next.
          execute_pipeline http.into_response req next f.global_guards f.global_interceptors
            f.global_exception_filters)
        (routes axum f)

  -- The pipeline in the middleware.
  unfoldable pub layered : NestForgeFactory Value Body Res V E O Router → Router
  layered f = layer (middleware_layer http.into_response f.middleware_bindings) (piped f)

  unfoldable pub into_router : NestForgeFactory Value Body Res V E O Router → Router
  into_router f =
      layer
        (λ req next.
          request_context_middleware http req next f.container f.auth_resolver
            f.global_exception_filters)
        (merge empty (layered f))
