-- ===== src/Middleware.antt =====
-- crates/nestforge-http/src/middleware.rs: the routes that middleware is bound to, the consumer that
-- collects the bindings, and the chain that a request goes through. Of a request the code here
-- reads the method and the path.
pub mod Matching
pub mod Chain
mod Tests
use nestforge.Base.{
  ℕ, Bool, true, false, not, ◌||◌, ◌&&◌, Option, none, some, List, [], ◌∷◌, ◌++◌, map,
  if◌then◌else◌, any, Text, slash, is_slash, text_eq, starts_with, trim, trim_end_matches,
}
use nestforge.Pipeline.{Request, Flow, Plan, reply, calls, acts, NextFn}

unfoldable pub normalize_path : Text → Text
unfolding text_eq starts_with trim_end_matches
normalize_path path =
    let trimmed = trim path in
    if text_eq trimmed [] || text_eq trimmed (slash ∷ [])
    then slash ∷ []
    else (if starts_with (slash ∷ []) trimmed
        then trim_end_matches is_slash trimmed
        else slash ∷ trim_end_matches is_slash trimmed)

unfoldable pub path_matches_prefix : Text → Text → Bool
unfolding text_eq starts_with
path_matches_prefix path prefix =
    if text_eq prefix (slash ∷ [])
    then true
    else text_eq path prefix || starts_with (prefix ++ slash ∷ []) path

pub record MiddlewareRoute : Type 0 where
  pub path : Text
  pub methods : Option (List Text)

-- `MiddlewareRoute::path`, and the conversion from a text.
unfoldable pub any_method : Text → MiddlewareRoute
unfolding normalize_path
any_method path = record { path = normalize_path path; methods = none }

-- `MiddlewareRoute::methods`.
unfoldable pub some_methods : Text → List Text → MiddlewareRoute
unfolding normalize_path
some_methods path methods = record { path = normalize_path path; methods = some methods }

unfoldable pub route_matches : MiddlewareRoute → Text → Text → Bool
unfolding path_matches_prefix text_eq
route_matches route method path =
    if path_matches_prefix path route.path
    then elim route.methods [
      | some methods ↦ any (λ candidate. text_eq candidate method) methods
      | none ↦ true
    ]
    else false

pub record RouteMatcher : Type 0 where
  pub include : List MiddlewareRoute
  pub exclude : List MiddlewareRoute

unfoldable pub matcher_matches : RouteMatcher → Text → Text → Bool
unfolding route_matches
matcher_matches matcher method path =
    if any (λ route. route_matches route method path) matcher.exclude
    then false
    else elim matcher.include [
      | [] ↦ true
      | r ∷ rs ↦ any (λ route. route_matches route method path) (r ∷ rs)
    ]

module _ (Value Body Res W : Type 0) where
  -- `NestMiddleware::handle`: it replies, calls `next` and awaits the response, or changes what is
  -- outside, and goes on.
  abbrev pub NestMiddleware : Type 0
  NestMiddleware = Request Value Body → Plan (Request Value Body) Res W

  pub record MiddlewareBinding : Type 0 where
    pub middleware : NestMiddleware
    pub matcher : RouteMatcher

  -- `MiddlewareConsumer`: its bindings.
  abbrev pub MiddlewareConsumer : Type 0
  MiddlewareConsumer = List MiddlewareBinding

  pub record MiddlewareBindingBuilder : Type 0 where
    pub consumer : MiddlewareConsumer
    pub middleware : NestMiddleware
    pub exclude : List MiddlewareRoute

module _ {Value Body Res W : Type 0} where
  -- `apply_instance`.
  abbrev pub apply :
      NestMiddleware Value Body Res W
      → MiddlewareConsumer Value Body Res W
      → MiddlewareBindingBuilder Value Body Res W
  apply middleware consumer = record { consumer = consumer; middleware = middleware; exclude = [] }

  -- `exclude`: the routes given replace those of an earlier call.
  unfoldable pub excluding :
      List MiddlewareRoute
      → MiddlewareBindingBuilder Value Body Res W
      → MiddlewareBindingBuilder Value Body Res W
  excluding routes builder = record builder { exclude = routes }

  -- `register`, which ends `for_routes` and, with no routes, `for_all_routes`.
  unfoldable pub for_routes :
      List MiddlewareRoute
      → MiddlewareBindingBuilder Value Body Res W
      → MiddlewareConsumer Value Body Res W
  for_routes include builder =
      builder.consumer
      ++ record {
        middleware = builder.middleware;
        matcher = record { include = include; exclude = builder.exclude };
      }
        ∷ []

  abbrev pub binding_matches : MiddlewareBinding Value Body Res W → Request Value Body → Bool
  binding_matches binding req = matcher_matches binding.matcher req.method req.uri.path

module _ {Value Body Res W : Type 0} where
  unfoldable pub run_handle :
      NextFn Value Body Res W
      → Plan (Request Value Body) Res W
      → Flow Value Body Res W
      → Res × Flow Value Body Res W
  run_handle next (reply res) s = (res, s)
  run_handle next (calls req rest) s = let (res, s') = next req s in run_handle next (rest res) s'
  run_handle next (acts change rest) s =
      run_handle next (rest s.world) (record s { world = change s.world })

  -- `run_middleware_chain`, over the bindings from `index` on.
  unfoldable pub run_middleware_chain :
      List (MiddlewareBinding Value Body Res W) → NextFn Value Body Res W → NextFn Value Body Res W
  unfolding matcher_matches run_handle
  run_middleware_chain [] terminal req = terminal req
  run_middleware_chain (binding ∷ bindings) terminal req =
      let rest = run_middleware_chain bindings terminal in
      if binding_matches binding req then run_handle rest (binding.middleware req) else rest req
