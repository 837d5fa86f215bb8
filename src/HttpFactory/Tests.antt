-- ===== src/HttpFactory/Tests.antt =====
-- The theorems on the application at concrete inputs. A response is its header and its status; what
-- is outside is the number of times that a handler has run.
use nestforge.Base.{
  ℕ, ◌+◌, ◌%◌, ◌∙◌, ◌≡◌, refl, ◌⊎◌, inl, inr, Option, none, some, [], ◌∷◌, ok, err, arith, Text,
  codes, decimal, length, trim_start_matches, trim_end_matches, contains, insert, remove,
}
use nestforge.Base.Exec.{pure, throw, asks, modify, map_error, ◌>>=◌}
use nestforge.Container.State.{Container, new, is_type_registered_name}
use nestforge.HttpException.{AuthIdentity, unauthorized}
use nestforge.Pipeline.{Request, Interceptor, Next, reply, calls, acts}
use nestforge.Base.Exec.Keeps.{IsPreorder}
use nestforge.Middleware.{NestMiddleware}
use nestforge.ModuleGraph.ModuleRef.{ModuleRef, LifecycleHook, dynamic}
use nestforge.ModuleGraph.Walk.{visit, explore, visit_all}
use nestforge.ModuleGraph.Runtime.{
  InitializedModule, initialize_module_runtime, visit_module, register_module, check_exports,
  run_lifecycle_hooks,
}
use nestforge.HttpFactory.{
  World, Http, AuthResolver, request_id_text, bearer_token, generate_request_id,
  attach_request_id_header, enter_scope, request_context_middleware,
}
use nestforge.HttpFactory.App.{
  Axum, NestForgeFactory, with_global_prefix, use_interceptor, use_middleware, with_auth_resolver,
  into_router,
}
use nestforge.HttpFactory.Life.{created, boot, create}
use nestforge.HttpFactory.Ids.{Distinct, stop, issue, Issued-Distinct}
use nestforge.HttpFactory.Phases.{Created, create-Created}
use nestforge.HttpFactory.Serving.{
  Seen, Rejected, request_context_middleware-Seen, request_context_middleware-Rejected,
}
use nestforge.HttpFactory.Answers.{request_context_middleware-header}
use nestforge.HttpFactory.Layers.{AxumLaws, OneRun, into_router_runs_once}

abbrev Response : Type 0
Response = Option Text × ℕ

abbrev State : Type 0
State = World ℕ ℕ ℕ

abbrev http : Http ℕ (Option Text) Response ℕ ℕ
http = record {
  authorization = λ body. body;
  into_response = λ e. (none, e.status);
  from_str = λ s. some s;
  insert_header = λ name value response. (some value, response.1);
  millis = λ outside. 1000 + outside;
  request_id_type = record { id = 1; type_name = "RequestId" };
  identity_type = record { id = 2; type_name = "AuthIdentity" };
  context_type = record { id = 3; type_name = "RequestContext" };
  request_id_value = λ id. length id;
  identity_value = λ identity. length identity.roles;
  context_value = λ ctx. length ctx.uri.path;
}

abbrev start : State
start = record { shared = (new {V = ℕ} {E = ℕ} 0).0; sequence = 7; outside = 0 }

abbrev root : Container
root = record { scope = 0 }

abbrev request : Request ℕ (Option Text)
request = record {
  method = codes "GET";
  uri = record { path = codes "/me"; query = none };
  container = none;
  request_id = none;
  auth_identity = none;
  body = some (codes "Bearer token");
}

abbrev handler : Next ℕ (Option Text) Response State
handler req w = ((none, 200), record w { outside = w.outside + 1 })

abbrev someone : AuthIdentity ℕ
someone = record { subject = "demo-user"; roles = "admin" ∷ []; claims = λ claim. none }

-- A request with a token comes from someone; one without is rejected.
abbrev resolver : AuthResolver ℕ ℕ ℕ ℕ
resolver token c w = elim token [
  | none ↦ (err (unauthorized "no token"), w)
  | some t ↦ (ok (some someone), w)
]

-- `bearer_token_is_extracted`.
token_read : bearer_token (some (codes "Bearer  token ")) ≡ some (codes "token")
unfolding bearer_token trim_start_matches trim_end_matches
token_read = refl

no_token :
    (bearer_token (some (codes "Bearer  ")) ≡ none) × (bearer_token (some (codes "Basic t")) ≡ none)
unfolding bearer_token trim_start_matches trim_end_matches
no_token = (refl, refl)

id_text : request_id_text 1000 7 ≡ codes "req-1000-7"
unfolding request_id_text decimal
id_text = refl

request_context_middleware-header_example :
    (request_context_middleware http request handler root (some resolver) [] start).0.0
    ≡ some (generate_request_id http start).0
request_context_middleware-header_example =
    request_context_middleware-header http (λ (r : Response). r.0) (λ v r. refl) (λ s visible. refl)
      request handler root (some resolver) [] start

abbrev entered : State
entered = (enter_scope http request root start).3

request_context_middleware-Seen_example :
    (q : Request ℕ (Option Text)) × (v : State) × Seen http request root start
      (some someone)
      entered
      q
      v
    × (request_context_middleware http request handler root (some resolver) [] start ≡ (
      attach_request_id_header http (generate_request_id http start).0 (handler q v).0,
      (handler q v).1,
    ))
unfolding bearer_token trim_start_matches trim_end_matches
request_context_middleware-Seen_example =
    request_context_middleware-Seen http request root start handler [] (some resolver)
      (some someone) entered refl (cc, cc, cc) refl refl

abbrev anonymous : Request ℕ (Option Text)
anonymous = record request { body = none }

request_context_middleware-Rejected_example :
    Rejected http anonymous root start handler []
      (unauthorized "no token")
      (enter_scope http anonymous root start).3
      (request_context_middleware http anonymous handler root (some resolver) [] start)
unfolding bearer_token
request_context_middleware-Rejected_example =
    request_context_middleware-Rejected http anonymous root start handler [] resolver
      (unauthorized "no token") (enter_scope http anonymous root start).3 refl

Issued-Distinct_example : Distinct (
    (generate_request_id http start).0
    ∷ (generate_request_id http (record start { sequence = 8; outside = 3 })).0
    ∷ [])
unfolding generate_request_id
Issued-Distinct_example =
    Issued-Distinct http {w = start}
      (issue {v = record start { sequence = 8; outside = 3 }} refl
        (issue {v = record start { sequence = 9; outside = 3 }} refl stop))
      (omega arith) (omega arith)

-- Routers: a service, if there are routes.
abbrev Router : Type 0
Router = Option (Next ℕ (Option Text) Response State)

abbrev called : Router → Next ℕ (Option Text) Response State
called none req w = ((none, 404), w)
called (some service) req w = service req w

abbrev merged : Router → Router → Router
merged none s = s
merged (some a) none = some a
merged (some a) (some b) = some b

abbrev around_routes :
    (Request ℕ (Option Text) → Next ℕ (Option Text) Response State → State → Response × State)
    → Router
    → Router
around_routes f none = none
around_routes f (some service) = some (λ req w. f req service w)

abbrev axum : Axum (Request ℕ (Option Text)) Response State
axum = record {
  Router = Router;
  empty = none;
  merge = merged;
  nest = λ path r. r;
  layer = λ f r. some (λ req w. f req (called r) w);
  route_layer = around_routes;
  call = called;
}

route_layer_cases :
    (f : Request ℕ (Option Text) → Next ℕ (Option Text) Response State → State → Response × State)
    (r : Router) (req : Request ℕ (Option Text))
    → ((w : State) → called (around_routes f r) req w ≡ f req (called r) w)
      ⊎ ((w : State) → called (around_routes f r) req w ≡ called r req w)
route_layer_cases f none req = inr (λ w. refl)
route_layer_cases f (some service) req = inl (λ w. refl)

merged_empty :
    (r : Router) (req : Request ℕ (Option Text)) (w : State)
    → called (merged none r) req w ≡ called r req w
merged_empty r req w = refl

abbrev laws : AxumLaws axum
laws = record {
  call_layer = λ f r req w. refl;
  call_route_layer = route_layer_cases;
  call_merge_empty = merged_empty;
}

-- An interceptor and a middleware that change what is outside by ten, and call the rest of the service
-- twice.
abbrev twice_intercepted : Interceptor ℕ (Option Text) Response State
twice_intercepted ctx req =
    acts (λ w. record w { outside = w.outside + 10 })
      (λ w. calls req (λ first. calls req (λ second. reply second)))

abbrev twice_handled : NestMiddleware ℕ (Option Text) Response State
twice_handled req = calls req (λ first.
    acts (λ w. record w { outside = w.outside + 10 }) (λ w. calls req (λ second. reply second)))

-- Changes by tens.
abbrev ByTens : State → State → Type 0
ByTens v w = v.outside % 10 ≡ w.outside % 10

abbrev by_tens : IsPreorder ByTens
by_tens = record { same = λ w. refl; then_by = λ u v w e f. e ∙ f }

abbrev counting : ℕ → LifecycleHook ℕ ℕ
counting n = modify (λ s. record s { outer = s.outer + n })

abbrev one_module : ℕ → ModuleRef ℕ ℕ Router ℕ ℕ
one_module key = record (dynamic "App" (pure tt)) {
  controllers = some handler ∷ [];
  on_module_init = counting 1 ∷ [];
  on_application_bootstrap = counting 10 ∷ [];
  on_module_destroy = counting 100 ∷ [];
  on_application_shutdown = throw "stuck" ∷ [];
}

abbrev runtime : InitializedModule ℕ ℕ Router
runtime = record {
  controllers = some handler ∷ [];
  module_init_hooks = counting 1 ∷ [];
  module_destroy_hooks = counting 100 ∷ [];
  application_bootstrap_hooks = counting 10 ∷ [];
  application_shutdown_hooks = throw "stuck" ∷ [];
}

abbrev application : NestForgeFactory ℕ (Option Text) Response ℕ ℕ ℕ Router
application = created ℕ (Option Text) Response ℕ one_module root runtime

abbrev configured : NestForgeFactory ℕ (Option Text) Response ℕ ℕ ℕ Router
configured = with_auth_resolver resolver (
    use_middleware twice_handled
      (use_interceptor twice_intercepted (with_global_prefix (codes " /api/ ") application)))

into_router_runs_once_example :
    OneRun http axum laws ByTens by_tens configured entered
      (axum.call (into_router http axum configured) request start).1
unfolding bearer_token with_auth_resolver use_middleware use_interceptor with_global_prefix
    trim_start_matches trim_end_matches
into_router_runs_once_example =
    into_router_runs_once http axum laws ByTens by_tens configured request start entered
      (ok (some someone))
      (
        tt,
        ((λ ctx req. ((λ w. omega arith), λ w first second. tt)), tt),
        ((λ req first. ((λ w. omega arith), λ w second. tt)), tt),
      )
      refl

started :
    create ℕ (Option Text) Response ℕ one_module 2 0 0
    ≡ some (ok application, record (new {V = ℕ} {E = ℕ} 0).0 { outer = 11 })
unfolding create boot initialize_module_runtime visit_module visit explore visit_all register_module
    check_exports new is_type_registered_name dynamic pure throw asks modify map_error ◌>>=◌
    contains insert remove run_lifecycle_hooks
started = refl

create-Created_example :
    Created ℕ
      (Option Text)
      Response
      ℕ
      one_module
      2
      0
      0
      (record (new {V = ℕ} {E = ℕ} 0).0 { outer = 11 })
      (ok application)
create-Created_example =
    create-Created ℕ (Option Text) Response ℕ one_module 2 0 0 (ok application)
      (record (new {V = ℕ} {E = ℕ} 0).0 { outer = 11 }) started
