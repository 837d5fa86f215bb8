-- ===== src/Pipeline.antt =====
-- crates/nestforge-core/src/pipeline.rs: guards, interceptors, and the pipeline that a request goes
-- through. What guards, interceptors and handlers change outside is a state `W`. The rest of a
-- request, responses and JSON values are opaque.
pub mod Effects
pub mod Guards
pub mod Chain
mod Tests
use nestforge.Base.{
  ℕ, Bool, true, false, Option, none, some, List, [], ◌∷◌, String, if◌then◌else◌, Result, ok, err,
  any, Text,
}
use nestforge.Container.State.{Container, ◌<>◌}
use nestforge.HttpException.{
  HttpException, AuthIdentity, has_role, unauthorized, forbidden, internal_server_error,
}

-- `roles.join(", ")`.
unfoldable pub join : String → List String → String
join separator [] = ""
join separator (s ∷ []) = s
join separator (s ∷ t ∷ ts) = s <> separator <> join separator (t ∷ ts)

-- `http::Uri`, of which the code reads the path alone.
pub record Uri : Type 0 where
  pub path : Text
  pub query : Option Text

module _ (Value : Type 0) where
  pub record RequestContext : Type 0 where
    pub method : Text
    pub uri : Uri
    pub request_id : Option Text
    pub auth_identity : Option (AuthIdentity Value)

  -- A request, with the extensions that the code inserts: the container of the request's scope, its
  -- id, and the identity that it comes from.
  pub record Request (Body : Type 0) : Type 0 where
    pub method : Text
    pub uri : Uri
    pub container : Option Container
    pub request_id : Option Text
    pub auth_identity : Option (AuthIdentity Value)
    pub body : Body

  -- A guard may change what is outside.
  abbrev pub Guard : Type 0 → Type 0
  Guard W = RequestContext → W → Result (HttpException Value) (Unit {0}) × W

  abbrev pub ExceptionFilter : Type 0
  ExceptionFilter = HttpException Value → RequestContext → HttpException Value

module _ {Value : Type 0} where
  unfoldable pub from_request : {Body : Type 0} → Request Value Body → RequestContext Value
  from_request req = record {
    method = req.method;
    uri = req.uri;
    request_id = req.request_id;
    auth_identity = req.auth_identity;
  }

  unfoldable pub is_authenticated : RequestContext Value → Bool
  is_authenticated ctx = elim ctx.auth_identity [ none ↦ false | some _ ↦ true ]

  unfoldable pub context_has_role : RequestContext Value → String → Bool
  unfolding has_role
  context_has_role ctx role = elim ctx.auth_identity [
    | none ↦ false
    | some identity ↦ has_role identity role
  ]

  unfoldable pub require_authentication : {W : Type 0} → Guard Value W
  unfolding is_authenticated unauthorized
  require_authentication ctx w =
      (if is_authenticated ctx then ok tt else err (unauthorized "Authentication required"), w)

  unfoldable pub role_requirements : {W : Type 0} → List String → Guard Value W
  unfolding is_authenticated context_has_role unauthorized forbidden join
  role_requirements roles ctx w = (
    if is_authenticated ctx
        then (if any (context_has_role ctx) roles
            then ok tt
            else err (forbidden ("Missing required role. Expected one of: " <> join ", " roles)))
        else err (unauthorized "Authentication required"),
    w,
  )

  -- `?` on a guard's verdict.
  abbrev pub passing :
      {W : Type 0}
      → (W → Result (HttpException Value) (Unit {0}) × W)
      → Result (HttpException Value) (Unit {0}) × W
      → Result (HttpException Value) (Unit {0}) × W
  passing rest (err e, w1) = (err e, w1)
  passing rest (ok _, w1) = rest w1

  unfoldable pub run_guards : {W : Type 0} → List (Guard Value W) → Guard Value W
  run_guards [] ctx w = (ok tt, w)
  run_guards (guard ∷ guards) ctx w = passing (run_guards guards ctx) (guard ctx w)

  unfoldable pub apply_exception_filters :
      HttpException Value
      → RequestContext Value
      → List (ExceptionFilter Value)
      → HttpException Value
  apply_exception_filters e ctx [] = e
  apply_exception_filters e ctx (filter ∷ filters) =
      apply_exception_filters (filter e ctx) ctx filters

-- What an interceptor does with a request: it replies; or it calls `next` with a request, awaits the
-- response, and goes on; or it changes what is outside, and goes on by what it has found there.
pub data Plan (Req Res W : Type 0) : Type 0 where
  reply : Res → Plan Req Res W
  calls : Req → (Res → Plan Req Res W) → Plan Req Res W
  acts : (W → W) → (W → Plan Req Res W) → Plan Req Res W

module _ (Value Body Res W : Type 0) where
  abbrev pub Interceptor : Type 0
  Interceptor = RequestContext Value → Request Value Body → Plan (Request Value Body) Res W

module _ (Value Body Res W : Type 0) where
  -- `Next`, the rest of the service, which runs the handler.
  abbrev pub Next : Type 0
  Next = Request Value Body → W → Res × W

  -- `Arc<Mutex<Option<Next>>>`, and what is outside.
  pub record Flow : Type 0 where
    pub poisoned : Bool
    pub next : Option Next
    pub world : W

  abbrev pub NextFn : Type 0
  NextFn = Request Value Body → Flow → Res × Flow

module _ {Value Body Res W : Type 0} (into_response : HttpException Value → Res) where
  -- What `next_to_fn` makes of a `Next`.
  unfoldable pub next_to_fn : NextFn Value Body Res W
  next_to_fn req s =
      if s.poisoned
      then (into_response (internal_server_error "Pipeline lock poisoned"), s)
      else elim s.next [
        | none ↦ (into_response (internal_server_error "Pipeline next called multiple times"), s)
        | some next ↦ let (res, w) = next req s.world in (res, record s { next = none; world = w })
      ]

  unfoldable pub run_plan :
      NextFn Value Body Res W
      → Plan (Request Value Body) Res W
      → Flow Value Body Res W
      → Res × Flow Value Body Res W
  run_plan next (reply res) s = (res, s)
  run_plan next (calls req rest) s = let (res, s') = next req s in run_plan next (rest res) s'
  run_plan next (acts change rest) s =
      run_plan next (rest s.world) (record s { world = change s.world })

  -- `run_interceptor_chain`, over the interceptors from `index` on.
  unfoldable pub run_interceptor_chain :
      List (Interceptor Value Body Res W) → RequestContext Value → NextFn Value Body Res W
  unfolding next_to_fn run_plan
  run_interceptor_chain [] ctx req = next_to_fn req
  run_interceptor_chain (current ∷ interceptors) ctx req =
      run_plan (run_interceptor_chain interceptors ctx) (current ctx req)

  -- What is done with the verdict of the guards.
  unfoldable pub on_guards :
      RequestContext Value
      → Request Value Body
      → Next Value Body Res W
      → List (Interceptor Value Body Res W)
      → List (ExceptionFilter Value)
      → Result (HttpException Value) (Unit {0}) × W
      → Res × W
  unfolding apply_exception_filters run_interceptor_chain
  on_guards ctx req next interceptors filters (err e, w) =
      (into_response (apply_exception_filters e ctx filters), w)
  on_guards ctx req next interceptors filters (ok _, w) =
      let (res, s) =
        run_interceptor_chain interceptors ctx req
          (record { poisoned = false; next = some next; world = w }) in
      (res, s.world)

  unfoldable pub execute_pipeline :
      Request Value Body
      → Next Value Body Res W
      → List (Guard Value W)
      → List (Interceptor Value Body Res W)
      → List (ExceptionFilter Value)
      → W
      → Res × W
  unfolding from_request run_guards on_guards
  execute_pipeline req next guards interceptors filters w =
      let ctx = from_request req in
      on_guards ctx req next interceptors filters (run_guards guards ctx w)
