-- ===== src/HttpFactory.antt =====
-- crates/nestforge-http/src/factory.rs: the application. Its options, the context that each request
-- gets, the layers of its router, and its life from `create` to the end of `listen`. Routers,
-- responses and headers are those of axum, as the parameters `Http` and `Axum`; log lines are not
-- modelled.
pub mod App
pub mod Ids
pub mod Life
pub mod Phases
pub mod Serving
pub mod Once
pub mod Layers
mod Tests
pub mod Answers
use nestforge.Base.{
  ℕ, ◌+◌, ◌%◌, ◌^◌, Bool, true, false, Option, none, some, List, [], ◌∷◌, ◌++◌, if◌then◌else◌,
  Result, ok, err, Text, codes, slash, is_slash, trim, trim_matches, strip_prefix, decimal,
}
use nestforge.Container.State.{RustType, Shared, Container, scoped}
use nestforge.Container.Register.{override_value}
use nestforge.HttpException.{
  HttpException, AuthIdentity, with_optional_request_id, internal_server_error,
}
use nestforge.Pipeline.{
  RequestContext, Request, ExceptionFilter, Next, from_request, apply_exception_filters,
}

-- What a request can change: the container with all its scopes, the sequence of the request ids, and
-- what is outside.
pub record World (V E O : Type 0) : Type 0 where
  pub shared : Shared V E
  pub sequence : ℕ
  pub outside : O

-- What the code uses of the `http` crate and of the clock, and the values that it puts into a
-- container, each of its own type.
pub record Http (Value Body Res V O : Type 0) : Type 0 where
  -- the `Authorization` header, where it is text
  pub authorization : Body → Option Text
  pub into_response : HttpException Value → Res
  -- `HeaderValue::from_str`
  pub from_str : Text → Option Text
  -- `headers_mut().insert`
  pub insert_header : Text → Text → Res → Res
  -- milliseconds since the epoch; 0 where the clock stands before it
  pub millis : O → ℕ
  pub request_id_type : RustType
  pub identity_type : RustType
  pub context_type : RustType
  pub request_id_value : Text → V
  pub identity_value : AuthIdentity Value → V
  pub context_value : RequestContext Value → V

abbrev pub request_id_header : Text
request_id_header = codes "x-request-id"

-- `format!("req-{millis}-{sequence}")`.
unfoldable pub request_id_text : ℕ → ℕ → Text
request_id_text millis sequence =
    codes "req-" ++ (decimal millis ++ (codes "-" ++ decimal sequence))

-- `bearer_token`: of the header, what stands behind `Bearer `, trimmed, unless it is empty.
unfoldable pub bearer_token : Option Text → Option Text
unfolding strip_prefix
bearer_token header = elim header [
  | none ↦ none
  | some value ↦ elim (strip_prefix (codes "Bearer ") value) [
    | none ↦ none
    | some rest ↦ elim (trim rest) [ [] ↦ none | c ∷ cs ↦ some (c ∷ cs) ]
  ]
]

module _ (Value V E O : Type 0) where
  abbrev pub AuthResolver : Type 0
  AuthResolver =
      Option Text
      → Container
      → World V E O
      → Result (HttpException Value) (Option (AuthIdentity Value)) × World V E O

module _ {Value Body Res V O : Type 0} (http : Http Value Body Res V O) where
  unfoldable pub attach_request_id_header : Text → Res → Res
  attach_request_id_header request_id response = elim (http.from_str request_id) [
    | none ↦ response
    | some value ↦ http.insert_header request_id_header value response
  ]

module _ {Value Body Res V E O : Type 0} (http : Http Value Body Res V O) where
  open http use {
    authorization, into_response, millis, request_id_type, identity_type, context_type,
    request_id_value, identity_value, context_value,
  }

  -- The sequence is an atomic 64-bit counter.
  unfoldable pub generate_request_id : World V E O → Text × World V E O
  generate_request_id w = (
    request_id_text (millis w.outside) w.sequence,
    record w { sequence = (w.sequence + 1) % 2 ^ 64 },
  )

  -- `let _ = scoped_container.override_value(..)`.
  unfoldable pub override_in : Container → RustType → V → World V E O → World V E O
  override_in scope t value w = record w { shared = (override_value scope t value w.shared).1 }

  -- The start of the middleware: a scope of the container, and an id, which the scope and the
  -- request get.
  unfoldable pub enter_scope :
      Request Value Body
      → Container
      → World V E O
      → Request Value Body × Text × Container × World V E O
  unfolding generate_request_id
  enter_scope req container w =
      let (shared, scope) = scoped container w.shared in
      let (request_id, w1) = generate_request_id (record w { shared = shared }) in
      (
        record req { container = some scope; request_id = some request_id },
        request_id,
        scope,
        override_in scope request_id_type (request_id_value request_id) w1,
      )

  -- The end of the middleware: the scope gets the context, and the rest of the service runs.
  unfoldable pub proceed :
      Request Value Body
      → Text
      → Container
      → Next Value Body Res (World V E O)
      → World V E O
      → Res × World V E O
  proceed req request_id scope next w =
      let (response, w') =
        next req (override_in scope context_type (context_value (from_request req)) w) in
      (attach_request_id_header http request_id response, w')

  -- The answer where the resolver fails.
  unfoldable pub reject :
      Request Value Body
      → Text
      → Container
      → List (ExceptionFilter Value)
      → HttpException Value
      → World V E O
      → Res × World V E O
  reject req request_id scope filters e w =
      let ctx = from_request req in
      (
        attach_request_id_header http request_id (
            into_response
              (apply_exception_filters (with_optional_request_id (some request_id) e) ctx filters)),
        override_in scope context_type (context_value ctx) w,
      )

  -- What is done with the resolver's verdict.
  unfoldable pub on_verdict :
      Request Value Body
      → Text
      → Container
      → Next Value Body Res (World V E O)
      → List (ExceptionFilter Value)
      → Result (HttpException Value) (Option (AuthIdentity Value))
      → World V E O
      → Res × World V E O
  on_verdict req request_id scope next filters (err e) w = reject req request_id scope filters e w
  on_verdict req request_id scope next filters (ok none) w = proceed req request_id scope next w
  on_verdict req request_id scope next filters (ok (some identity)) w =
      proceed (record req { auth_identity = some identity }) request_id scope next
        (override_in scope identity_type (identity_value identity) w)

  unfoldable pub request_context_middleware :
      Request Value Body
      → Next Value Body Res (World V E O)
      → Container
      → Option (AuthResolver Value V E O)
      → List (ExceptionFilter Value)
      → World V E O
      → Res × World V E O
  unfolding enter_scope on_verdict bearer_token
  request_context_middleware req next container auth_resolver exception_filters w =
      let (req1, request_id, scope, w1) = enter_scope req container w in
      elim auth_resolver [
        | none ↦ proceed req1 request_id scope next w1
        | some resolver ↦
            let (verdict, w2) = resolver (bearer_token (authorization req.body)) container w1 in
            on_verdict req1 request_id scope next exception_filters verdict w2
      ]
