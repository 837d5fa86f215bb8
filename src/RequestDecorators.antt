-- ===== src/RequestDecorators.antt =====
-- crates/nestforge-core/src/request.rs and validation.rs, and the extractors of
-- crates/nestforge-core/src/auth.rs: what a handler's arguments are made from. The extraction of path
-- parameters, queries and JSON bodies is axum's, a function of the request.
pub mod Cookies
pub mod CookieHeader
pub mod Tokens
pub mod Traced
mod Tests
use nestforge.Base.{
  ℕ, Option, none, some, List, [], ◌∷◌, String, if◌then◌else◌, Result, ok, err, Text, codes,
  strip_prefix, trim,
}
use nestforge.Container.State.{◌<>◌}
use nestforge.HttpException.{
  HttpException, AuthIdentity, with_optional_request_id, bad_request_validation, bad_request,
  unauthorized, internal_server_error,
}
use nestforge.Pipeline.{RequestContext, Request, from_request, join}

pub record ValidationIssue : Type 0 where
  pub field : String
  pub message : String

-- `ValidationErrors`: its list of issues.
abbrev pub ValidationErrors : Type 0
ValidationErrors = List ValidationIssue

-- `ValidationErrors::single`.
unfoldable pub single : String → String → ValidationErrors
single field message = record { field = field; message = message } ∷ []

unfoldable pub issue_texts : ValidationErrors → List String
issue_texts [] = []
issue_texts (issue ∷ issues) = (issue.field <> ": " <> issue.message) ∷ issue_texts issues

-- The `Display` of validation errors.
unfoldable pub errors_text : ValidationErrors → String
unfolding issue_texts join
errors_text errors = elim errors [
  | [] ↦ "validation failed"
  | issue ∷ issues ↦ join ", " (issue_texts (issue ∷ issues))
]

module _ (Value : Type 0) where
  -- `Pipe::transform`.
  abbrev pub Pipe : Type 0 → Type 0 → Type 0
  Pipe Input Output = Input → RequestContext Value → Result (HttpException Value) Output

module _ {Value Body : Type 0} where
  -- The error of an extractor, with the id of the request.
  unfoldable pub traced : Request Value Body → HttpException Value → HttpException Value
  unfolding with_optional_request_id
  traced req e = with_optional_request_id req.request_id e

  -- `RequestId::from_request_parts`.
  unfoldable pub request_id_from_parts : Request Value Body → Result (HttpException Value) Text
  unfolding internal_server_error
  request_id_from_parts req = elim req.request_id [
    | none ↦ err (internal_server_error "Request id not available")
    | some id ↦ ok id
  ]

  -- `AuthUser::from_request_parts`.
  unfoldable pub auth_user_from_parts :
      Request Value Body → Result (HttpException Value) (AuthIdentity Value)
  unfolding traced unauthorized
  auth_user_from_parts req = elim req.auth_identity [
    | none ↦ err (traced req (unauthorized "Authentication required"))
    | some identity ↦ ok identity
  ]

  -- `BearerToken::from_request_parts`, of the `Authorization` header, where it is text.
  unfoldable pub bearer_token_from_parts :
      (Body → Option Text) → Request Value Body → Result (HttpException Value) Text
  unfolding traced unauthorized strip_prefix
  bearer_token_from_parts authorization req = elim (authorization req.body) [
    | none ↦ err (traced req (unauthorized "Missing Authorization header"))
    | some header ↦ elim (strip_prefix (codes "Bearer ") header) [
      | none ↦ err (traced req (unauthorized "Invalid bearer token"))
      | some rest ↦ elim (trim rest) [
        | [] ↦ err (traced req (unauthorized "Invalid bearer token"))
        | c ∷ cs ↦ ok (c ∷ cs)
      ]
    ]
  ]

module _ {Value Body T : Type 0} where
  -- `Param::from_request_parts`.
  unfoldable pub param_from_parts :
      (Request Value Body → Option T) → Request Value Body → Result (HttpException Value) T
  unfolding traced bad_request
  param_from_parts path req = elim (path req) [
    | none ↦ err (traced req (bad_request "Invalid route parameter"))
    | some value ↦ ok value
  ]

  -- `Query::from_request_parts`.
  unfoldable pub query_from_parts :
      (Request Value Body → Option T) → Request Value Body → Result (HttpException Value) T
  unfolding traced bad_request
  query_from_parts query req = elim (query req) [
    | none ↦ err (traced req (bad_request "Invalid query parameters"))
    | some value ↦ ok value
  ]

  -- `Body::from_request`.
  unfoldable pub body_from_request :
      (Request Value Body → Option T) → Request Value Body → Result (HttpException Value) T
  unfolding traced bad_request
  body_from_request json req = elim (json req) [
    | none ↦ err (traced req (bad_request "Invalid JSON body"))
    | some value ↦ ok value
  ]

  -- `ValidatedBody::from_request`; `to_value` is that of serde_json, where it fails `null`.
  unfoldable pub validated_body_from_request :
      (ValidationErrors → Value)
      → (T → Result ValidationErrors (Unit {0}))
      → (Request Value Body → Option T)
      → Request Value Body
      → Result (HttpException Value) T
  unfolding body_from_request traced bad_request_validation
  validated_body_from_request to_value validate json req = elim (body_from_request json req) [
    | err e ↦ err e
    | ok value ↦ elim (validate value) [
      | err errors ↦ err (traced req (bad_request_validation (to_value errors)))
      | ok _ ↦ ok value
    ]
  ]

module _ {Value Body T Output : Type 0} where
  -- A piped extractor: the value that is extracted goes through the pipe, with the request's context.
  unfoldable pub piped_value :
      Result (HttpException Value) T
      → Pipe Value T Output
      → Request Value Body
      → Result (HttpException Value) Output
  unfolding from_request
  piped_value (err e) pipe req = err e
  piped_value (ok value) pipe req = pipe value (from_request req)

  unfoldable pub piped_param_from_parts :
      (Request Value Body → Option T)
      → Pipe Value T Output
      → Request Value Body
      → Result (HttpException Value) Output
  unfolding param_from_parts piped_value
  piped_param_from_parts path pipe req = piped_value (param_from_parts path req) pipe req

  unfoldable pub piped_query_from_parts :
      (Request Value Body → Option T)
      → Pipe Value T Output
      → Request Value Body
      → Result (HttpException Value) Output
  unfolding query_from_parts piped_value
  piped_query_from_parts query pipe req = piped_value (query_from_parts query req) pipe req

  unfoldable pub piped_body_from_request :
      (Request Value Body → Option T)
      → Pipe Value T Output
      → Request Value Body
      → Result (HttpException Value) Output
  unfolding body_from_request piped_value
  piped_body_from_request json pipe req = piped_value (body_from_request json req) pipe req

-- `Decorated::from_request_parts`: the decorator's own function of the context and the request.
unfoldable pub decorated_from_parts :
    {Value Body Output : Type 0}
    → (RequestContext Value → Request Value Body → Result (HttpException Value) Output)
    → Request Value Body
    → Result (HttpException Value) Output
unfolding from_request
decorated_from_parts extract req = extract (from_request req) req
