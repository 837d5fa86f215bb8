-- ===== src/HttpException.antt =====
-- crates/nestforge-core/src/error.rs: `HttpException` and the body of its response; and
-- `AuthIdentity` of crates/nestforge-core/src/auth.rs. JSON values are opaque.
use nestforge.Base.{
  ℕ, Bool, Option, none, some, List, String, if◌then◌else◌, Result, ok, err, any, str_eq, Text,
}
use nestforge.Container.State.{◌<>◌}

pub record HttpException (Value : Type 0) : Type 0 where
  pub status : ℕ
  pub code : String
  pub message : String
  pub details : Option Value
  pub request_id : Option Text

pub record ErrorBody (Value : Type 0) : Type 0 where
  pub status_code : ℕ
  pub error : String
  pub code : String
  pub message : String
  pub details : Option Value
  pub request_id : Option Text

pub record AuthIdentity (Value : Type 0) : Type 0 where
  pub subject : String
  pub roles : List String
  pub claims : String → Option Value

module _ {Value : Type 0} where
  -- `HttpException::new`.
  unfoldable pub exception : ℕ → String → String → HttpException Value
  exception status code message = record {
    status = status;
    code = code;
    message = message;
    details = none;
    request_id = none;
  }

  unfoldable pub with_details : ℕ → String → String → Value → HttpException Value
  with_details status code message details = record {
    status = status;
    code = code;
    message = message;
    details = some details;
    request_id = none;
  }

  unfoldable pub with_optional_request_id : Option Text → HttpException Value → HttpException Value
  with_optional_request_id request_id e = record e { request_id = request_id }

  unfoldable pub bad_request : String → HttpException Value
  unfolding exception
  bad_request message = exception 400 "bad_request" message

  -- With the errors as a JSON value.
  unfoldable pub bad_request_validation : Value → HttpException Value
  unfolding with_details
  bad_request_validation details = with_details 400 "validation_failed" "Validation failed" details

  unfoldable pub unauthorized : String → HttpException Value
  unfolding exception
  unauthorized message = exception 401 "unauthorized" message

  unfoldable pub forbidden : String → HttpException Value
  unfolding exception
  forbidden message = exception 403 "forbidden" message

  unfoldable pub not_found : String → HttpException Value
  unfolding exception
  not_found message = exception 404 "not_found" message

  unfoldable pub internal_server_error : String → HttpException Value
  unfolding exception
  internal_server_error message = exception 500 "internal_server_error" message

  -- The status and the body that `into_response` sends; `canonical_reason` is that of the `http`
  -- crate.
  unfoldable pub error_response : (ℕ → Option String) → HttpException Value → ℕ × ErrorBody Value
  error_response canonical_reason e = (
    e.status,
    record {
      status_code = e.status;
      error = elim (canonical_reason e.status) [ none ↦ "Error" | some reason ↦ reason ];
      code = e.code;
      message = e.message;
      details = e.details;
      request_id = e.request_id;
    },
  )

  unfoldable pub has_role : AuthIdentity Value → String → Bool
  has_role identity role = any (λ candidate. str_eq candidate role) identity.roles

  unfoldable pub require_role :
      AuthIdentity Value → String → Result (HttpException Value) (Unit {0})
  unfolding has_role forbidden
  require_role identity role =
      if has_role identity role
      then ok tt
      else err (forbidden ("Missing required role `" <> role <> "`"))
