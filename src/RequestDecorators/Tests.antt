-- ===== src/RequestDecorators/Tests.antt =====
-- The theorems on extractors at concrete inputs, and unit tests of
-- crates/nestforge-core/src/request.rs and auth.rs.
use nestforge.Base.{
  ◌≡◌, refl, ℕ, Option, none, some, List, [], ◌∷◌, Result, ok, err, Text, codes, leb, if◌then◌else◌,
  trim_start_matches, trim_end_matches, arith,
}
use nestforge.Pipeline.{Request}
use nestforge.HttpFactory.{bearer_token}
use nestforge.RequestDecorators.{
  ValidationErrors, single, errors_text, bearer_token_from_parts, validated_body_from_request,
}
use nestforge.RequestDecorators.Cookies.{
  set_cookie, set_all, insert_pair, insert_pairs, cookies_from_parts, cookie_header,
}
use nestforge.RequestDecorators.CookieHeader.{cookies_from_parts-cookie_header}
use nestforge.RequestDecorators.Tokens.{Agree, bearer_token_from_parts-Agree}
use nestforge.RequestDecorators.Traced.{Validated, validated_body_from_request-Validated}

-- A request with a number as its body.
abbrev request : Request ℕ ℕ
request = record {
  method = codes "POST";
  uri = record { path = codes "/users"; query = none };
  container = none;
  request_id = some (codes "req-1-1");
  auth_identity = none;
  body = 200;
}

abbrev small : ℕ → Result ValidationErrors (Unit {0})
small age = if leb age 150 then ok tt else err (single "age" "too old")

errors_shown : errors_text (single "age" "too old") ≡ "age: too old"
unfolding errors_text single
errors_shown = refl

validated_body_from_request-Validated_example :
    Validated
      (λ errors. 0)
      small
      (λ req. some req.body)
      request
      (validated_body_from_request (λ errors. 0) small (λ req. some req.body) request)
validated_body_from_request-Validated_example =
    validated_body_from_request-Validated (λ errors. 0) small (λ req. some req.body) request

abbrev header : ℕ → Option Text
header n = if leb n 100 then none else some (codes "Bearer  secret ")

token_read : bearer_token_from_parts header request ≡ ok (codes "secret")
unfolding bearer_token_from_parts trim_start_matches trim_end_matches
token_read = refl

bearer_token_from_parts-Agree_example :
    Agree header request
      (bearer_token (header request.body))
      (bearer_token_from_parts header request)
bearer_token_from_parts-Agree_example = bearer_token_from_parts-Agree header request

abbrev cookies : List (Text × Text)
cookies = (codes "id", codes "7") ∷ (codes "mode", codes "a=b") ∷ (codes "id", codes "8") ∷ []

cookie_read :
    (cookies_from_parts (some (codes "id=7; mode= dark ;broken")) (codes "mode")
      ≡ some (codes "dark"))
    × (cookies_from_parts (some (codes "id=7; mode= dark ;broken")) (codes "broken") ≡ none)
unfolding cookies_from_parts insert_pairs insert_pair set_cookie trim_start_matches trim_end_matches
cookie_read = (refl, refl)

cookies_from_parts-cookie_header_example :
    cookies_from_parts (some (cookie_header cookies)) ≡ set_all cookies (λ name. none)
cookies_from_parts-cookie_header_example =
    cookies_from_parts-cookie_header (codes "id", codes "7")
      ((codes "mode", codes "a=b") ∷ (codes "id", codes "8") ∷ []) (ground arith)
