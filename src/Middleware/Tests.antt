-- ===== src/Middleware/Tests.antt =====
-- The theorems on middleware at concrete inputs, and unit tests of
-- crates/nestforge-http/src/middleware.rs.
use nestforge.Base.{
  ℕ, ◌+◌, ◌≡◌, refl, false, none, [], ◌∷◌, Text, slash, text_eq, starts_with, trim_start_matches,
  trim_end_matches,
}
use nestforge.Pipeline.{Request, Flow, NextFn, reply, calls, acts}
use nestforge.Middleware.{
  normalize_path, any_method, some_methods, RouteMatcher, NestMiddleware, MiddlewareConsumer, apply,
  excluding, for_routes, run_middleware_chain,
}
use nestforge.Middleware.Chain.{selected, nested, run_middleware_chain_lem}

-- "/u" and "/u/1".
abbrev users : Text
users = slash ∷ 117 ∷ []

abbrev one_user : Text
one_user = slash ∷ 117 ∷ slash ∷ 49 ∷ []

abbrev get : Text
get = 71 ∷ []

abbrev matcher : RouteMatcher
matcher = record {
  include = any_method users ∷ [];
  exclude = some_methods one_user (get ∷ []) ∷ [];
}

-- `normalize_path_handles_empty_and_trailing_slashes`.
users_normal : normalize_path (117 ∷ slash ∷ []) ≡ users
unfolding normalize_path text_eq starts_with trim_start_matches trim_end_matches
users_normal = refl

-- A middleware that counts what is outside and the response up by some number.
abbrev counting : ℕ → NestMiddleware ℕ ℕ ℕ ℕ
counting n req = acts (λ w. w + n) (λ w. calls req (λ res. reply (res + n)))

abbrev consumer : MiddlewareConsumer ℕ ℕ ℕ ℕ
consumer = for_routes (any_method users ∷ []) (
    excluding (some_methods one_user (get ∷ []) ∷ [])
      (apply (counting 100) (for_routes [] (apply (counting 10) []))))

abbrev terminal : NextFn ℕ ℕ ℕ ℕ
terminal req s = (req.body, record s { world = s.world + 1 })

abbrev idle : Flow ℕ ℕ ℕ ℕ
idle = record { poisoned = false; next = none; world = 0 }

abbrev request : Request ℕ ℕ
request = record {
  method = get;
  uri = record { path = users; query = none };
  container = none;
  request_id = none;
  auth_identity = none;
  body = 7;
}

run_middleware_chain_lem_example :
    run_middleware_chain consumer terminal request idle
    ≡ nested (selected request consumer) terminal request idle
unfolding for_routes excluding
run_middleware_chain_lem_example =
    run_middleware_chain_lem consumer terminal request idle
      ((λ q w. (refl, refl, λ res. tt)), ((λ q w. (refl, refl, λ res. tt)), tt))
