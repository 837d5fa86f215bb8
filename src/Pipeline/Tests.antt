-- ===== src/Pipeline/Tests.antt =====
-- The theorems on the pipeline at concrete inputs, and unit tests of
-- crates/nestforge-core/src/pipeline.rs. A response is a status and a number.
use nestforge.Base.{
  ℕ, ◌+◌, ◌*◌, ◌%◌, ◌≡◌, refl, ◌∙◌, ◌⊎◌, none, some, ok, List, [], ◌∷◌, map, codes, arith,
}
use nestforge.HttpException.{HttpException, AuthIdentity, unauthorized}
use nestforge.Pipeline.{
  Request, ExceptionFilter, Interceptor, Next, Guard, reply, calls, acts, from_request,
  is_authenticated, require_authentication, run_guards, apply_exception_filters, on_guards,
  execute_pipeline,
}
use nestforge.Base.Exec.Keeps.{IsPreorder}
use nestforge.Pipeline.Guards.{InTurn, FirstRejection, intercepted, execute_pipeline_guarded}
use nestforge.Pipeline.Chain.{Wrapper, around, execute_pipeline-around, execute_pipeline_runs_once}

abbrev Response : Type 0
Response = ℕ × ℕ

abbrev into_response : HttpException ℕ → Response
into_response e = (e.status, 0)

abbrev support : AuthIdentity ℕ
support = record { subject = "user-1"; roles = "support" ∷ []; claims = λ _. none }

abbrev anonymous : Request ℕ ℕ
anonymous = record {
  method = codes "GET";
  uri = record { path = codes "/"; query = none };
  container = none;
  request_id = none;
  auth_identity = none;
  body = 5;
}

abbrev known : Request ℕ ℕ
known = record anonymous { auth_identity = some support }

abbrev handler : Next ℕ ℕ Response ℕ
handler req w = ((200, req.body), w + 1)

abbrev teapot : ExceptionFilter ℕ
teapot e ctx = record e { status = 418 }

-- A guard that counts the requests outside, and lets them pass.
abbrev counting : Guard ℕ ℕ
counting ctx w = (ok tt, w + 10)

-- An interceptor that counts the request, and calls `next` twice.
abbrev twice : Interceptor ℕ ℕ Response ℕ
twice ctx req = acts (λ w. w + 100) (λ w. calls req (λ first. calls req (λ second. reply second)))

-- What counts up alone, modulo ten.
abbrev SameDigit : ℕ → ℕ → Type 0
SameDigit v w = v % 10 ≡ w % 10

abbrev same_digit : IsPreorder SameDigit
same_digit = record { same = λ w. refl; then_by = λ u v w e f. e ∙ f }

abbrev adding : ℕ → Wrapper ℕ ℕ Response ℕ
adding n = record {
  before = λ ctx req w. (record req { body = req.body + n }, w * 10 + n);
  after = λ ctx res w. ((res.0, res.1 + 100), w * 10 + n);
}

abbrev guards : List (Guard ℕ ℕ)
guards = counting ∷ require_authentication ∷ counting ∷ []

abbrev run : Request ℕ ℕ → Response × ℕ
run req = execute_pipeline into_response req handler guards (twice ∷ []) (teapot ∷ []) 0

-- The guard behind the one that rejects the request does not count it.
rejected : run anonymous ≡ ((418, 0), 10)
unfolding execute_pipeline on_guards run_guards require_authentication is_authenticated from_request
    apply_exception_filters unauthorized
rejected = refl

execute_pipeline_guarded_example :
    ((w1 : ℕ) × InTurn (from_request anonymous) guards 0 w1
      × (run anonymous ≡ intercepted into_response anonymous handler (twice ∷ []) w1))
    ⊎ ((r : FirstRejection (from_request anonymous) guards 0) × (run anonymous ≡ (
      into_response (apply_exception_filters r.exception (from_request anonymous) (teapot ∷ [])),
      r.left,
    )))
execute_pipeline_guarded_example =
    execute_pipeline_guarded into_response anonymous handler guards (twice ∷ []) (teapot ∷ []) 0

execute_pipeline-around_example :
    execute_pipeline into_response known handler guards (map around (adding 1 ∷ adding 2 ∷ [])) [] 0
    ≡ ((200, 208), 201321)
unfolding run_guards require_authentication is_authenticated from_request
execute_pipeline-around_example =
    execute_pipeline-around into_response known handler guards (adding 1 ∷ adding 2 ∷ []) [] 0 20
      refl

execute_pipeline_runs_once_example :
    SameDigit 0 (run known).1
    ⊎ ((q : Request ℕ ℕ) × (u : ℕ) × SameDigit 0 u × SameDigit (handler q u).1 (run known).1)
unfolding require_authentication
execute_pipeline_runs_once_example =
    execute_pipeline_runs_once into_response SameDigit same_digit known handler guards (twice ∷ [])
      (teapot ∷ []) 0 ((λ ctx w. omega arith), ((λ ctx w. refl), ((λ ctx w. omega arith), tt)))
      ((λ ctx req. ((λ w. omega arith), λ w first second. tt)), tt)
