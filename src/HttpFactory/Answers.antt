-- ===== src/HttpFactory/Answers.antt =====
-- The id of a request in the header of its answer.
use nestforge.Base.{
  ◌≡◌, ℕ, ◌≤◌, Option, none, some, List, ok, err, Result, Text, codes, All, All-append, All-weaken,
  decimal, decimal-All, arith,
}
use nestforge.Container.State.{Container}
use nestforge.HttpException.{HttpException, AuthIdentity}
use nestforge.Pipeline.{Request, ExceptionFilter, Next}
use nestforge.HttpFactory.{
  World, Http, AuthResolver, request_id_header, request_id_text, bearer_token, generate_request_id,
  attach_request_id_header, enter_scope, proceed, reject, on_verdict, request_context_middleware,
}

-- Printable ASCII.
abbrev pub IsVisible : ℕ → Type 0
IsVisible c = (32 ≤ c) × (c ≤ 126)

decimal-IsVisible : (n : ℕ) → All IsVisible (decimal n)
decimal-IsVisible n =
    All-weaken (λ c h. (omega (arith, h), omega (arith, h))) (decimal n) (decimal-All n)

request_id_text-IsVisible : (m s : ℕ) → All IsVisible (request_id_text m s)
unfolding request_id_text
request_id_text-IsVisible m s = All-append IsVisible (codes "req-") _ (omega arith) (
    All-append IsVisible (decimal m) _ (decimal-IsVisible m)
      (All-append IsVisible (codes "-") _ (omega arith) (decimal-IsVisible s)))

module _ {Value Body Res V O : Type 0} (http : Http Value Body Res V O) (header : Res → Option Text)
    (inserted : (v : Text) (r : Res) → header (http.insert_header request_id_header v r) ≡ some v)
    (accepted : (s : Text) → All IsVisible s → http.from_str s ≡ some s) where
  attach_request_id_header-header :
      (m s : ℕ) (r : Res)
      → header (attach_request_id_header http (request_id_text m s) r) ≡ some (request_id_text m s)
  unfolding attach_request_id_header
  attach_request_id_header-header m s r =
      rw (accepted (request_id_text m s) (request_id_text-IsVisible m s), attach_request_id_header)
        (inserted _ r)

module _ {Value Body Res V E O : Type 0} (http : Http Value Body Res V O)
    (header : Res → Option Text)
    (inserted : (v : Text) (r : Res) → header (http.insert_header request_id_header v r) ≡ some v)
    (accepted : (s : Text) → All IsVisible s → http.from_str s ≡ some s) where
  -- A visible text is accepted as a header's value, and a header that has been inserted is there: then
  -- every answer, whoever gives it, carries the id of its request, a new one of the counter.
  pub request_context_middleware-header :
      (req : Request Value Body) (next : Next Value Body Res (World V E O)) (container : Container)
      (resolver : Option (AuthResolver Value V E O)) (filters : List (ExceptionFilter Value))
      (w : World V E O)
      → header (request_context_middleware http req next container resolver filters w).0
        ≡ some (generate_request_id http w).0
  unfolding request_context_middleware generate_request_id proceed reject on_verdict
  request_context_middleware-header req next container none filters w =
      attach_request_id_header-header http header inserted accepted _ w.sequence _
  request_context_middleware-header req next container (some resolver) filters w =
      go
        (resolver (bearer_token (http.authorization req.body)) container
          (enter_scope http req container w).3).0
        (resolver (bearer_token (http.authorization req.body)) container
          (enter_scope http req container w).3).1
    where
      go :
          (verdict : Result (HttpException Value) (Option (AuthIdentity Value))) (v : World V E O)
          → header
              (on_verdict http
                (enter_scope http req container w).0
                (enter_scope http req container w).1
                (enter_scope http req container w).2
                next
                filters
                verdict
                v).0
            ≡ some (request_id_text (http.millis w.outside) w.sequence)
      go (err e) v = attach_request_id_header-header http header inserted accepted _ w.sequence _
      go (ok none) v = attach_request_id_header-header http header inserted accepted _ w.sequence _
      go (ok (some identity)) v =
          attach_request_id_header-header http header inserted accepted _ w.sequence _
