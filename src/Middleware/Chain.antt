-- ===== src/Middleware/Chain.antt =====
-- The chain of middleware: which bindings run for a request, and in which order.
use nestforge.Base.{
  ◌≡◌, refl, ap, ◌∙◌, List, [], ◌∷◌, if◌then◌else◌, Bool-cases, inl, inr, All, Text,
}
use nestforge.Pipeline.{Request, Flow, Plan, reply, calls, acts, NextFn}
use nestforge.Middleware.{
  NestMiddleware, MiddlewareBinding, binding_matches, run_handle, run_middleware_chain,
}

module _ {Value Body Res W : Type 0} where
  -- A plan that calls `next` with requests of one method and one path alone.
  abbrev pub KeepsRoute : Text → Text → Plan (Request Value Body) Res W → Type 0
  KeepsRoute method path (reply res) = Unit
  KeepsRoute method path (calls req rest) =
      (req.method ≡ method)
      × (req.uri.path ≡ path)
      × ((res : Res) → KeepsRoute method path (rest res))
  KeepsRoute method path (acts change rest) = (w : W) → KeepsRoute method path (rest w)

  -- The middleware whose bindings match a request, in the order of their bindings.
  abbrev pub selected :
      Request Value Body
      → List (MiddlewareBinding Value Body Res W)
      → List (NestMiddleware Value Body Res W)
  selected req [] = []
  selected req (b ∷ bs) =
      let rest = selected req bs in if binding_matches b req then b.middleware ∷ rest else rest

  selected-same :
      (q r : Request Value Body) (bs : List (MiddlewareBinding Value Body Res W))
      → q.method ≡ r.method
      → q.uri.path ≡ r.uri.path
      → selected q bs ≡ selected r bs
  selected-same q r [] same same' = refl
  selected-same q r (b ∷ bs) same same' = rw (same, same', selected-same q r bs same same') refl

module _ {Value Body Res W : Type 0} where
  -- Middleware with no matchers: each calls the next, and the last the rest of the service.
  abbrev pub nested :
      List (NestMiddleware Value Body Res W) → NextFn Value Body Res W → NextFn Value Body Res W
  nested [] terminal req = terminal req
  nested (m ∷ ms) terminal req = run_handle (nested ms terminal) (m req)

  run_handle-same :
      (f g : NextFn Value Body Res W) (method path : Text) (plan : Plan (Request Value Body) Res W)
      (s : Flow Value Body Res W)
      → ((q : Request Value Body) (s : Flow Value Body Res W)
          → q.method ≡ method
          → q.uri.path ≡ path
          → f q s ≡ g q s)
      → KeepsRoute method path plan
      → run_handle f plan s ≡ run_handle g plan s
  unfolding run_handle
  run_handle-same f g method path (reply res) s same keeps = refl
  run_handle-same f g method path (calls q rest) s same keeps =
      rw (same q s keeps.0 keeps.1)
        (run_handle-same f g method path (rest (g q s).0) (g q s).1 same (keeps.2 (g q s).0))
  run_handle-same f g method path (acts change rest) s same keeps =
      run_handle-same f g method path (rest s.world) (record s { world = change s.world }) same
        (keeps s.world)

  -- Middleware that passes requests on with their method and path: a request goes through just the
  -- middleware whose bindings match it, in the order of the bindings, each around the next, and then
  -- to the rest of the service.
  pub run_middleware_chain_lem :
      (bs : List (MiddlewareBinding Value Body Res W)) (terminal : NextFn Value Body Res W)
      (req : Request Value Body) (s : Flow Value Body Res W)
      → All (λ b. (q : Request Value Body) → KeepsRoute q.method q.uri.path (b.middleware q)) bs
      → run_middleware_chain bs terminal req s ≡ nested (selected req bs) terminal req s
  unfolding run_middleware_chain
  run_middleware_chain_lem [] terminal req s keeps = refl
  run_middleware_chain_lem (b ∷ bs) terminal req s keeps =
      elim (Bool-cases (binding_matches b req)) [
        | inr skipped ↦ rw (skipped) (run_middleware_chain_lem bs terminal req s keeps.1)
        | inl matched ↦ rw matched (
            run_handle-same (run_middleware_chain bs terminal) (nested (selected req bs) terminal)
              req.method req.uri.path (b.middleware req) s
              (λ q t same same'.
                run_middleware_chain_lem bs terminal q t keeps.1
                ∙ ap (λ (ms : List (NestMiddleware Value Body Res W)). nested ms terminal q t)
                    (selected-same q req bs same same'))
              (keeps.0 req))
      ]
