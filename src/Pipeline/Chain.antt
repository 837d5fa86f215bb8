-- ===== src/Pipeline/Chain.antt =====
-- The chain of interceptors: how they nest, and how often the handler runs.
use nestforge.Base.{
  ◌≡◌, refl, ap, false, none, some, List, [], ◌∷◌, map, ok, ◌⊎◌, inl, inr, Bool-cases, subst, err,
  Result, All,
}
use nestforge.HttpException.{HttpException}
use nestforge.Pipeline.{
  RequestContext, Request, Guard, ExceptionFilter, Interceptor, Next, Flow, NextFn, Plan, reply,
  calls, acts, from_request, run_guards, next_to_fn, run_plan, run_interceptor_chain, on_guards,
  execute_pipeline,
}
use nestforge.Base.Exec.Keeps.{IsPreorder}
use nestforge.Pipeline.Effects.{
  PlanChanges, GuardChanges, InterceptorChanges, RanOnce, change-RanOnce, run_guards-Changes,
}

-- An interceptor that calls `next` once: what it makes of the request and of the response, and what it
-- changes outside as it does.
pub record Wrapper (Value Body Res W : Type 0) : Type 0 where
  pub before : RequestContext Value → Request Value Body → W → Request Value Body × W
  pub after : RequestContext Value → Res → W → Res × W

module _ {Value Body Res W : Type 0} where
  abbrev pub around : Wrapper Value Body Res W → Interceptor Value Body Res W
  around x ctx req =
      acts (λ w. (x.before ctx req w).1)
        (λ w.
          calls (x.before ctx req w).0
            (λ res. acts (λ v. (x.after ctx res v).1) (λ v. reply (x.after ctx res v).0)))

  -- The request as the handler gets it, and what is outside then: the first interceptor comes first.
  abbrev pub inbound :
      List (Wrapper Value Body Res W)
      → RequestContext Value
      → Request Value Body
      → W
      → Request Value Body × W
  inbound [] ctx req w = (req, w)
  inbound (x ∷ xs) ctx req w = inbound xs ctx (x.before ctx req w).0 (x.before ctx req w).1

  -- The response as it leaves, and what is outside then: the first interceptor comes last.
  abbrev pub outbound : List (Wrapper Value Body Res W) → RequestContext Value → Res → W → Res × W
  outbound [] ctx res w = (res, w)
  outbound (x ∷ xs) ctx res w = x.after ctx (outbound xs ctx res w).0 (outbound xs ctx res w).1

  -- The handler in the middle of the interceptors.
  abbrev pub enclosed :
      List (Wrapper Value Body Res W)
      → RequestContext Value
      → Next Value Body Res W
      → Request Value Body
      → W
      → Res × W
  enclosed xs ctx next req w =
      let (q, u) = inbound xs ctx req w in let (res, v) = next q u in outbound xs ctx res v

module _ {Value Body Res W : Type 0} (into_response : HttpException Value → Res) where
  chain-around :
      (xs : List (Wrapper Value Body Res W)) (ctx : RequestContext Value) (req : Request Value Body)
      (next : Next Value Body Res W) (w : W)
      → run_interceptor_chain into_response
          (map around xs)
          ctx
          req
          (record { poisoned = false; next = some next; world = w })
        ≡ (
          (enclosed xs ctx next req w).0,
          record { poisoned = false; next = none; world = (enclosed xs ctx next req w).1 },
        )
  unfolding run_interceptor_chain run_plan next_to_fn
  chain-around [] ctx req next w = refl
  chain-around (x ∷ xs) ctx req next w =
      ap
        (λ (p : Res × Flow Value Body Res W).
          ((x.after ctx p.0 p.1.world).0, record p.1 { world = (x.after ctx p.0 p.1.world).1 }))
        (chain-around xs ctx (x.before ctx req w).0 next (x.before ctx req w).1)

  -- Interceptors that call `next` once nest: where no guard rejects the request, the handler gets it
  -- as the interceptors change it from first to last, and the answer is the handler's as they
  -- change it from last to first; what they change outside they change in the same order, from what the
  -- guards have left; the context that they see is that of the original request.
  pub execute_pipeline-around :
      (req : Request Value Body) (next : Next Value Body Res W) (guards : List (Guard Value W))
      (xs : List (Wrapper Value Body Res W)) (filters : List (ExceptionFilter Value)) (w w1 : W)
      → run_guards guards (from_request req) w ≡ (ok tt, w1)
      → execute_pipeline into_response req next guards (map around xs) filters w
        ≡ enclosed xs (from_request req) next req w1
  unfolding execute_pipeline on_guards
  execute_pipeline-around req next guards xs filters w w1 passed = rw passed (
      ap (λ (p : Res × Flow Value Body Res W). (p.0, p.1.world))
        (chain-around xs (from_request req) req next w1))

module _ {Value Body Res W : Type 0} (into_response : HttpException Value → Res)
    (Changes : W → W → Type 0) (order : IsPreorder Changes) where
  -- A `next` that runs the handler at most once.
  abbrev Once : Next Value Body Res W → W → NextFn Value Body Res W → Type 0
  Once next w f =
      (q : Request Value Body) (s : Flow Value Body Res W)
      → RanOnce Changes next w s
      → RanOnce Changes next w (f q s).1

  next_to_fn-RanOnce :
      (next : Next Value Body Res W) (w : W) → Once next w (next_to_fn into_response)
  unfolding next_to_fn
  next_to_fn-RanOnce next w q s ran = elim (Bool-cases s.poisoned) [
    | inl broken ↦ rw broken ran
    | inr whole ↦ elim ran [
      | inl (waiting, changed) ↦
          rw (whole, waiting) (inr (refl, (q, s.world, changed, order.same (next q s.world).1)))
      | inr (gone, ran_then) ↦ rw (whole, gone) (inr (gone, ran_then))
    ]
  ]

  run_plan-RanOnce :
      (next : Next Value Body Res W) (w : W) (f : NextFn Value Body Res W)
      → Once next w f
      → (plan : Plan (Request Value Body) Res W) (s : Flow Value Body Res W)
      → PlanChanges Changes plan
      → RanOnce Changes next w s
      → RanOnce Changes next w (run_plan into_response f plan s).1
  unfolding run_plan
  run_plan-RanOnce next w f once (reply res) s keeps ran = ran
  run_plan-RanOnce next w f once (calls q rest) s keeps ran =
      run_plan-RanOnce next w f once (rest (f q s).0) (f q s).1 (keeps (f q s).0) (once q s ran)
  run_plan-RanOnce next w f once (acts change rest) s keeps ran =
      run_plan-RanOnce next w f once (rest s.world) (record s { world = change s.world })
        (keeps.1 s.world) (change-RanOnce Changes order next w change s (keeps.0 s.world) ran)

  chain-RanOnce :
      (next : Next Value Body Res W) (w : W) (is : List (Interceptor Value Body Res W))
      (ctx : RequestContext Value)
      → All (InterceptorChanges Changes) is
      → Once next w (run_interceptor_chain into_response is ctx)
  unfolding run_interceptor_chain
  chain-RanOnce next w [] ctx keep q s ran = next_to_fn-RanOnce next w q s ran
  chain-RanOnce next w (i ∷ is) ctx keep q s ran =
      run_plan-RanOnce next w _ (chain-RanOnce next w is ctx keep.1) (i ctx q) s (keep.0 ctx q) ran

  -- However often the interceptors call `next`, the handler runs at most once. Let the changes outside
  -- that the guards and the interceptors make themselves be within a reflexive and transitive relation;
  -- with equality, they make none. Then what is left is such a change of what was there; or the handler
  -- has run on one request, and there are such changes before the run and behind it alone.
  pub execute_pipeline_runs_once :
      (req : Request Value Body) (next : Next Value Body Res W) (guards : List (Guard Value W))
      (is : List (Interceptor Value Body Res W)) (filters : List (ExceptionFilter Value)) (w : W)
      → All (GuardChanges Changes) guards
      → All (InterceptorChanges Changes) is
      → Changes w (execute_pipeline into_response req next guards is filters w).1
        ⊎ ((q : Request Value Body) × (u : W) × Changes w u
            × Changes (next q u).1 (execute_pipeline into_response req next guards is filters w).1)
  unfolding execute_pipeline on_guards
  execute_pipeline_runs_once req next guards is filters w guards_keep keep =
      go (run_guards guards (from_request req) w) refl
    where
      go :
          (p : Result (HttpException Value) (Unit {0}) × W)
          → run_guards guards (from_request req) w ≡ p
          → Changes w (execute_pipeline into_response req next guards is filters w).1
            ⊎ ((q : Request Value Body) × (u : W) × Changes w u
                × Changes
                    (next q u).1
                    (execute_pipeline into_response req next guards is filters w).1)
      go (err e, w1) rejected = rw rejected (
          inl (
            subst (λ p. Changes w p.1) rejected
              (run_guards-Changes Changes order guards (from_request req) w guards_keep)))
      go (ok _, w1) passed =
          rw passed
            (elim (chain-RanOnce next w is (from_request req) keep req
              (record { poisoned = false; next = some next; world = w1 })
              (inl (
                refl,
                subst (λ p. Changes w p.1) passed
                    (run_guards-Changes Changes order guards (from_request req) w guards_keep),
              ))) [ inl (_, changed) ↦ inl changed | inr (_, ran) ↦ inr ran ])
