-- ===== src/HttpFactory/Once.antt =====
-- The layer of the middleware runs the rest of the service at most once.
use nestforge.Base.{refl, ◌⊎◌, inl, inr, false, some, List, [], ◌∷◌, All, Bool-cases}
use nestforge.HttpException.{HttpException}
use nestforge.Pipeline.{Request, Next, Flow, NextFn, Plan, reply, calls, acts}
use nestforge.Base.Exec.Keeps.{IsPreorder}
use nestforge.Pipeline.Effects.{PlanChanges, RanOnce, change-RanOnce}
use nestforge.Middleware.{MiddlewareBinding, binding_matches, run_handle, run_middleware_chain}
use nestforge.HttpFactory.App.{next_to_fn, middleware_layer}

module _ {Value Body Res W : Type 0} (Changes : W → W → Type 0) where
  -- A service that runs another at most once, with changes of the kind before and behind the run.
  abbrev pub AtMostOnce : Next Value Body Res W → Next Value Body Res W → Type 0
  AtMostOnce inner outer =
      (req : Request Value Body) (w : W)
      → Changes w (outer req w).1
        ⊎ ((q : Request Value Body) × (u : W) × Changes w u × Changes (inner q u).1 (outer req w).1)

  abbrev pub BindingChanges : MiddlewareBinding Value Body Res W → Type 0
  BindingChanges b = (req : Request Value Body) → PlanChanges Changes (b.middleware req)

module _ {Value Body Res W : Type 0} (Changes : W → W → Type 0) (order : IsPreorder Changes) where
  pub AtMostOnce-trans :
      (a b c : Next Value Body Res W)
      → AtMostOnce Changes a b
      → AtMostOnce Changes b c
      → AtMostOnce Changes a c
  AtMostOnce-trans a b c ab bc req w = elim (bc req w) [
    | inl changed ↦ inl changed
    | inr (q, u, before, behind) ↦ elim (ab q u) [
      | inl changed ↦ inl (
          order.then_by w u (c req w).1 before
            (order.then_by u (b q u).1 (c req w).1 changed behind))
      | inr (p, v, before', behind') ↦ inr (
        p,
        v,
        order.then_by w u v before before',
        order.then_by (a p v).1 (b q u).1 (c req w).1 behind' behind,
      )
    ]
  ]

  run_handle-RanOnce :
      (next : Next Value Body Res W) (w : W) (f : NextFn Value Body Res W)
      → ((q : Request Value Body) (s : Flow Value Body Res W)
          → RanOnce Changes next w s
          → RanOnce Changes next w (f q s).1)
      → (plan : Plan (Request Value Body) Res W) (s : Flow Value Body Res W)
      → PlanChanges Changes plan
      → RanOnce Changes next w s
      → RanOnce Changes next w (run_handle f plan s).1
  unfolding run_handle
  run_handle-RanOnce next w f once (reply res) s keeps ran = ran
  run_handle-RanOnce next w f once (calls q rest) s keeps ran =
      run_handle-RanOnce next w f once (rest (f q s).0) (f q s).1 (keeps (f q s).0) (once q s ran)
  run_handle-RanOnce next w f once (acts change rest) s keeps ran =
      run_handle-RanOnce next w f once (rest s.world) (record s { world = change s.world })
        (keeps.1 s.world) (change-RanOnce Changes order next w change s (keeps.0 s.world) ran)

module _ {Value Body Res W : Type 0} (into_response : HttpException Value → Res)
    (Changes : W → W → Type 0) (order : IsPreorder Changes) where
  next_to_fn-RanOnce :
      (next : Next Value Body Res W) (w : W) (q : Request Value Body) (s : Flow Value Body Res W)
      → RanOnce Changes next w s
      → RanOnce Changes next w (next_to_fn into_response q s).1
  unfolding next_to_fn
  next_to_fn-RanOnce next w q s ran = elim (Bool-cases s.poisoned) [
    | inl broken ↦ rw broken ran
    | inr whole ↦ elim ran [
      | inl (waiting, changed) ↦
          rw (whole, waiting) (inr (refl, (q, s.world, changed, order.same (next q s.world).1)))
      | inr (gone, ran_then) ↦ rw (whole, gone) (inr (gone, ran_then))
    ]
  ]

  run_middleware_chain-RanOnce :
      (next : Next Value Body Res W) (w : W) (bs : List (MiddlewareBinding Value Body Res W))
      → All (BindingChanges Changes) bs
      → (q : Request Value Body) (s : Flow Value Body Res W) → RanOnce Changes next w s
      → RanOnce Changes next w (run_middleware_chain bs (next_to_fn into_response) q s).1
  unfolding run_middleware_chain
  run_middleware_chain-RanOnce next w [] keep q s ran = next_to_fn-RanOnce next w q s ran
  run_middleware_chain-RanOnce next w (b ∷ bs) keep q s ran =
      let rest = run_middleware_chain-RanOnce next w bs keep.1 in
      elim (Bool-cases (binding_matches b q)) [
        | inl matched ↦
            rw matched
              (run_handle-RanOnce Changes order next w _ rest (b.middleware q) s (keep.0 q) ran)
        | inr skipped ↦ rw skipped (rest q s ran)
      ]

  pub middleware_layer_once :
      (bs : List (MiddlewareBinding Value Body Res W)) (next : Next Value Body Res W)
      → All (BindingChanges Changes) bs
      → AtMostOnce Changes next (λ req w. middleware_layer into_response bs req next w)
  unfolding middleware_layer
  middleware_layer_once [] next keep req w = inr (req, w, order.same w, order.same (next req w).1)
  middleware_layer_once (b ∷ bs) next keep req w =
      elim (run_middleware_chain-RanOnce next w (b ∷ bs) keep req
        (record { poisoned = false; next = some next; world = w }) (inl (refl, order.same w))) [
          | inl (_, changed) ↦ inl changed
          | inr (_, ran) ↦ inr ran
        ]
