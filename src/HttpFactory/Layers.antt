-- ===== src/HttpFactory/Layers.antt =====
-- The layers of the router, one around the other: how often the routes run for a request.
use nestforge.Base.{
  Text, ◌≡◌, refl, sym, ap, subst, ◌⊎◌, inl, inr, Option, none, some, List, All, Result, ok, err,
}
use nestforge.Container.State.{Container}
use nestforge.HttpException.{HttpException, AuthIdentity}
use nestforge.Pipeline.{Request, ExceptionFilter, Next, from_request, execute_pipeline}
use nestforge.Pipeline.Chain.{execute_pipeline_runs_once}
use nestforge.HttpFactory.{
  World, Http, AuthResolver, override_in, enter_scope, proceed, reject, on_verdict,
  request_context_middleware,
}
use nestforge.HttpFactory.App.{
  Axum, NestForgeFactory, middleware_layer, piped, layered, routes, into_router,
}
use nestforge.Base.Exec.Keeps.{IsPreorder}
use nestforge.Pipeline.Effects.{GuardChanges, InterceptorChanges}
use nestforge.HttpFactory.Once.{AtMostOnce, BindingChanges, AtMostOnce-trans, middleware_layer_once}
use nestforge.HttpFactory.Serving.{Verdict, judged}

module _ {Value Body Res V E O : Type 0} where
  -- What is documented of axum's routers: a layer stands around the whole router, a route layer around
  -- its routes, which a request may miss; and merging a router into an empty one changes nothing.
  pub record AxumLaws (axum : Axum (Request Value Body) Res (World V E O)) : Type 0 where
    pub call_layer :
        (f : Request Value Body
          → Next Value Body Res (World V E O)
          → World V E O
          → Res × World V E O)
        (r : axum.Router) (req : Request Value Body) (w : World V E O)
        → axum.call (axum.layer f r) req w ≡ f req (axum.call r) w
    pub call_route_layer :
        (f : Request Value Body
          → Next Value Body Res (World V E O)
          → World V E O
          → Res × World V E O)
        (r : axum.Router) (req : Request Value Body)
        → ((w : World V E O) → axum.call (axum.route_layer f r) req w ≡ f req (axum.call r) w)
          ⊎ ((w : World V E O) → axum.call (axum.route_layer f r) req w ≡ axum.call r req w)
    pub call_merge_empty :
        (r : axum.Router) (req : Request Value Body) (w : World V E O)
        → axum.call (axum.merge axum.empty r) req w ≡ axum.call r req w

module _ {Value Body Res V E O : Type 0} (http : Http Value Body Res V O)
    (axum : Axum (Request Value Body) Res (World V E O)) (laws : AxumLaws axum)
    (Changes : World V E O → World V E O → Type 0) (order : IsPreorder Changes) where
  -- The changes that the guards, the interceptors and the middleware make themselves are of the kind.
  abbrev pub PartsChange : NestForgeFactory Value Body Res V E O axum.Router → Type 0
  PartsChange f =
      All (GuardChanges Changes) f.global_guards
      × All (InterceptorChanges Changes) f.global_interceptors
      × All (BindingChanges Changes) f.middleware_bindings

  abbrev pipeline_around :
      NestForgeFactory Value Body Res V E O axum.Router
      → Request Value Body
      → Next Value Body Res (World V E O)
      → World V E O
      → Res × World V E O
  pipeline_around f req next =
      execute_pipeline http.into_response req next f.global_guards f.global_interceptors
        f.global_exception_filters

  abbrev context_around :
      NestForgeFactory Value Body Res V E O axum.Router
      → Request Value Body
      → Next Value Body Res (World V E O)
      → World V E O
      → Res × World V E O
  context_around f req next =
      request_context_middleware http req next f.container f.auth_resolver
        f.global_exception_filters

  piped_once :
      (f : NestForgeFactory Value Body Res V E O axum.Router)
      → PartsChange f
      → AtMostOnce Changes (axum.call (routes axum f)) (axum.call (piped http axum f))
  unfolding piped
  piped_once f parts req w = elim (laws.call_route_layer (pipeline_around f) (routes axum f) req) [
    | inr missed ↦ inr (
      req,
      w,
      order.same w,
      subst (λ (p : Res × World V E O). Changes (axum.call (routes axum f) req w).1 p.1)
          (sym (missed w)) (order.same (axum.call (routes axum f) req w).1),
    )
    | inl matched ↦ rw (matched w) (
        execute_pipeline_runs_once http.into_response Changes order req (axum.call (routes axum f))
          f.global_guards f.global_interceptors f.global_exception_filters w parts.0 parts.1)
  ]

  layered_once :
      (f : NestForgeFactory Value Body Res V E O axum.Router)
      → PartsChange f
      → AtMostOnce Changes (axum.call (routes axum f)) (axum.call (layered http axum f))
  unfolding layered
  layered_once f parts req w =
      rw
        (laws.call_layer (middleware_layer http.into_response f.middleware_bindings)
          (piped http axum f) req w)
        (AtMostOnce-trans Changes order (axum.call (routes axum f)) (axum.call (piped http axum f))
          (λ q.
            middleware_layer http.into_response f.middleware_bindings q
              (axum.call (piped http axum f)))
          (piped_once f parts)
          (middleware_layer_once http.into_response Changes order f.middleware_bindings
            (axum.call (piped http axum f)) parts.2)
          req w)

  merged_once :
      (f : NestForgeFactory Value Body Res V E O axum.Router)
      → PartsChange f
      → AtMostOnce Changes
          (axum.call (routes axum f))
          (axum.call (axum.merge axum.empty (layered http axum f)))
  merged_once f parts req w =
      rw (laws.call_merge_empty (layered http axum f) req w) (layered_once f parts req w)

  -- What is outside the containers is as the resolver has left it, and then there are changes of the
  -- kind alone; or the routes run once among such changes.
  abbrev pub OneRun :
      NestForgeFactory Value Body Res V E O axum.Router → World V E O → World V E O → Type 0
  OneRun f w2 v =
      ((t : World V E O) × (t.outside ≡ w2.outside) × Changes t v)
      ⊎ ((q : Request Value Body) × (t : World V E O) × (u : World V E O) × (t.outside ≡ w2.outside)
          × Changes t u
          × Changes (axum.call (routes axum f) q u).1 v)

  module _ (f : NestForgeFactory Value Body Res V E O axum.Router)
      (next : Next Value Body Res (World V E O))
      (once : AtMostOnce Changes (axum.call (routes axum f)) next) where
    proceed_once :
        (q : Request Value Body) (id : Text) (scope : Container) (u w2 : World V E O)
        → u.outside ≡ w2.outside
        → OneRun f w2 (proceed http q id scope next u).1
    unfolding proceed override_in
    proceed_once q id scope u w2 same =
        let v = override_in http scope http.context_type (http.context_value (from_request q)) u in
        elim (once q v) [
          | inl changed ↦ inl (v, same, changed)
          | inr (p, t, before, behind) ↦ inr (p, v, t, same, before, behind)
        ]

    on_verdict_once :
        (q : Request Value Body) (id : Text) (scope : Container)
        (filters : List (ExceptionFilter Value))
        (verdict : Result (HttpException Value) (Option (AuthIdentity Value))) (w2 : World V E O)
        → OneRun f w2 (on_verdict http q id scope next filters verdict w2).1
    unfolding on_verdict reject override_in
    on_verdict_once q id scope filters (err e) w2 =
        let left =
          override_in http scope http.context_type (http.context_value (from_request q)) w2 in
        inl (left, refl, order.same left)
    on_verdict_once q id scope filters (ok none) w2 = proceed_once q id scope w2 w2 refl
    on_verdict_once q id scope filters (ok (some i)) w2 = proceed_once _ id scope _ w2 refl

    context_once :
        (resolver : Option (AuthResolver Value V E O)) (req : Request Value Body)
        (container : Container) (filters : List (ExceptionFilter Value)) (w w2 : World V E O)
        (verdict : Result (HttpException Value) (Option (AuthIdentity Value)))
        → Verdict http req container w resolver verdict w2
        → OneRun f w2 (request_context_middleware http req next container resolver filters w).1
    unfolding request_context_middleware
    context_once none req container filters w w2 verdict (_, same) =
        proceed_once _ _ _ (enter_scope http req container w).3 w2
          (ap (λ (x : World V E O). x.outside) (sym same))
    context_once (some resolver) req container filters w w2 verdict said =
        subst (λ (p : Res × World V E O). OneRun f w2 p.1)
          (sym (judged http req container w next filters resolver said))
          (on_verdict_once _ _ _ filters verdict w2)

  -- However often middleware and interceptors call the rest of the service, a request runs the routes at
  -- most once. Let the changes that guards, interceptors and middleware make themselves be within a
  -- reflexive and transitive relation; with equality, they make none. What is outside the containers is
  -- first as the resolver's verdict has left it; then there are such changes alone, or the routes run on
  -- one request, with such changes before and behind.
  pub into_router_runs_once :
      (f : NestForgeFactory Value Body Res V E O axum.Router) (req : Request Value Body)
      (w w2 : World V E O) (verdict : Result (HttpException Value) (Option (AuthIdentity Value)))
      → PartsChange f
      → Verdict http req f.container w f.auth_resolver verdict w2
      → OneRun f w2 (axum.call (into_router http axum f) req w).1
  unfolding into_router
  into_router_runs_once f req w w2 verdict parts said =
      let next = axum.call (axum.merge axum.empty (layered http axum f)) in
      rw (laws.call_layer (context_around f) (axum.merge axum.empty (layered http axum f)) req w) (
        context_once f next (merged_once f parts) f.auth_resolver req f.container
          f.global_exception_filters w w2 verdict said)
