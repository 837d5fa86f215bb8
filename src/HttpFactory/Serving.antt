-- ===== src/HttpFactory/Serving.antt =====
-- What each request gets: its scope, its id, its identity and its context; and what each response
-- carries.
use nestforge.Base.{
  ◌≡◌, ◌≢◌, refl, sym, ap, subst, ◌∙◌, ℕ, suc, ==_refl, Option, none, some, List, Result, ok, err,
  arith,
}
use nestforge.Container.State.{Container, scoped}
use nestforge.Container.Resolve.{resolve}
use nestforge.Container.Resolve.Overridden.{
  Holds, resolve-Holds, override_value-Holds, override_value-Holds_other, overrides-override_value,
}
use nestforge.HttpException.{HttpException, AuthIdentity, with_optional_request_id}
use nestforge.Pipeline.{Request, ExceptionFilter, Next, from_request, apply_exception_filters}
use nestforge.HttpFactory.{
  World, Http, AuthResolver, bearer_token, generate_request_id, attach_request_id_header,
  override_in, enter_scope, proceed, reject, on_verdict, request_context_middleware,
}

module _ {Value Body Res V E O : Type 0} (http : Http Value Body Res V O) (req : Request Value Body)
    (container : Container) (w : World V E O) where
  -- The resolver's verdict on the request, and the state that it leaves; with no resolver, no identity.
  abbrev pub Verdict :
      Option (AuthResolver Value V E O)
      → Result (HttpException Value) (Option (AuthIdentity Value))
      → World V E O
      → Type 0
  Verdict none verdict w2 = (verdict ≡ ok none) × (w2 ≡ (enter_scope http req container w).3)
  Verdict (some resolver) verdict w2 =
      resolver (bearer_token (http.authorization req.body)) container
        (enter_scope http req container w).3
      ≡ (verdict, w2)

  -- What the rest of the service gets: a request with its id, the resolved identity and the handle of a
  -- scope of its own, and a state in which that scope resolves the id, the identity and the context.
  pub record Seen (identity : Option (AuthIdentity Value)) (w2 : World V E O)
      (q : Request Value Body) (v : World V E O) : Type 0 where
    pub same_body : q.body ≡ req.body
    pub same_uri : q.uri ≡ req.uri
    pub has_id : q.request_id ≡ some (generate_request_id http w).0
    pub has_identity : q.auth_identity ≡ identity
    pub has_scope : q.container ≡ some (record { scope = w.shared.scopes })
    pub resolves_id :
        (fuel : ℕ)
        → resolve (suc fuel) (record { scope = w.shared.scopes }) http.request_id_type v.shared
          ≡ some (ok (http.request_id_value (generate_request_id http w).0), v.shared)
    pub resolves_identity :
        (i : AuthIdentity Value) (fuel : ℕ)
        → identity ≡ some i
        → resolve (suc fuel) (record { scope = w.shared.scopes }) http.identity_type v.shared
          ≡ some (ok (http.identity_value i), v.shared)
    pub resolves_context :
        (fuel : ℕ)
        → resolve (suc fuel) (record { scope = w.shared.scopes }) http.context_type v.shared
          ≡ some (ok (http.context_value (from_request q)), v.shared)
    pub other_scopes : (j : ℕ) → j ≢ w.shared.scopes → v.shared.overrides j ≡ w2.shared.overrides j

  enter_scope-Holds :
      Holds
        (record { scope = w.shared.scopes })
        http.request_id_type
        (http.request_id_value (generate_request_id http w).0)
        (enter_scope http req container w).3.shared
  unfolding enter_scope scoped override_in generate_request_id
  enter_scope-Holds =
      override_value-Holds (record { scope = w.shared.scopes }) http.request_id_type
        (http.request_id_value (generate_request_id http w).0) (scoped container w.shared).0
        (rw (==_refl w.shared.scopes) refl)

  -- The three types of values are different types.
  abbrev pub ApartTypes : Type 0
  ApartTypes =
      (http.request_id_type.id ≢ http.identity_type.id)
      × (http.request_id_type.id ≢ http.context_type.id)
      × (http.identity_type.id ≢ http.context_type.id)

  abbrev Scope : Container
  Scope = record { scope = w.shared.scopes }

  proceed-Seen :
      (identity : Option (AuthIdentity Value)) (w2 u : World V E O) (q : Request Value Body)
      → ApartTypes
      → Holds Scope http.request_id_type
          (http.request_id_value (generate_request_id http w).0)
          u.shared
      → ((i : AuthIdentity Value)
          → identity ≡ some i
          → Holds Scope http.identity_type (http.identity_value i) u.shared)
      → ((j : ℕ) → j ≢ w.shared.scopes → u.shared.overrides j ≡ w2.shared.overrides j)
      → q ≡ record req {
        container = some Scope;
        request_id = some (generate_request_id http w).0;
        auth_identity = identity;
      }
      → Seen identity w2 q
          (override_in http Scope http.context_type (http.context_value (from_request q)) u)
  unfolding override_in
  proceed-Seen identity w2 u q (_, id_apart, identity_apart) holds_id holds_identity others made =
      let open_so = holds_id.0 in
      record {
        same_body = ap (λ (r : Request Value Body). r.body) made;
        same_uri = ap (λ (r : Request Value Body). r.uri) made;
        has_id = ap (λ (r : Request Value Body). r.request_id) made;
        has_identity = ap (λ (r : Request Value Body). r.auth_identity) made;
        has_scope = ap (λ (r : Request Value Body). r.container) made;
        resolves_id = λ fuel. resolve-Holds fuel Scope _ _ _ (
            override_value-Holds_other Scope http.context_type http.request_id_type _ _ u.shared
              id_apart holds_id);
        resolves_identity = λ i fuel is. resolve-Holds fuel Scope _ _ _ (
            override_value-Holds_other Scope http.context_type http.identity_type _ _ u.shared
              identity_apart (holds_identity i is));
        resolves_context = λ fuel.
            resolve-Holds fuel Scope _ _ _
              (override_value-Holds Scope http.context_type _ u.shared open_so);
        other_scopes = λ j other.
            overrides-override_value Scope http.context_type _ u.shared j other ∙ others j other;
      }

  abbrev pub with_identity : Option (AuthIdentity Value) → Request Value Body
  with_identity identity = record req {
    container = some Scope;
    request_id = some (generate_request_id http w).0;
    auth_identity = identity;
  }

  kept_Holds :
      (w2 : World V E O)
      → w2.shared.overrides w.shared.scopes
        ≡ (enter_scope http req container w).3.shared.overrides w.shared.scopes
      → Holds Scope http.request_id_type
          (http.request_id_value (generate_request_id http w).0)
          w2.shared
  kept_Holds w2 kept = rw kept enter_scope-Holds

  module _ (next : Next Value Body Res (World V E O)) (filters : List (ExceptionFilter Value)) where
    pub judged :
        (resolver : AuthResolver Value V E O)
        {verdict : Result (HttpException Value) (Option (AuthIdentity Value))} {w2 : World V E O}
        → Verdict (some resolver) verdict w2
        → request_context_middleware http req next container (some resolver) filters w
          ≡ on_verdict http
              (with_identity req.auth_identity)
              (generate_request_id http w).0
              Scope
              next
              filters
              verdict
              w2
    unfolding request_context_middleware enter_scope scoped
    judged resolver said =
        ap
          (λ (p : Result (HttpException Value) (Option (AuthIdentity Value)) × World V E O).
            on_verdict http (with_identity req.auth_identity) (generate_request_id http w).0 Scope
              next filters p.0 p.1)
          said

    -- A request that no resolver rejects is answered by the rest of the service, which gets it with its
    -- id and its identity, and a scope that resolves both and the context, if the resolver leaves the
    -- scope alone: the overrides of all other scopes are those that the resolver leaves.
    pub request_context_middleware-Seen :
        (resolver : Option (AuthResolver Value V E O)) (identity : Option (AuthIdentity Value))
        (w2 : World V E O)
        → Verdict resolver (ok identity) w2
        → ApartTypes
        → req.auth_identity ≡ none
        → w2.shared.overrides w.shared.scopes
          ≡ (enter_scope http req container w).3.shared.overrides w.shared.scopes
        → (q : Request Value Body) × (v : World V E O) × Seen identity w2 q v
          × (request_context_middleware http req next container resolver filters w ≡ (
            attach_request_id_header http (generate_request_id http w).0 (next q v).0,
            (next q v).1,
          ))
    unfolding request_context_middleware proceed override_in enter_scope scoped on_verdict
    request_context_middleware-Seen none identity w2 (no_one, same) apart bare kept =
        let nobody : identity ≡ none = ground (arith, no_one) in
        (
          _,
          _,
          proceed-Seen identity w2 (enter_scope http req container w).3
              (enter_scope http req container w).0 apart enter_scope-Holds (λ i is. cc)
              (λ j other. rw same refl) (ap with_identity (bare ∙ sym nobody)),
          refl,
        )
    request_context_middleware-Seen (some resolver) none w2 said apart bare kept = (
      _,
      _,
      proceed-Seen none w2 w2 (enter_scope http req container w).0 apart (kept_Holds w2 kept)
          (λ i is. cc) (λ j other. refl) (ap with_identity bare),
      judged resolver said,
    )
    request_context_middleware-Seen (some resolver) (some i) w2 said apart bare kept = (
      _,
      _,
      proceed-Seen (some i) w2
          (override_in http Scope http.identity_type (http.identity_value i) w2)
          (with_identity (some i)) apart
          (override_value-Holds_other Scope http.identity_type http.request_id_type _ _ w2.shared
            apart.0 (kept_Holds w2 kept))
          (λ j is.
            subst
              (λ (k : AuthIdentity Value).
                Holds Scope http.identity_type (http.identity_value k)
                  (override_in http Scope http.identity_type (http.identity_value i) w2).shared)
              (ground (arith, is))
              (override_value-Holds Scope http.identity_type _ w2.shared (kept_Holds w2 kept).0))
          (λ j other. overrides-override_value Scope http.identity_type _ w2.shared j other) refl,
      judged resolver said,
    )

    -- The answer to a rejected request, and the state that it leaves.
    abbrev pub Rejected : HttpException Value → World V E O → Res × World V E O → Type 0
    Rejected e w2 p =
        (p.0
          ≡ attach_request_id_header http (generate_request_id http w).0 (
              http.into_response (
                apply_exception_filters
                  (record e { request_id = some (generate_request_id http w).0 })
                  (from_request (with_identity req.auth_identity)) filters)))
        × (p.1.outside ≡ w2.outside)
        × (p.1.sequence ≡ w2.sequence)
        × ((j : ℕ) → j ≢ w.shared.scopes → p.1.shared.overrides j ≡ w2.shared.overrides j)

    -- A request that the resolver rejects goes no further: whatever the rest of the service is, the answer
    -- is the error with the request's id, as the exception filters change it, with the id in its
    -- header, and what is outside, the counter and all other scopes are as the resolver has left them.
    pub request_context_middleware-Rejected :
        (resolver : AuthResolver Value V E O) (e : HttpException Value) (w2 : World V E O)
        → Verdict (some resolver) (err e) w2
        → Rejected e w2
            (request_context_middleware http req next container (some resolver) filters w)
    unfolding on_verdict reject override_in with_optional_request_id
    request_context_middleware-Rejected resolver e w2 said =
        subst (Rejected e w2) (sym (judged resolver said)) (
          refl,
          refl,
          refl,
          λ j other. overrides-override_value Scope http.context_type _ w2.shared j other,
        )
