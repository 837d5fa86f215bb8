-- ===== src/Pipeline/Guards.antt =====
-- Guards: which requests they reject, and what a rejected request is answered.
use nestforge.Base.{
  ◌≡◌, refl, sym, subst, true, false, none, some, List, [], ◌∷◌, ◌++◌, String, Result, ok, err,
  contains, ◌⊎◌, inl, inr, ap,
}
use nestforge.HttpException.{HttpException, AuthIdentity, exception}
use nestforge.Pipeline.{
  RequestContext, Request, Guard, ExceptionFilter, Interceptor, Next, from_request, passing,
  run_guards, apply_exception_filters, run_interceptor_chain, on_guards, execute_pipeline,
}

module _ {Value W : Type 0} (ctx : RequestContext Value) where
  -- Guards that let the context pass, one after another, each where the one before has left off.
  abbrev pub InTurn : List (Guard Value W) → W → W → Type 0
  InTurn [] w w1 = w ≡ w1
  InTurn (g ∷ gs) w w1 = (v : W) × (g ctx w ≡ (ok tt, v)) × InTurn gs v w1

  -- The first guard that rejects the context: those before it let it pass.
  pub record FirstRejection (guards : List (Guard Value W)) (w : W) : Type 0 where
    pub before : List (Guard Value W)
    pub guard : Guard Value W
    pub after : List (Guard Value W)
    pub reached : W
    pub exception : HttpException Value
    pub left : W
    pub splits : guards ≡ before ++ guard ∷ after
    pub passed : InTurn before w reached
    pub rejects : guard ctx reached ≡ (err exception, left)

  -- The guards let the context pass in turn, or there is a first rejection.
  abbrev Screened : List (Guard Value W) → W → Result (HttpException Value) (Unit {0}) × W → Type 0
  Screened guards w p =
      ((w1 : W) × InTurn guards w w1 × (p ≡ (ok tt, w1)))
      ⊎ ((r : FirstRejection guards w) × (p ≡ (err r.exception, r.left)))

  after_first :
      (g : Guard Value W) (gs : List (Guard Value W)) (w v : W)
      → g ctx w ≡ (ok tt, v)
      → Screened gs v (run_guards gs ctx v)
      → Screened (g ∷ gs) w (run_guards gs ctx v)
  after_first g gs w v passes rest = elim rest [
    | inl (w1, in_turn, is) ↦ inl (w1, (v, passes, in_turn), is)
    | inr (r, is) ↦ inr (
      record {
        before = g ∷ r.before;
        guard = r.guard;
        after = r.after;
        reached = r.reached;
        exception = r.exception;
        left = r.left;
        splits = ap (λ (l : List (Guard Value W)). g ∷ l) r.splits;
        passed = (v, passes, r.passed);
        rejects = r.rejects;
      },
      is,
    )
  ]

  by_first :
      (g : Guard Value W) (gs : List (Guard Value W)) (w : W)
      (p : Result (HttpException Value) (Unit {0}) × W)
      → g ctx w ≡ p
      → ((v : W) → Screened gs v (run_guards gs ctx v))
      → Screened (g ∷ gs) w (run_guards (g ∷ gs) ctx w)
  unfolding run_guards
  by_first g gs w (ok u, v) is rest =
      subst (λ p. Screened (g ∷ gs) w (passing (run_guards gs ctx) p)) (sym is)
        (after_first g gs w v is (rest v))
  by_first g gs w (err e, v) is rest =
      subst (λ p. Screened (g ∷ gs) w (passing (run_guards gs ctx) p)) (sym is)
        (inr (
          record {
            before = [];
            guard = g;
            after = gs;
            reached = w;
            exception = e;
            left = v;
            splits = refl;
            passed = refl;
            rejects = is;
          },
          refl,
        ))

  run_guards-Screened :
      (guards : List (Guard Value W)) (w : W) → Screened guards w (run_guards guards ctx w)
  unfolding run_guards
  run_guards-Screened [] w = inl (w, refl, refl)
  run_guards-Screened (g ∷ gs) w = by_first g gs w (g ctx w) refl (λ v. run_guards-Screened gs v)

module _ {Value : Type 0} where
  -- A context's identity has the role.
  abbrev pub Holds : RequestContext Value → String → Type 0
  Holds ctx role =
      (identity : AuthIdentity Value) × (ctx.auth_identity ≡ some identity)
      × (contains identity.roles role ≡ true)

  -- What a judgement of the role guard says of the identity.
  abbrev pub Judged :
      List String → RequestContext Value → Result (HttpException Value) (Unit {0}) → Type 0
  Judged roles ctx (ok _) = (role : String) × (contains roles role ≡ true) × Holds ctx role
  Judged roles ctx (err e) =
      ((e.status ≡ 401) × (ctx.auth_identity ≡ none))
      ⊎ ((e.status ≡ 403) × ((role : String) → contains roles role ≡ true → ¬ Holds ctx role))

module _ {Value Body Res W : Type 0} (into_response : HttpException Value → Res) where
  -- The interceptors around the handler.
  abbrev pub intercepted :
      Request Value Body → Next Value Body Res W → List (Interceptor Value Body Res W) → W → Res × W
  intercepted req next interceptors w1 =
      let (res, s) =
        run_interceptor_chain into_response interceptors (from_request req) req
          (record { poisoned = false; next = some next; world = w1 }) in
      (res, s.world)

  -- The request meets the guards in turn, each where the one before has left off. Either all of them
  -- let it pass, and the answer is that of the interceptors around the handler, from what the guards
  -- have left. Or one of them is the first that rejects it: the answer is its rejection, as the exception
  -- filters change it in turn, and what is outside is left as this guard leaves it, so that no later
  -- guard, no interceptor and no handler changes it.
  pub execute_pipeline_guarded :
      (req : Request Value Body) (next : Next Value Body Res W) (guards : List (Guard Value W))
      (interceptors : List (Interceptor Value Body Res W)) (filters : List (ExceptionFilter Value))
      (w : W)
      → ((w1 : W) × InTurn (from_request req) guards w w1
          × (execute_pipeline into_response req next guards interceptors filters w
              ≡ intercepted req next interceptors w1))
        ⊎ ((r : FirstRejection (from_request req) guards w) × (execute_pipeline into_response req
                next guards interceptors filters w
              ≡ (
                into_response (apply_exception_filters r.exception (from_request req) filters),
                r.left,
              )))
  unfolding execute_pipeline on_guards
  execute_pipeline_guarded req next guards interceptors filters w =
      let end = on_guards into_response (from_request req) req next interceptors filters in
      elim (run_guards-Screened (from_request req) guards w) [
        | inl (w1, in_turn, is) ↦ inl (w1, in_turn, ap end is)
        | inr (r, is) ↦ inr (r, ap end is)
      ]

  -- Where no guard rejects a request, the exception filters make no difference: an error of the
  -- handler or of an interceptor is not given to them.
  pub execute_pipeline_unfiltered :
      (req : Request Value Body) (next : Next Value Body Res W) (guards : List (Guard Value W))
      (interceptors : List (Interceptor Value Body Res W))
      (filters others : List (ExceptionFilter Value)) (w w1 : W)
      → run_guards guards (from_request req) w ≡ (ok tt, w1)
      → execute_pipeline into_response req next guards interceptors filters w
        ≡ execute_pipeline into_response req next guards interceptors others w
  unfolding execute_pipeline on_guards
  execute_pipeline_unfiltered req next guards interceptors filters others w w1 passed =
      rw passed refl
