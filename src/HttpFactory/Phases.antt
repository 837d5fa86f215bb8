-- ===== src/HttpFactory/Phases.antt =====
-- What `create` has done when it returns: the phases of the lifecycle, in order.
use nestforge.Base.{
  ◌≡◌, refl, sym, ap, subst, fun_ext, ◌∙◌, ℕ, some, List, [], ◌∷◌, ◌++◌, String, Result, ok, err,
  inl, inr,
}
use nestforge.Base.Exec.{Exec, pure, map_error, ◌>>=◌, ◌>>◌}
use nestforge.Base.Exec.Invert.{
  bind_assoc, bind-eq-ok, bind-eq-err, bind-of-ok, bind-of-err, map_error-eq-ok, map_error-eq-err,
  pure-eq-ok,
}
use nestforge.Container.State.{Shared, new}
use nestforge.ModuleGraph.ModuleRef.{ModuleRef, LifecycleHook}
use nestforge.ModuleGraph.Runtime.{
  InitializedModule, initialize_module_runtime, run_lifecycle_hooks,
}
use nestforge.HttpFactory.App.{NestForgeFactory}
use nestforge.HttpFactory.Life.{
  FactoryError, graph_error, hook_error, server_error, created, boot, create,
}

module _ {V E : Type 0} where
  run_lifecycle_hooks-append :
      (before after : List (LifecycleHook V E)) (s : Shared V E)
      → run_lifecycle_hooks (before ++ after) s
        ≡ (run_lifecycle_hooks before >> run_lifecycle_hooks after) s
  unfolding run_lifecycle_hooks ◌>>=◌ pure
  run_lifecycle_hooks-append [] after s = refl
  run_lifecycle_hooks-append (hook ∷ before) after s =
      ap (λ (rest : Exec (Shared V E) String (Unit {0})). (hook >> rest) s)
        (fun_ext (run_lifecycle_hooks-append before after))
      ∙ sym (bind_assoc hook (λ _. run_lifecycle_hooks before) (λ _. run_lifecycle_hooks after) s)

module _ {V E A : Type 0} (first second : List (LifecycleHook V E)) (a : A) (s : Shared V E) where
  -- Two phases of hooks, each with its error wrapped, and a value.
  abbrev phases : Exec (Shared V E) FactoryError A
  phases =
      map_error hook_error (run_lifecycle_hooks first)
      >> (map_error hook_error (run_lifecycle_hooks second) >> pure a)

  phases_pass :
      {b : A} {s' : Shared V E}
      → phases s ≡ some (ok b, s')
      → (run_lifecycle_hooks (first ++ second) s ≡ some (ok tt, s')) × (b ≡ a)
  phases_pass {b} {s'} h =
      let (_, s2, inits, rest) = bind-eq-ok _ _ s h in
      let (_, s3, boots, last) = bind-eq-ok _ _ s2 rest in
      let (made, same) = pure-eq-ok _ s3 last in
      (
        run_lifecycle_hooks-append first second s
            ∙ bind-of-ok _ _ s (map_error-eq-ok hook_error _ s inits)
            ∙ subst (λ t. run_lifecycle_hooks second s2 ≡ some (ok tt, t)) (sym same)
                (map_error-eq-ok hook_error _ s2 boots),
        made,
      )

  phases_fail :
      {x : FactoryError} {s' : Shared V E}
      → phases s ≡ some (err x, s')
      → (why : String) × (run_lifecycle_hooks (first ++ second) s ≡ some (err why, s'))
        × (x ≡ hook_error why)
  unfolding pure
  phases_fail h = elim (bind-eq-err _ _ s h) [
    | inl inits ↦
        let (why, failed, named) = map_error-eq-err hook_error _ s inits in
        (why, run_lifecycle_hooks-append first second s ∙ bind-of-err _ _ s failed, named)
    | inr (_, s2, inits, rest) ↦ elim (bind-eq-err _ _ s2 rest) [
      | inl boots ↦
          let (why, failed, named) = map_error-eq-err hook_error _ s2 boots in
          (
            why,
            run_lifecycle_hooks-append first second s
                ∙ bind-of-ok _ _ s (map_error-eq-ok hook_error _ s inits)
                ∙ failed,
            named,
          )
      | inr (_, s3, boots, last) ↦ cc
    ]
  ]

module _ (Value Body Res O : Type 0) {V E Router Doc K : Type 0}
    (modules : K → ModuleRef V E Router Doc K) (fuel : ℕ) (root : K) (e : E) where
  -- The graph has been initialized, and the two phases of hooks have run with this outcome.
  abbrev Ran : Shared V E → Result String (Unit {0}) → InitializedModule V E Router → Type 0
  Ran s' outcome runtime =
      (s1 : Shared V E) × (initialize_module_runtime modules fuel root (new e).0
        ≡ some (ok runtime, s1))
      × (run_lifecycle_hooks (runtime.module_init_hooks ++ runtime.application_bootstrap_hooks) s1
          ≡ some (outcome, s'))

  -- What an outcome of `create` says.
  abbrev pub Created :
      Shared V E → Result FactoryError (NestForgeFactory Value Body Res V E O Router) → Type 0
  Created s' (ok f) =
      (runtime : InitializedModule V E Router) × Ran s' (ok tt) runtime
      × (f ≡ created Value Body Res O modules (new {V = V} e).1 runtime)
  Created s' (err (graph_error x)) =
      initialize_module_runtime modules fuel root (new e).0 ≡ some (err x, s')
  Created s' (err (hook_error message)) =
      (runtime : InitializedModule V E Router) × Ran s' (err message) runtime
  Created s' (err (server_error message)) = ¬ Unit {0}

  -- Where `create` returns an application, the module graph has been initialized in an empty container,
  -- then the hooks of module initialization and, behind them, those of the application's start have
  -- all run with success, and the application has the runtime's controllers and no option set.
  -- Where it fails, either the initialization of the graph has failed, and no hook has run, or a hook
  -- has, and none behind it has run. It never fails with an error of the server.
  pub create-Created :
      (outcome : Result FactoryError (NestForgeFactory Value Body Res V E O Router))
      (s' : Shared V E)
      → create Value Body Res O modules fuel root e ≡ some (outcome, s')
      → Created s' outcome
  unfolding create boot
  create-Created (ok f) s' h =
      let (runtime, s1, first, rest) = bind-eq-ok _ _ (new e).0 h in
      let (ran, made) = phases_pass _ _ _ s1 rest in
      (runtime, (s1, map_error-eq-ok graph_error _ (new e).0 first, ran), made)
  create-Created (err x) s' h = elim (bind-eq-err _ _ (new e).0 h) [
    | inl early ↦
        let (why, failed, named) = map_error-eq-err graph_error _ (new e).0 early in
        subst (λ (y : FactoryError). Created s' (err y)) (sym named) failed
    | inr (runtime, s1, first, rest) ↦
        let (why, failed, named) = phases_fail _ _ _ s1 rest in
        subst (λ (y : FactoryError). Created s' (err y)) (sym named)
          (runtime, (s1, map_error-eq-ok graph_error _ (new e).0 first, failed))
  ]
