-- ===== src/ModuleGraph/Runtime/Registered.antt =====
-- What a successful initialization has registered and collected, and in which order.
use nestforge.Base.{
  ℕ, ◌≡◌, refl, ap, ◌∙◌, sym, subst, true, Option, none, some, List, [], ◌∷◌, ◌++◌, reverse,
  append-nil, Result, ok, err, arith, contains,
}
use nestforge.Base.Exec.{pure}
use nestforge.Base.Exec.Invert.{bind-eq-ok}
use nestforge.Container.State.{Shared}
use nestforge.ModuleGraph.ModuleRef.{ModuleRef}
use nestforge.ModuleGraph.Walk.{Walk, VisitError, default}
use nestforge.ModuleGraph.Walk.Order.{run_all, visit-Done}
use nestforge.ModuleGraph.Walk.Sorted.{IsSorted, adding}
use nestforge.ModuleGraph.Runtime.{
  Built, InitializedModule, register_module, visit_module, nothing_built, initialized,
  initialize_module_runtime,
}
use nestforge.ModuleGraph.Runtime.Turns.{
  gather, longer, Registers, nothing, module_then, register_module-ok,
}

module _ {V E Router Doc K : Type 0} where
  -- What modules done in some order add to what has been built.
  record Grown (modules : K → ModuleRef V E Router Doc K) (ks : List K) (b b' : Built V E Router)
      : Type 0 where
    registers : Registers modules ks b.container b'.container
    controllers : b'.controllers ≡ b.controllers ++ gather (λ k. (modules k).controllers) ks
    module_init_hooks :
        b'.module_init_hooks ≡ b.module_init_hooks ++ gather (λ k. (modules k).on_module_init) ks
    module_destroy_hooks :
        b'.module_destroy_hooks
        ≡ b.module_destroy_hooks ++ gather (λ k. (modules k).on_module_destroy) ks
    application_bootstrap_hooks :
        b'.application_bootstrap_hooks
        ≡ b.application_bootstrap_hooks ++ gather (λ k. (modules k).on_application_bootstrap) ks
    application_shutdown_hooks :
        b'.application_shutdown_hooks
        ≡ b.application_shutdown_hooks ++ gather (λ k. (modules k).on_application_shutdown) ks

  run_all-Grown :
      (modules : K → ModuleRef V E Router Doc K) (ks : List K) (b b' : Built V E Router)
      → run_all
          (λ k. (modules k).name)
          (λ k. (modules k).imports)
          (λ k. register_module (modules k))
          ks
          b
        ≡ some (ok tt, b')
      → Grown modules ks b b'
  unfolding pure
  run_all-Grown modules [] b b' h =
      let same : b ≡ b' = ground arith in
      subst (Grown modules [] b) same (record {
        registers = nothing b.container;
        controllers = sym (append-nil _);
        module_init_hooks = sym (append-nil _);
        module_destroy_hooks = sym (append-nil _);
        application_bootstrap_hooks = sym (append-nil _);
        application_shutdown_hooks = sym (append-nil _);
      })
  run_all-Grown modules (k ∷ ks) b b' h =
      let (_, b1, first, rest) = bind-eq-ok (register_module (modules k)) _ b h in
      let (ran, listed, same) = register_module-ok (modules k) b b1 first in
      let g = run_all-Grown modules ks b1 b' rest in
      record {
        registers = module_then ran listed g.registers;
        controllers = longer _ k ks _ _ _ (ap (λ x. x.controllers) same) g.controllers;
        module_init_hooks =
            longer _ k ks _ _ _ (ap (λ x. x.module_init_hooks) same) g.module_init_hooks;
        module_destroy_hooks =
            longer _ k ks _ _ _ (ap (λ x. x.module_destroy_hooks) same) g.module_destroy_hooks;
        application_bootstrap_hooks =
            longer _ k ks _ _ _ (ap (λ x. x.application_bootstrap_hooks) same)
              g.application_bootstrap_hooks;
        application_shutdown_hooks =
            longer _ k ks _ _ _ (ap (λ x. x.application_shutdown_hooks) same)
              g.application_shutdown_hooks;
      }

-- What a successful initialization from the container `s` gives.
pub record IsInitialized {V E Router Doc K : Type 0} (modules : K → ModuleRef V E Router Doc K)
    (root : K) (s s' : Shared V E) (m : InitializedModule V E Router) : Type 0 where
  pub order : List K
  pub sorted : IsSorted (λ k. (modules k).name) (λ k. (modules k).imports) [] order
  pub reached : contains (adding (λ k. (modules k).name) order []) (modules root).name ≡ true
  pub registers : Registers modules order s s'
  pub controllers : m.controllers ≡ gather (λ k. (modules k).controllers) order
  pub module_init : m.module_init_hooks ≡ gather (λ k. (modules k).on_module_init) order
  pub module_destroy :
      m.module_destroy_hooks ≡ reverse (gather (λ k. (modules k).on_module_destroy) order)
  pub application_bootstrap :
      m.application_bootstrap_hooks ≡ gather (λ k. (modules k).on_application_bootstrap) order
  pub application_shutdown :
      m.application_shutdown_hooks
      ≡ reverse (gather (λ k. (modules k).on_application_shutdown) order)

module _ {V E Router Doc K : Type 0} (modules : K → ModuleRef V E Router Doc K) where
  walk-ok :
      (fuel : ℕ) (root : K) (s s' : Shared V E) (m : InitializedModule V E Router)
      → initialize_module_runtime modules fuel root s ≡ some (ok m, s')
      → (w : Walk (Built V E Router)) × (visit_module modules fuel root
            (default (nothing_built modules s))
          ≡ some (ok tt, w))
        × (m ≡ initialized modules w.rest)
        × (s' ≡ w.rest.container)
  unfolding initialize_module_runtime
  walk-ok fuel root s s' m h =
      after (visit_module modules fuel root (default (nothing_built modules s))) refl
    where
      after :
          (o : Option (Result VisitError (Unit {0}) × Walk (Built V E Router)))
          → visit_module modules fuel root (default (nothing_built modules s)) ≡ o
          → (w : Walk (Built V E Router)) × (visit_module modules fuel root
                (default (nothing_built modules s))
              ≡ some (ok tt, w))
            × (m ≡ initialized modules w.rest)
            × (s' ≡ w.rest.container)
      after none e = cc (rw (e, initialize_module_runtime) at h)
      after (some (err x, w)) e = cc (rw (e, initialize_module_runtime) at h)
      after (some (ok _, w)) e =
          let h' = rw (e, initialize_module_runtime) at h in (w, e, ground arith, ground arith)

  -- When an application initializes, its modules have registered one after another, each once and
  -- behind all that it imports, the root among them, and what each exports was registered when it
  -- had; the controllers and the hooks that run at the start stand in that order, and the hooks
  -- that run at the end in the reverse of it.
  pub initialize-IsInitialized :
      (fuel : ℕ) (root : K) (s s' : Shared V E) (m : InitializedModule V E Router)
      → initialize_module_runtime modules fuel root s ≡ some (ok m, s')
      → IsInitialized modules root s s' m
  unfolding visit_module
  initialize-IsInitialized fuel root s s' m h =
      let (w, walked, same, same') = walk-ok fuel root s s' m h in
      let d =
        visit-Done (λ k. (modules k).name) (λ k. (modules k).imports)
          (λ k. register_module (modules k)) fuel root _ w walked in
      let g = run_all-Grown modules d.order _ w.rest d.ran in
      record {
        order = d.order;
        sorted = d.sorted;
        reached = rw (← d.visited) d.reached.0;
        registers = rw same' g.registers;
        controllers = ap (λ x. x.controllers) same ∙ g.controllers;
        module_init = ap (λ x. x.module_init_hooks) same ∙ g.module_init_hooks;
        module_destroy = ap (λ x. x.module_destroy_hooks) same ∙ ap reverse g.module_destroy_hooks;
        application_bootstrap =
            ap (λ x. x.application_bootstrap_hooks) same ∙ g.application_bootstrap_hooks;
        application_shutdown =
            ap (λ x. x.application_shutdown_hooks) same ∙ ap reverse g.application_shutdown_hooks;
      }
