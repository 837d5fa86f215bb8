-- ===== src/ModuleGraph/Runtime/Failures.antt =====
-- crates/nestforge-core/src/module.rs: how an initialization ends, and why it fails where it does.
use nestforge.Base.{
  ℕ, ◌≡◌, ◌≢◌, ◌<◌, refl, [], ◌∷◌, sym, ap, ◌∙◌, true, Option, none, some, List, String, Result, ok,
  err, length, contains, arith,
}
use nestforge.Base.Exec.{Exec}
use nestforge.Container.State.{Shared}
use nestforge.ModuleGraph.ModuleRef.{ModuleRef}
use nestforge.ModuleGraph.Walk.{Walk, VisitError, import_cycle, failed, default}
use nestforge.ModuleGraph.Walk.Cycles.{IsCycle, visit-IsCycle}
use nestforge.ModuleGraph.Walk.Ends.{visit_ends}
use nestforge.ModuleGraph.Walk.Failures.{FailedAt, Circular, visit-Fails}
use nestforge.ModuleGraph.Runtime.{
  Built, InitializedModule, register_module, visit_module, nothing_built, initialized,
  initialize_module_runtime,
}

module _ {V E Router Doc K : Type 0} (modules : K → ModuleRef V E Router Doc K) where
  abbrev name : K → String
  name k = (modules k).name

  abbrev imports : K → List K
  imports k = (modules k).imports

  abbrev turn : K → Exec (Built V E Router) String (Unit {0})
  turn k = register_module (modules k)

  -- Why an application does not initialize: its imports have the cycle that is named, from the root on,
  -- or the turn of some module below the root, behind the turns of all that it imports, gave the message.
  -- Either way the modules before had their turns, each once and behind its imports, from the
  -- container that was given and one after another, and the container is what the last turn left.
  abbrev pub Explained : K → Shared V E → Shared V E → VisitError → Type 0
  Explained root s s' (import_cycle names) =
      IsCycle name imports names
      × (last : Built V E Router) × Circular name imports turn (name root ∷ [])
          (default (nothing_built modules s)) names last
      × (s' ≡ last.container)
  Explained root s s' (failed message) =
      (last : Built V E Router) × FailedAt name imports turn root
        (default (nothing_built modules s)) message last
      × (s' ≡ last.container)

  same_error :
      (x e : VisitError) (s s' : Shared V E)
      → ◌≡◌ {A = Option (Result VisitError (InitializedModule V E Router) × Shared V E)}
          (some (err x, s))
          (some (err e, s'))
      → x ≡ e
  same_error x e s s' h = ground arith

  same_state :
      (x e : VisitError) (s s' : Shared V E)
      → ◌≡◌ {A = Option (Result VisitError (InitializedModule V E Router) × Shared V E)}
          (some (err x, s))
          (some (err e, s'))
      → s' ≡ s
  same_state x e s s' h = let same : s ≡ s' = cc h in sym same

  walk-err :
      (fuel : ℕ) (root : K) (s s' : Shared V E) (e : VisitError)
      → initialize_module_runtime modules fuel root s ≡ some (err e, s')
      → (w : Walk (Built V E Router)) × (visit_module modules fuel root
            (default (nothing_built modules s))
          ≡ some (err e, w))
        × (s' ≡ w.rest.container)
  unfolding initialize_module_runtime
  walk-err fuel root s s' e h =
      after (visit_module modules fuel root (default (nothing_built modules s))) refl
    where
      after :
          (o : Option (Result VisitError (Unit {0}) × Walk (Built V E Router)))
          → visit_module modules fuel root (default (nothing_built modules s)) ≡ o
          → (w : Walk (Built V E Router)) × (visit_module modules fuel root
                (default (nothing_built modules s))
              ≡ some (err e, w))
            × (s' ≡ w.rest.container)
      after none q = cc (rw (q, initialize_module_runtime) at h)
      after (some (ok _, w)) q = cc (rw (q, initialize_module_runtime) at h)
      after (some (err x, w)) q = (
        w,
        q
            ∙ ap (λ y. some (err y, w))
                (same_error x e w.rest.container s' (rw (q, initialize_module_runtime) at h)),
        same_state x e w.rest.container s' (rw (q, initialize_module_runtime) at h),
      )

  -- An application that fails to initialize has a cycle of imports, which the error names from the root
  -- on, or a module below the root whose registration or whose check of its exports failed with the
  -- error's message, after the turns of all that it imports. The modules before had their turns, each
  -- once and behind its imports, one after another from the container that was given, and the container
  -- is left as the last turn, the failed one included, left it.
  pub initialize-Explained :
      (fuel : ℕ) (root : K) (s s' : Shared V E) (e : VisitError)
      → initialize_module_runtime modules fuel root s ≡ some (err e, s')
      → Explained root s s' e
  unfolding visit_module
  initialize-Explained fuel root s s' (import_cycle names) h =
      let (w, walked, left) = walk-err fuel root s s' (import_cycle names) h in
      (
        visit-IsCycle _ _ _ fuel root (nothing_built modules s) w names walked,
        w.rest,
        (visit-Fails name imports turn fuel root (default (nothing_built modules s)) w).1 names
            walked,
        left,
      )
  initialize-Explained fuel root s s' (failed message) h =
      let (w, walked, left) = walk-err fuel root s s' (failed message) h in
      (
        w.rest,
        (visit-Fails name imports turn fuel root (default (nothing_built modules s)) w).0 message
            walked,
        left,
      )

  -- If the modules of an application have their names in one list and the turn of each of them ends,
  -- the initialization ends, its imports cyclic or not, with fuel above the length of the list.
  pub initialize_ends :
      (names : List String) (fuel : ℕ) (root : K) (s : Shared V E)
      → ((k : K) → contains names (modules k).name ≡ true)
      → ((k : K) (b : Built V E Router) → register_module (modules k) b ≢ none)
      → length names < fuel
      → (r : Result VisitError (InitializedModule V E Router)) × (s' : Shared V E)
        × (initialize_module_runtime modules fuel root s ≡ some (r, s'))
  unfolding visit_module initialize_module_runtime
  initialize_ends names fuel root s named total lt =
      let (r, w, h) =
        visit_ends (λ k. (modules k).name) (λ k. (modules k).imports)
          (λ k. register_module (modules k)) names named total fuel root (nothing_built modules s)
          lt in
      finish r w h
    where
      finish :
          (r : Result VisitError (Unit {0})) (w : Walk (Built V E Router))
          → visit_module modules fuel root (default (nothing_built modules s)) ≡ some (r, w)
          → (r : Result VisitError (InitializedModule V E Router)) × (s' : Shared V E)
            × (initialize_module_runtime modules fuel root s ≡ some (r, s'))
      finish (ok _) w h =
          (ok (initialized modules w.rest), w.rest.container, rw (h, initialize_module_runtime))
      finish (err e) w h = (err e, w.rest.container, rw (h, initialize_module_runtime))
