-- ===== src/Provider/Registration.antt =====
-- What a registered provider resolves to, and what a failed registration leaves behind.
use nestforge.Base.{
  ℕ, suc, ◌≡◌, refl, ◌∙◌, ap, fun_ext, Option, none, some, String, Result, ok, err, arith, false,
}
use nestforge.Base.Exec.{Exec, pure, throw, asks, modify, try, map_error, ◌>>=◌, on_option}
use nestforge.Base.Exec.Invert.{bind-eq-ok, map_error-eq-ok}
use nestforge.Container.State.{
  RustType, ContainerError, to_string, Factory, done, fail, resolving, operating, scoping,
  asking_name, FactoryFn, scoped, is_type_registered_name, outside, StoredFactory, Shared,
  Container, request_factory_failed, ◌<>◌,
}
use nestforge.Container.Register.{apply_operation, register, register_request_factory}
use nestforge.Container.Resolve.{
  Resolver, operate, run_factory, resolve, resolve_from_map, resolve_from_request_factory,
}
use nestforge.Container.Resolve.Order.{resolve-register, overrides-register}
use nestforge.Provider.{
  factory, request_factory, register_provider, with_message, attempt, failed_to_build,
}

module _ {V E : Type 0} where
  attempt-eq-ok :
      (g : ContainerError → String)
      (op : Shared V E → Result ContainerError (Unit {0}) × Shared V E) (s s' : Shared V E)
      → attempt g op s ≡ some (ok tt, s')
      → op s ≡ (ok tt, s')
  attempt-eq-ok g op s s' h = ground arith

  -- A factory provider that registers has run its factory, and what every scope with no override of
  -- the type, and no poisoned lock on its overrides, then resolves is the value that the run gave.
  pub resolve-factory_provider :
      (fuel again : ℕ) (c d : Container) (t : RustType) (f : FactoryFn V E) (s s' : Shared V E)
      → register_provider fuel c (factory t f) s ≡ some (ok tt, s')
      → (s'.overrides d.scope).poisoned ≡ false
      → (s'.overrides d.scope).held t.id ≡ none
      → (v : V) × (s1 : Shared V E) × (run_factory (resolve fuel) (f c) s ≡ some (ok v, s1))
        × (resolve (suc again) d t s' ≡ some (ok v, s'))
  unfolding register_provider
  resolve-factory_provider fuel again c d t f s s' h p q =
      let (v, s1, ran, registered) = bind-eq-ok _ _ s h in
      let done_so = attempt-eq-ok to_string (register t v) s1 s' registered in
      let kept = overrides-register t v s1 s' (ok tt) done_so in
      (
        v,
        s1,
        map_error-eq-ok _ _ s ran,
        (resolve-register again d t v v s1 s' done_so (rw (← kept) p) (rw (← kept) q)).0,
      )

  map_error-bind-try :
      {A : Type 0} (g : String → String) (m : Exec (Shared V E) ContainerError A)
      (f : Result ContainerError A → Exec (Shared V E) String V) (s : Shared V E)
      → (try m >>= (λ a. map_error g (f a))) s ≡ map_error g (try m >>= f) s
  unfolding ◌>>=◌ try map_error
  map_error-bind-try {A} g m f s = go (m s)
    where
      go :
          (o : Option (Result ContainerError A × Shared V E))
          → (try (λ _. o) >>= (λ a. map_error g (f a))) s ≡ map_error g (try (λ _. o) >>= f) s
      go none = refl
      go (some (r, s1)) = refl

  outside_step :
      (r : Resolver V E) (g : String → String) (change : E → E) (next : E → Factory V E)
      (s : Shared V E)
      → run_factory r (with_message g (next s.outer)) (record s { outer = change s.outer })
        ≡ map_error g (run_factory r (next s.outer)) (record s { outer = change s.outer })
      → run_factory r (with_message g (outside change next)) s
        ≡ map_error g (run_factory r (outside change next)) s
  unfolding run_factory with_message map_error ◌>>=◌ asks modify
  outside_step r g change next s h = h

  -- A factory wrapped so as to change its message differs from it in the message alone.
  run_factory-with_message :
      (r : Resolver V E) (g : String → String) (f : Factory V E) (s : Shared V E)
      → run_factory r (with_message g f) s ≡ map_error g (run_factory r f) s
  unfolding run_factory operate with_message map_error throw pure ◌>>=◌ asks modify
  run_factory-with_message r g (done v) s = refl
  run_factory-with_message r g (fail m) s = refl
  run_factory-with_message r g (operating op next) s =
      run_factory-with_message r g (next (apply_operation op s).0) (apply_operation op s).1
  run_factory-with_message r g (scoping c next) s =
      run_factory-with_message r g (next (scoped c s).1) (scoped c s).0
  run_factory-with_message r g (asking_name name next) s =
      run_factory-with_message r g (next (is_type_registered_name name s)) s
  run_factory-with_message r g (resolving c t next) s =
      ap (λ (k : Result ContainerError V → Exec (Shared V E) String V). (try (r c t) >>= k) s)
        (fun_ext λ res. fun_ext λ s1. run_factory-with_message r g (next res) s1)
      ∙ map_error-bind-try g (r c t) (λ res. run_factory r (next res)) s
  run_factory-with_message r g (outside change next) s =
      outside_step r g change next s
        (run_factory-with_message r g (next s.outer) (record s { outer = change s.outer }))

  registered_request_factory :
      (t : RustType) (f : FactoryFn V E) (s s1 : Shared V E)
      → register_request_factory t f s ≡ (ok tt, s1)
      → (s1.request_factories.poisoned ≡ false)
        × (s1.request_factories.held t.id ≡ some (record { type_id = t.id; factory = f }))
  unfolding register_request_factory
  registered_request_factory t f s s1 h = ground arith

  failing_factory :
      (r : Resolver V E) (g : String → String) (f : Factory V E) (s s' : Shared V E) (m : String)
      → run_factory r f s ≡ some (err m, s')
      → run_factory r (with_message g f) s ≡ some (err (g m), s')
  unfolding map_error
  failing_factory r g f s s' m h = run_factory-with_message r g f s ∙ rw (h, map_error)

  resolve-failing_factory :
      (fuel : ℕ) (c : Container) (t : RustType) (f : StoredFactory V E) (s s' : Shared V E)
      (m : String)
      → s.inner.poisoned ≡ false
      → s.inner.held t.id ≡ none
      → (s.overrides c.scope).poisoned ≡ false
      → (s.overrides c.scope).held t.id ≡ none
      → s.request_factories.poisoned ≡ false
      → s.request_factories.held t.id ≡ some f
      → run_factory (resolve fuel) (f.factory c) s ≡ some (err m, s')
      → resolve (suc fuel) c t s ≡ some (err (request_factory_failed t.type_name m), s')
  unfolding resolve resolve_from_map resolve_from_request_factory ◌>>=◌ asks pure on_option
      map_error
  resolve-failing_factory fuel c t f s s' m p1 h1 p2 h2 p3 h3 ran = ground arith

  -- A request-scoped provider whose factory fails: `resolve` says which provider was to be built.
  -- The type stands in no other map, and no lock is poisoned.
  pub request_provider_fails :
      (fuel : ℕ) (c : Container) (t : RustType) (f : FactoryFn V E) (s s1 s2 : Shared V E)
      (message : String)
      → register_provider fuel c (request_factory t f) s ≡ some (ok tt, s1)
      → s1.inner.poisoned ≡ false
      → s1.inner.held t.id ≡ none
      → (s1.overrides c.scope).poisoned ≡ false
      → (s1.overrides c.scope).held t.id ≡ none
      → run_factory (resolve fuel) (f c) s1 ≡ some (err message, s2)
      → resolve (suc fuel) c t s1
        ≡ some (
          err (
              request_factory_failed t.type_name
                (failed_to_build "Failed to build request-scoped provider" t message)),
          s2,
        )
  unfolding register_provider
  request_provider_fails fuel c t f s s1 s2 message h p1 h1 p2 h2 ran =
      let wrap = failed_to_build "Failed to build request-scoped provider" t in
      let (p3, h3) =
        registered_request_factory t (λ d. with_message wrap (f d)) s s1
          (attempt-eq-ok (λ e. "Failed to register request-scoped provider: " <> to_string e)
            (register_request_factory t (λ d. with_message wrap (f d))) s s1 h) in
      resolve-failing_factory fuel c t _ s1 s2 (wrap message) p1 h1 p2 h2 p3 h3
        (failing_factory (resolve fuel) wrap (f c) s1 s2 message ran)
