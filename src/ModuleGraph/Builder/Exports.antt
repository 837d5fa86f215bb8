-- ===== src/ModuleGraph/Builder/Exports.antt =====
-- A built module that exports what it provides.
use nestforge.Base.{
  ◌≡◌, refl, ap, ◌∙◌, true, some, List, [], ◌∷◌, ◌++◌, String, Result, ok, map_err, All-append,
  All-weaken, contains-insert, contains-insert_self, arith,
}
use nestforge.Base.Exec.{Exec, pure, asks, modify, map_error}
use nestforge.Base.Exec.Invert.{bind-eq-ok, bind-of-ok}
use nestforge.Container.State.{RustType, ContainerError, Shared, to_string, is_type_registered_name}
use nestforge.Container.Register.{register}
use nestforge.Provider.{attempt}
use nestforge.ModuleGraph.ModuleRef.{ModuleRef, dynamic}
use nestforge.ModuleGraph.Runtime.{
  Built, check_exports, extend, register_module, on_container, failed_to_register, failed_to_verify,
}
use nestforge.ModuleGraph.Runtime.Turns.{AllRegistered}
use nestforge.ModuleGraph.Builder.{
  DynamicModuleBuilder, run_steps, provider_value, export_type, register_step, build,
}

module _ {V E : Type 0} where
  run_steps-concat :
      (steps : List (Exec (Shared V E) String (Unit {0})))
      (step : Exec (Shared V E) String (Unit {0})) (s s1 s2 : Shared V E)
      → run_steps steps s ≡ some (ok tt, s1)
      → step s1 ≡ some (ok tt, s2)
      → run_steps (steps ++ step ∷ []) s ≡ some (ok tt, s2)
  unfolding run_steps pure
  run_steps-concat [] step s s1 s2 h k =
      let same : s ≡ s1 = ground arith in bind-of-ok step _ s (rw same k)
  run_steps-concat (x ∷ xs) step s s1 s2 h k =
      let (_, t, first, rest) = bind-eq-ok x _ s h in
      bind-of-ok x _ s first ∙ run_steps-concat xs step t s1 s2 rest k

  -- Registering a type keeps the names that are registered, and adds its own.
  register-names :
      (t : RustType) (v : V) (s s' : Shared V E) (name : String)
      → register t v s ≡ (ok tt, s')
      → is_type_registered_name name s ≡ ok true
      → is_type_registered_name name s' ≡ ok true
  unfolding register is_type_registered_name
  register-names t v s s' name h k = ground (arith, contains-insert t.type_name name s.names.held)

  register-own_name :
      (t : RustType) (v : V) (s s' : Shared V E)
      → register t v s ≡ (ok tt, s')
      → is_type_registered_name t.type_name s' ≡ ok true
  unfolding register is_type_registered_name
  register-own_name t v s s' h = ground (arith, contains-insert_self t.type_name s.names.held)

module _ {V E Router : Type 0} where
  check_exports-of_AllRegistered :
      (name : String) (exports : List String) (b : Built V E Router)
      → AllRegistered b.container exports
      → check_exports name exports b ≡ some (ok tt, b)
  unfolding check_exports pure asks
  check_exports-of_AllRegistered name [] b h = refl
  check_exports-of_AllRegistered name (e ∷ es) b h =
      let asked : asks
            (λ (b : Built V E Router).
              map_err (failed_to_verify name) (is_type_registered_name e b.container))
            b
          ≡ some (ok true, b) =
        simp (h.0, asks) in
      bind-of-ok _ _ b asked ∙ check_exports-of_AllRegistered name es b h.1

  on_container-of_ok :
      (step : Exec (Shared V E) String (Unit {0})) (x : Built V E Router) (s : Shared V E)
      → step x.container ≡ some (ok tt, s)
      → on_container step x ≡ some (ok tt, record x { container = s })
  on_container-of_ok step x s h = rw (h, on_container) refl

  map_error-of_ok :
      (name : String) (step : Exec (Shared V E) String (Unit {0})) (x : Built V E Router)
      (s : Shared V E)
      → step x.container ≡ some (ok tt, s)
      → map_error (failed_to_register name) step x.container ≡ some (ok tt, s)
  unfolding map_error
  map_error-of_ok name step x s h = rw (h, map_error) refl

  registered_in :
      (name : String) (step : Exec (Shared V E) String (Unit {0})) (x : Built V E Router)
      (s : Shared V E)
      → step x.container ≡ some (ok tt, s)
      → on_container (map_error (failed_to_register name) step) x
        ≡ some (ok tt, record x { container = s })
  registered_in name step x s h =
      on_container-of_ok (map_error (failed_to_register name) step) x s
        (map_error-of_ok name step x s h)

module _ {V E Router Doc K : Type 0} where
  -- A module that registers and whose exports are then registered passes.
  register_module-of_ok :
      (m : ModuleRef V E Router Doc K) (x : Built V E Router) (s : Shared V E)
      → m.register x.container ≡ some (ok tt, s)
      → AllRegistered s m.exports
      → register_module m x ≡ some (ok tt, extend m (record x { container = s }))
  unfolding register_module modify
  register_module-of_ok m x s ran listed =
      bind-of-ok (on_container (map_error (failed_to_register m.name) m.register)) _ x
        (registered_in m.name m.register x s ran)
      ∙ bind-of-ok (modify (extend m)) _ (record x { container = s }) refl
      ∙ check_exports-of_AllRegistered m.name m.exports (extend m (record x { container = s }))
          listed

  -- A module whose builder's last steps are to provide a value and to export its type: if the steps
  -- before succeed and leave all other exports registered, and the type is not registered yet, the
  -- module registers and passes the check of its exports.
  pub register_module-export_type :
      (b : DynamicModuleBuilder V E Router Doc K) (t : RustType) (v : V) (x : Built V E Router)
      (s1 s2 : Shared V E)
      → run_steps b.registration_steps x.container ≡ some (ok tt, s1)
      → AllRegistered s1 b.exports
      → register t v s1 ≡ (ok tt, s2)
      → let m = build (export_type t (provider_value t v b)) in
        register_module m x ≡ some (ok tt, extend m (record x { container = s2 }))
  unfolding build export_type provider_value register_step dynamic
  register_module-export_type b t v x s1 s2 ran listed registered =
      let provided : attempt to_string (register t v) s1 ≡ some (ok tt, s2) =
        ap
          (λ (p : Result ContainerError (Unit {0}) × Shared V E). some (map_err to_string p.0, p.1))
          registered in
      let names : AllRegistered s2 (b.exports ++ t.type_name ∷ []) =
        All-append _ b.exports (t.type_name ∷ [])
          (All-weaken (λ name h. register-names t v s1 s2 name registered h) b.exports listed)
          (register-own_name t v s1 s2 registered, tt) in
      register_module-of_ok (build (export_type t (provider_value t v b))) x s2
        (run_steps-concat b.registration_steps (attempt to_string (register t v)) x.container s1 s2
          ran provided)
        names
