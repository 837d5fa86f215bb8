-- ===== src/Testing/Tests.antt =====
-- A testing module at a concrete input: values are numbers, and the state outside the container counts.
use nestforge.Base.{◌≡◌, refl, ◌+◌, ℕ, some, [], ◌∷◌, ok, contains, insert, remove}
use nestforge.Base.Exec.{pure, throw, asks, modify, map_error, ◌>>=◌}
use nestforge.Container.State.{RustType, Shared, Container, new, is_type_registered_name}
use nestforge.Container.Register.{override_value, record_name, put_override}
use nestforge.ModuleGraph.ModuleRef.{ModuleRef, LifecycleHook, dynamic}
use nestforge.ModuleGraph.Walk.{visit, explore, visit_all}
use nestforge.ModuleGraph.Runtime.{
  visit_module, initialize_module_runtime, run_lifecycle_hooks, register_module, check_exports,
}
use nestforge.Testing.{
  TestFactory, TestingModule, override_provider, apply_overrides, initialize_and_boot, build_test,
}
use nestforge.Testing.Overridden.{Built, build_test-Built}

abbrev config : RustType
config = record { id = 7; type_name = "AppConfig" }

-- Two overrides of a type, the second in place of the first.
abbrev overrides : TestFactory ℕ
overrides = override_provider config 2 (override_provider config 1 [])

abbrev counting : ℕ → LifecycleHook ℕ ℕ
counting n = modify (λ s. record s { outer = s.outer + n })

abbrev one_module : ℕ → ModuleRef ℕ ℕ ℕ ℕ ℕ
one_module key = record (dynamic "App" (pure tt)) {
  on_module_init = counting 1 ∷ [];
  on_application_bootstrap = counting 10 ∷ [];
}

abbrev root : Container
root = (new {V = ℕ} {E = ℕ} 0).1

abbrev overridden : Shared ℕ ℕ
overridden = (override_value root config 2 (override_value root config 1 (new 0).0).1).1

abbrev built : TestingModule ℕ ℕ ℕ
built = record {
  container = root;
  runtime = record {
    controllers = [];
    module_init_hooks = counting 1 ∷ [];
    module_destroy_hooks = [];
    application_bootstrap_hooks = counting 10 ∷ [];
    application_shutdown_hooks = [];
  };
}

builds : build_test one_module 2 overrides 0 0 ≡ some (ok built, record overridden { outer = 11 })
unfolding build_test initialize_and_boot apply_overrides override_provider override_value
    put_override record_name initialize_module_runtime visit_module visit explore visit_all
    register_module check_exports new is_type_registered_name dynamic pure throw asks modify
    map_error ◌>>=◌ contains insert remove run_lifecycle_hooks
builds = refl

build_test-Built_example : Built one_module overrides 2 0 built (record overridden { outer = 11 })
build_test-Built_example =
    build_test-Built one_module overrides 2 0 0 built (record overridden { outer = 11 }) builds
