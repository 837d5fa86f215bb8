-- ===== src/Provider/Tests.antt =====
-- The theorems on providers at concrete inputs.
use nestforge.Base.{ℕ, ◌+◌, ◌≡◌, refl, some, ok}
use nestforge.Base.Exec.{pure, asks, modify, map_error, ◌>>=◌}
use nestforge.Container.State.{RustType, FactoryFn, done, fail, outside, Shared, Container, new}
use nestforge.Container.Register.{register, register_request_factory}
use nestforge.Container.Resolve.{run_factory, resolve}
use nestforge.Provider.{register_provider, with_message, failed_to_build}
use nestforge.Provider.Registration.{resolve-factory_provider}

abbrev counter : RustType
counter = record { id = 3; type_name = "Counter" }

abbrev root : Container
root = record { scope = 0 }

abbrev empty : Shared ℕ ℕ
empty = (new {V = ℕ} {E = ℕ} 0).0

-- A factory that reads and steps an atomic counter.
abbrev counting : FactoryFn ℕ ℕ
counting c = outside (λ n. n + 1) (λ n. done (n + 40))

abbrev counted : Shared ℕ ℕ
counted = (register counter 40 (record empty { outer = 1 })).1

abbrev broken : Shared ℕ ℕ
broken =
    (register_request_factory counter
      (λ d.
        with_message (failed_to_build "Failed to build request-scoped provider" counter)
          (fail "no"))
      empty).1

resolve-factory_provider_example :
    (v : ℕ) × (s1 : Shared ℕ ℕ) × (run_factory (resolve 1) (counting root) empty ≡ some (ok v, s1))
    × (resolve 1 root counter counted ≡ some (ok v, counted))
unfolding register_provider run_factory register new ◌>>=◌ asks modify pure map_error
resolve-factory_provider_example =
    resolve-factory_provider 1 0 root root counter counting empty counted refl refl refl
