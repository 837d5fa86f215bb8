-- ===== src/Provider.antt =====
-- crates/nestforge-core/src/provider.rs: the four kinds of provider, and how each registers itself.
pub mod Registration
mod Tests
use nestforge.Base.{ℕ, String, Result, ok, err, map_err, some}
use nestforge.Base.Exec.{Exec, pure, throw, lift, asks, modify, map_error, ◌>>=◌}
use nestforge.Container.State.{
  RustType, ContainerError, to_string, Factory, done, fail, resolving, operating, scoping,
  asking_name, FactoryFn, outside, Shared, Container, ◌<>◌,
}
use nestforge.Container.Register.{register, register_request_factory, register_transient_factory}
use nestforge.Container.Resolve.{run_factory, resolve}

-- What `Provider::value`, `factory`, `request_factory` and `transient_factory` make, at a type `T`.
pub data Provider (V E : Type 0) : Type 0 where
  value : RustType → V → Provider V E
  factory request_factory transient_factory : RustType → FactoryFn V E → Provider V E

-- `factory(container).map_err(..)`, with the message that the wrapping closure gives.
unfoldable pub with_message : {V E : Type 0} → (String → String) → Factory V E → Factory V E
with_message g (done v) = done v
with_message g (fail message) = fail (g message)
with_message g (resolving c t next) = resolving c t (λ res. with_message g (next res))
with_message g (operating op next) = operating op (λ res. with_message g (next res))
with_message g (scoping c next) = scoping c (λ inside. with_message g (next inside))
with_message g (asking_name name next) = asking_name name (λ res. with_message g (next res))
with_message g (outside change next) = outside change (λ e. with_message g (next e))

abbrev pub failed_to_build : String → RustType → String → String
failed_to_build what t message = what <> " `" <> t.type_name <> "`: " <> message

module _ {V E : Type 0} where
  -- An operation of the container, whose error becomes an `anyhow::Error` by `?`.
  abbrev pub attempt :
      (ContainerError → String)
      → (Shared V E → Result ContainerError (Unit {0}) × Shared V E)
      → Exec (Shared V E) String (Unit {0})
  attempt g op s = some (map_err g (op s).0, (op s).1)

  -- `RegisterProvider::register` of each kind; the factory of a `FactoryProvider` runs here, with
  -- the fuel that its `resolve`s are given.
  unfoldable pub register_provider :
      ℕ → Container → Provider V E → Exec (Shared V E) String (Unit {0})
  unfolding with_message
  register_provider fuel c (value t v) = attempt to_string (register t v)
  register_provider fuel c (factory t f) = do
    v ← map_error (failed_to_build "Failed to build provider" t) (run_factory (resolve fuel) (f c))
    attempt to_string (register t v)
  register_provider fuel c (request_factory t f) =
      attempt (λ e. "Failed to register request-scoped provider: " <> to_string e)
        (register_request_factory t
          (λ d. with_message (failed_to_build "Failed to build request-scoped provider" t) (f d)))
  register_provider fuel c (transient_factory t f) =
      attempt (λ e. "Failed to register transient provider: " <> to_string e)
        (register_transient_factory t
          (λ d. with_message (failed_to_build "Failed to build transient provider" t) (f d)))
