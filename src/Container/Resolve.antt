-- ===== src/Container/Resolve.antt =====
-- crates/nestforge-core/src/container.rs: `resolve`. A factory may resolve in its turn, so the
-- recursion has fuel, one unit for each factory that runs inside another; `none` is a recursion
-- that goes deeper, which in the program overflows the stack if it never ends.
pub mod Rule
pub mod Frame
pub mod Tags
pub mod Order
pub mod Overridden
pub mod Cache
pub mod Terminates
pub mod Errors
mod Tests
use nestforge.Base.{ℕ, zero, suc, Option, none, some, String, ◌==◌, if◌then◌else◌, Result, ok, err}
use nestforge.Base.Exec.{
  Exec, pure, throw, lift, asks, modify, try, map_error, ◌>>=◌, ◌>>◌, on_option,
}
use nestforge.Container.State.{
  RustType, AnyValue, ContainerError, type_not_registered, downcast_failed, request_factory_failed,
  type_not_registered_in_module, Factory, done, fail, resolving, operating, scoping, asking_name,
  outside, Operation, scoped, is_type_registered_name, StoredFactory, RwLock, read, write, TypeMap,
  Shared, Container,
}
use nestforge.Container.Register.{put_override, apply_operation}

unfoldable pub in_module : String → ContainerError → ContainerError
in_module module_name (type_not_registered name) = type_not_registered_in_module name module_name
in_module module_name other = other

-- `value.downcast::<T>()`.
unfoldable pub downcast : {V : Type 0} → RustType → AnyValue V → Result ContainerError V
downcast t v = if v.type_id == t.id then ok v.content else err (downcast_failed t.type_name)

-- What resolving a type does: it may fail, run out of fuel, and change the state.
abbrev pub Resolver : Type 0 → Type 0 → Type 0
Resolver V E = Container → RustType → Exec (Shared V E) ContainerError V

module _ {V E : Type 0} where
  -- An operation, whose result the factory looks at.
  unfoldable pub operate :
      {F : Type 0} → Operation V E → Exec (Shared V E) F (Result ContainerError (Unit {0}))
  unfolding apply_operation
  operate op s = some (ok (apply_operation op s).0, (apply_operation op s).1)

  -- A factory's closure, run: its value or its message, and the state that it leaves.
  unfoldable pub run_factory : Resolver V E → Factory V E → Exec (Shared V E) String V
  unfolding operate scoped is_type_registered_name
  run_factory r (done v) = pure v
  run_factory r (fail message) = throw message
  run_factory r (resolving c t next) = do res ← try (r c t); run_factory r (next res)
  run_factory r (operating op next) = do res ← operate op; run_factory r (next res)
  run_factory r (scoping c next) = do
    inside ← asks (λ s. ok (scoped c s).1)
    modify (λ s. (scoped c s).0)
    run_factory r (next inside)
  run_factory r (asking_name name next) = do
    res ← asks (λ s. ok (is_type_registered_name name s))
    run_factory r (next res)
  run_factory r (outside change next) = do
    before ← asks (λ s. ok s.outer)
    modify (λ s. record s { outer = change s.outer })
    run_factory r (next before)

  unfoldable pub resolve_from_map :
      RustType
      → (Shared V E → RwLock (TypeMap (AnyValue V)))
      → Exec (Shared V E) ContainerError (Option V)
  unfolding downcast
  resolve_from_map t lock = do
    map ← asks (λ s. read (lock s))
    on_option (map t.id) (pure none) λ value. do typed ← lift (downcast t value); pure (some typed)

  -- The end of `resolve_from_request_factory`: the value is downcast, cached and returned.
  unfoldable pub cache_value :
      Container → RustType → AnyValue V → Exec (Shared V E) ContainerError (Option V)
  unfolding downcast put_override
  cache_value c t value = do
    typed ← lift (downcast t value)
    _ ← asks (λ s. write (s.overrides c.scope))
    modify (put_override c t.id (record { type_id = t.id; content = typed }))
    pure (some typed)

  unfoldable pub resolve_from_request_factory :
      Resolver V E → Container → RustType → Exec (Shared V E) ContainerError (Option V)
  unfolding run_factory cache_value
  resolve_from_request_factory r c t = do
    factories ← asks (λ s. read s.request_factories)
    on_option (factories t.id) (pure none) λ f. do
      value ← map_error (request_factory_failed t.type_name) (run_factory r (f.factory c))
      cache_value c t (record { type_id = f.type_id; content = value })

  unfoldable pub resolve_from_transient_factory :
      Resolver V E → Container → RustType → Exec (Shared V E) ContainerError (Option V)
  unfolding run_factory downcast
  resolve_from_transient_factory r c t = do
    factories ← asks (λ s. read s.transient_factories)
    on_option (factories t.id) (pure none) λ f. do
      value ← map_error (request_factory_failed t.type_name) (run_factory r (f.factory c))
      typed ← lift (downcast t (record { type_id = f.type_id; content = value }))
      pure (some typed)

  -- `if let Some(value) = step? { return Ok(value) }`, and the rest.
  abbrev pub or_else :
      Exec (Shared V E) ContainerError (Option V)
      → Exec (Shared V E) ContainerError V
      → Exec (Shared V E) ContainerError V
  or_else step rest = do o ← step; on_option o rest pure

  -- The four steps of `resolve`, over the resolver that its factories call.
  unfoldable pub resolve_with : Resolver V E → Resolver V E
  unfolding resolve_from_map resolve_from_request_factory resolve_from_transient_factory
  resolve_with r c t = or_else (resolve_from_map t (λ s. s.overrides c.scope)) (
      or_else (resolve_from_map t (λ s. s.inner)) (
        or_else (resolve_from_request_factory r c t) (
          or_else (resolve_from_transient_factory r c t)
            (throw (type_not_registered t.type_name)))))

  unfoldable pub resolve : ℕ → Resolver V E
  unfolding resolve_with
  resolve zero c t s = none
  resolve (suc fuel) c t s = resolve_with (resolve fuel) c t s

  unfoldable pub resolve_in_module :
      ℕ → Container → String → RustType → Exec (Shared V E) ContainerError V
  unfolding in_module resolve
  resolve_in_module fuel c module_name t = map_error (in_module module_name) (resolve fuel c t)
