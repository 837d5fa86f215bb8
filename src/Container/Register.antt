-- ===== src/Container/Register.antt =====
-- crates/nestforge-core/src/container.rs: `register`, `replace`, `override_value` and the
-- registration of factories. Each returns its result and the new state; a failed one may have
-- changed the state, as the code does where the lock on the names is poisoned.
use nestforge.Base.{ℕ, false, ◌==◌, if◌then◌else◌, Result, ok, err, insert}
use nestforge.Container.State.{
  RustType, AnyValue, ContainerError, type_already_registered, FactoryFn, Operation, registers,
  replaces, overrides, adds_request_factory, adds_transient_factory, write, put, contains_key,
  Shared, Container,
}

module _ {V E : Type 0} where
  -- The end of every registration: `names.write()?.insert(type_name)`.
  unfoldable pub record_name : RustType → Shared V E → Result ContainerError (Unit {0}) × Shared V E
  record_name t s = elim (write s.names) [
    | err e ↦ (err e, s)
    | ok names ↦
        (ok tt, record s { names = record { poisoned = false; held = insert t.type_name names } })
  ]

  unfoldable pub register :
      RustType → V → Shared V E → Result ContainerError (Unit {0}) × Shared V E
  unfolding record_name
  register t value s = elim (write s.inner) [
    | err e ↦ (err e, s)
    | ok map ↦
        if contains_key map t.id
        then (err (type_already_registered t.type_name), s)
        else record_name t (record s {
          inner = record {
            poisoned = false;
            held = put t.id (record { type_id = t.id; content = value }) map;
          };
        })
  ]

  unfoldable pub replace : RustType → V → Shared V E → Result ContainerError (Unit {0}) × Shared V E
  unfolding record_name
  replace t value s = elim (write s.inner) [
    | err e ↦ (err e, s)
    | ok map ↦ record_name t (record s {
      inner = record {
        poisoned = false;
        held = put t.id (record { type_id = t.id; content = value }) map;
      };
    })
  ]

  -- A write to the override map of one scope.
  unfoldable pub put_override : Container → ℕ → AnyValue V → Shared V E → Shared V E
  put_override c k v s = record s {
    overrides = λ j.
        if j == c.scope
        then record { poisoned = false; held = put k v (s.overrides c.scope).held }
        else s.overrides j;
  }

  unfoldable pub override_value :
      Container → RustType → V → Shared V E → Result ContainerError (Unit {0}) × Shared V E
  unfolding record_name put_override
  override_value c t value s = elim (write (s.overrides c.scope)) [
    | err e ↦ (err e, s)
    | ok _ ↦ record_name t (put_override c t.id (record { type_id = t.id; content = value }) s)
  ]

  unfoldable pub register_request_factory :
      RustType → FactoryFn V E → Shared V E → Result ContainerError (Unit {0}) × Shared V E
  unfolding record_name
  register_request_factory t f s = elim (write s.request_factories) [
    | err e ↦ (err e, s)
    | ok factories ↦
        if contains_key factories t.id
        then (err (type_already_registered t.type_name), s)
        else record_name t (record s {
          request_factories = record {
            poisoned = false;
            held = put t.id (record { type_id = t.id; factory = f }) factories;
          };
        })
  ]

  unfoldable pub register_transient_factory :
      RustType → FactoryFn V E → Shared V E → Result ContainerError (Unit {0}) × Shared V E
  unfolding record_name
  register_transient_factory t f s = elim (write s.transient_factories) [
    | err e ↦ (err e, s)
    | ok factories ↦
        if contains_key factories t.id
        then (err (type_already_registered t.type_name), s)
        else record_name t (record s {
          transient_factories = record {
            poisoned = false;
            held = put t.id (record { type_id = t.id; factory = f }) factories;
          };
        })
  ]

  -- An operation that a factory makes.
  unfoldable pub apply_operation :
      Operation V E → Shared V E → Result ContainerError (Unit {0}) × Shared V E
  unfolding register replace override_value register_request_factory register_transient_factory
  apply_operation (registers t v) s = register t v s
  apply_operation (replaces t v) s = replace t v s
  apply_operation (overrides c t v) s = override_value c t v s
  apply_operation (adds_request_factory t f) s = register_request_factory t f s
  apply_operation (adds_transient_factory t f) s = register_transient_factory t f s
