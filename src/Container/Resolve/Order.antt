-- ===== src/Container/Resolve/Order.antt =====
-- The order in which `resolve` looks, and what it returns at each place.
use nestforge.Base.{ℕ, suc, ◌≡◌, true, false, none, some, Result, ok, err, arith}
use nestforge.Base.Exec.{pure, lift, asks, ◌>>=◌, on_option}
use nestforge.Container.State.{
  RustType, AnyValue, ContainerError, RwLock, TypeMap, Shared, Container, write_lock_poisoned,
  type_already_registered,
}
use nestforge.Container.Register.{register, override_value}
use nestforge.Container.Resolve.{resolve_from_map, resolve}

module _ {V E : Type 0} where
  pub resolve_from_map-found :
      (t : RustType) (lock : Shared V E → RwLock (TypeMap (AnyValue V))) (s : Shared V E)
      (v : AnyValue V)
      → (lock s).poisoned ≡ false
      → (lock s).held t.id ≡ some v
      → v.type_id ≡ t.id
      → resolve_from_map t lock s ≡ some (ok (some v.content), s)
  unfolding resolve_from_map ◌>>=◌ asks lift pure on_option
  resolve_from_map-found t lock s v p h e = ground arith

  pub resolve_from_map-absent :
      (t : RustType) (lock : Shared V E → RwLock (TypeMap (AnyValue V))) (s : Shared V E)
      → (lock s).poisoned ≡ false
      → (lock s).held t.id ≡ none
      → resolve_from_map t lock s ≡ some (ok none, s)
  unfolding resolve_from_map ◌>>=◌ asks lift pure on_option
  resolve_from_map-absent t lock s p h = ground arith

  -- A value that has been overridden is what its scope resolves, whatever singletons and factories
  -- the type has, and the resolution changes nothing.
  pub resolve-override_value :
      (fuel : ℕ) (c : Container) (t : RustType) (v : V) (s s' : Shared V E)
      → override_value c t v s ≡ (ok tt, s')
      → resolve (suc fuel) c t s' ≡ some (ok v, s')
  unfolding resolve override_value resolve_from_map ◌>>=◌ asks lift pure on_option
  resolve-override_value fuel c t v s s' h = ground arith

  -- A singleton that has been registered is what every scope resolves that has no override of its
  -- type and no poisoned lock on its overrides, and a second registration of the type is refused
  -- and changes nothing.
  pub resolve-register :
      (fuel : ℕ) (c : Container) (t : RustType) (v w : V) (s s' : Shared V E)
      → register t v s ≡ (ok tt, s')
      → (s.overrides c.scope).poisoned ≡ false
      → (s.overrides c.scope).held t.id ≡ none
      → (resolve (suc fuel) c t s' ≡ some (ok v, s'))
        × (register t w s' ≡ (err (type_already_registered t.type_name), s'))
  unfolding resolve register resolve_from_map ◌>>=◌ asks lift pure on_option
  resolve-register fuel c t v w s s' h p q = ground arith

  -- Registering a singleton changes no override.
  pub overrides-register :
      (t : RustType) (v : V) (s s' : Shared V E) (r : Result ContainerError (Unit {0}))
      → register t v s ≡ (r, s')
      → s'.overrides ≡ s.overrides
  unfolding register
  overrides-register t v s s' r h = ground arith

  -- Where the lock on the names is poisoned and no other, `register` of a new type reports a failure
  -- although it has put the value in: the type resolves to it in a scope that does not override it,
  -- and a second `register` finds it registered.
  pub register_poisoned_names :
      (fuel : ℕ) (c : Container) (t : RustType) (v w : V) (s : Shared V E)
      → s.inner.poisoned ≡ false
      → s.inner.held t.id ≡ none
      → s.names.poisoned ≡ true
      → (s.overrides c.scope).poisoned ≡ false
      → (s.overrides c.scope).held t.id ≡ none
      → ((register t v s).0 ≡ err write_lock_poisoned)
        × (resolve (suc fuel) c t (register t v s).1 ≡ some (ok v, (register t v s).1))
        × ((register t w (register t v s).1).0 ≡ err (type_already_registered t.type_name))
  unfolding resolve register resolve_from_map ◌>>=◌ asks lift pure on_option
  register_poisoned_names fuel c t v w s p1 h1 p2 p3 h3 = ground arith
