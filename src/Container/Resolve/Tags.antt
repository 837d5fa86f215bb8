-- ===== src/Container/Resolve/Tags.antt =====
-- Every stored value and factory stands at the type that it was made at, so no downcast fails.
use nestforge.Base.{ℕ, ◌≡◌, some, Result, arith}
use nestforge.Container.State.{
  RustType, AnyValue, ContainerError, StoredFactory, Operation, registers, replaces, overrides,
  adds_request_factory, adds_transient_factory, Shared, Container, new, scoped,
}
use nestforge.Container.Register.{
  register, replace, override_value, register_request_factory, register_transient_factory,
  put_override, apply_operation,
}
use nestforge.Container.Resolve.{resolve}
use nestforge.Container.Resolve.Rule.{Allows, resolve-related}

pub record IsTagged {V E : Type 0} (s : Shared V E) : Type 0 where
  pub inner : (k : ℕ) (v : AnyValue V) → s.inner.held k ≡ some v → v.type_id ≡ k
  pub overrides : (j k : ℕ) (v : AnyValue V) → (s.overrides j).held k ≡ some v → v.type_id ≡ k
  pub request_factories :
      (k : ℕ) (f : StoredFactory V E) → s.request_factories.held k ≡ some f → f.type_id ≡ k
  pub transient_factories :
      (k : ℕ) (f : StoredFactory V E) → s.transient_factories.held k ≡ some f → f.type_id ≡ k

module _ {V E : Type 0} where
  -- The operations of a container, as the steps that a program can make it take.
  pub data Step : Shared V E → Shared V E → Type 0 where
    operates : (op : Operation V E) (s : Shared V E) → Step s (apply_operation op s).1
    opens_scope : (c : Container) (s : Shared V E) → Step s (scoped c s).0
    resolves :
        (fuel : ℕ) (c : Container) (t : RustType) (s s' : Shared V E) (r : Result ContainerError V)
        → resolve fuel c t s ≡ some (r, s')
        → Step s s'

  -- What a program can bring a new container to.
  pub data Reachable : Shared V E → Type 0 where
    start : (e : E) → Reachable (new e).0
    step : {s s' : Shared V E} → Reachable s → Step s s' → Reachable s'

  put_override-IsTagged :
      (c : Container) (s : Shared V E) (k : ℕ) (v : V)
      → IsTagged s
      → IsTagged (put_override c k (record { type_id = k; content = v }) s)
  unfolding put_override
  put_override-IsTagged c s k v h = record {
    inner = h.inner;
    overrides = λ j i w e. ground (arith, h.overrides j i w, h.overrides c.scope i w);
    request_factories = h.request_factories;
    transient_factories = h.transient_factories;
  }

  apply_operation-IsTagged :
      (op : Operation V E) (s : Shared V E) → IsTagged s → IsTagged (apply_operation op s).1
  unfolding apply_operation register replace override_value register_request_factory
      register_transient_factory
  apply_operation-IsTagged (registers t v) s h = record {
    inner = λ k w e. ground (arith, h.inner k w);
    overrides = λ j k w e. ground (arith, h.overrides j k w);
    request_factories = λ k f e. ground (arith, h.request_factories k f);
    transient_factories = λ k f e. ground (arith, h.transient_factories k f);
  }
  apply_operation-IsTagged (replaces t v) s h = record {
    inner = λ k w e. ground (arith, h.inner k w);
    overrides = λ j k w e. ground (arith, h.overrides j k w);
    request_factories = λ k f e. ground (arith, h.request_factories k f);
    transient_factories = λ k f e. ground (arith, h.transient_factories k f);
  }
  apply_operation-IsTagged (overrides c t v) s h = record {
    inner = λ k w e. ground (arith, h.inner k w);
    overrides = λ j k w e. ground (arith, h.overrides j k w, h.overrides c.scope k w);
    request_factories = λ k f e. ground (arith, h.request_factories k f);
    transient_factories = λ k f e. ground (arith, h.transient_factories k f);
  }
  apply_operation-IsTagged (adds_request_factory t g) s h = record {
    inner = λ k w e. ground (arith, h.inner k w);
    overrides = λ j k w e. ground (arith, h.overrides j k w);
    request_factories = λ k f e. ground (arith, h.request_factories k f);
    transient_factories = λ k f e. ground (arith, h.transient_factories k f);
  }
  apply_operation-IsTagged (adds_transient_factory t g) s h = record {
    inner = λ k w e. ground (arith, h.inner k w);
    overrides = λ j k w e. ground (arith, h.overrides j k w);
    request_factories = λ k f e. ground (arith, h.request_factories k f);
    transient_factories = λ k f e. ground (arith, h.transient_factories k f);
  }

  scoped-IsTagged : (c : Container) (s : Shared V E) → IsTagged s → IsTagged (scoped c s).0
  unfolding scoped
  scoped-IsTagged c s h = record {
    inner = h.inner;
    overrides = λ j k w e. ground (arith, h.overrides j k w);
    request_factories = h.request_factories;
    transient_factories = h.transient_factories;
  }

  IsTagged-allowed : Allows (λ (s s' : Shared V E). IsTagged s → IsTagged s')
  IsTagged-allowed = record {
    order = record { same = λ s h. h; then_by = λ s t u f g h. g (f h) };
    outer = λ s e h. record {
      inner = h.inner;
      overrides = h.overrides;
      request_factories = h.request_factories;
      transient_factories = h.transient_factories;
    };
    cache = put_override-IsTagged;
    operation = apply_operation-IsTagged;
    scope = scoped-IsTagged;
  }

  Step-IsTagged : {s s' : Shared V E} → Step s s' → IsTagged s → IsTagged s'
  Step-IsTagged (operates op s) h = apply_operation-IsTagged op s h
  Step-IsTagged (opens_scope c s) h = scoped-IsTagged c s h
  Step-IsTagged (resolves fuel c t s s' r e) h =
      resolve-related IsTagged-allowed fuel c t s s' r e h

  -- Whatever operations a program makes, in whatever order and scopes, each value and each factory
  -- of its container stands at the type that it was made at.
  pub Reachable-IsTagged : {s : Shared V E} → Reachable s → IsTagged s
  unfolding new
  Reachable-IsTagged (start e) = record {
    inner = λ k v h. cc;
    overrides = λ j k v h. cc;
    request_factories = λ k f h. cc;
    transient_factories = λ k f h. cc;
  }
  Reachable-IsTagged (step r st) = Step-IsTagged st (Reachable-IsTagged r)
