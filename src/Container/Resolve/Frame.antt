-- ===== src/Container/Resolve/Frame.antt =====
-- What no `resolve` can lose, whatever its factories do.
use nestforge.Base.{
  String, Bool-cases, contains-insert, inl, inr, ℕ, ◌≡◌, ◌<◌, refl, ◌∙◌, true, false, some, Result,
  ◌==◌, arith, contains, ==_iff, subst,
}
use nestforge.Base.Exec.Keeps.{IsPreorder}
use nestforge.Container.State.{
  RustType, AnyValue, StoredFactory, FactoryFn, ContainerError, Shared, Container, Operation,
  registers, replaces, overrides, adds_request_factory, adds_transient_factory, scoped, TypeMap,
  put, contains_key,
}
use nestforge.Container.Register.{
  put_override, apply_operation, register, replace, override_value, register_request_factory,
  register_transient_factory, record_name,
}
use nestforge.Container.Resolve.{resolve}
use nestforge.Container.Resolve.Rule.{Allows, resolve-related}

-- `s'` has all the types, factories, names and scopes of `s`: each factory as it was, each type at some
-- value.
pub record Grows {V E : Type 0} (s s' : Shared V E) : Type 0 where
  pub singletons :
      (k : ℕ) (v : AnyValue V)
      → s.inner.held k ≡ some v
      → (w : AnyValue V) × (s'.inner.held k ≡ some w)
  pub overridden :
      (j k : ℕ) (v : AnyValue V)
      → j < s.scopes
      → (s.overrides j).held k ≡ some v
      → (w : AnyValue V) × ((s'.overrides j).held k ≡ some w)
  pub request_factories :
      (k : ℕ) (f : StoredFactory V E)
      → s.request_factories.held k ≡ some f
      → s'.request_factories.held k ≡ some f
  pub transient_factories :
      (k : ℕ) (f : StoredFactory V E)
      → s.transient_factories.held k ≡ some f
      → s'.transient_factories.held k ≡ some f
  pub names : (n : String) → contains s.names.held n ≡ true → contains s'.names.held n ≡ true
  pub scopes : (j : ℕ) → j < s.scopes → j < s'.scopes

module _ {A : Type 0} where
  put-some :
      (i : ℕ) (x : A) (m : TypeMap A) (k : ℕ) (v : A)
      → m k ≡ some v
      → (w : A) × (put i x m k ≡ some w)
  put-some i x m k v e = elim (Bool-cases (k == i)) [
    | inl here ↦ (x, rw here refl)
    | inr other ↦ (v, rw other e)
  ]

  put_absent :
      (i : ℕ) (x : A) (m : TypeMap A)
      → contains_key m i ≡ false
      → (k : ℕ) (v : A) → m k ≡ some v
      → put i x m k ≡ some v
  put_absent i x m absent k v e = elim (Bool-cases (k == i)) [
    | inl here ↦
        let at_i : m i ≡ some v = subst (λ (n : ℕ). m n ≡ some v) ((==_iff k i).0 here) e in
        cc (rw (at_i, contains_key) at absent)
    | inr other ↦ rw other e
  ]

module _ {V E : Type 0} where
  Grows-order : IsPreorder (Grows {V = V} {E = E})
  Grows-order = record {
    same = λ s. record {
      singletons = λ k v e. (v, e);
      overridden = λ j k v opened e. (v, e);
      request_factories = λ k f e. e;
      transient_factories = λ k f e. e;
      names = λ n e. e;
      scopes = λ j e. e;
    };
    then_by = λ s t u p q. record {
      singletons = λ k v e. let (w, e1) = p.singletons k v e in q.singletons k w e1;
      overridden = λ j k v opened e.
          let (w, e1) = p.overridden j k v opened e in q.overridden j k w (p.scopes j opened) e1;
      request_factories = λ k f e. q.request_factories k f (p.request_factories k f e);
      transient_factories = λ k f e. q.transient_factories k f (p.transient_factories k f e);
      names = λ n e. q.names n (p.names n e);
      scopes = λ j e. q.scopes j (p.scopes j e);
    };
  }

  record_name-Grows : (t : RustType) (s : Shared V E) → Grows s (record_name t s).1
  unfolding record_name
  record_name-Grows t s = elim (Bool-cases s.names.poisoned) [
    | inl poisoned ↦ simp (poisoned, record_name) (Grows-order.same s)
    | inr open_so ↦
        simp (open_so, record_name)
          (record {
            singletons = λ k v e. (v, e);
            overridden = λ j k v opened e. (v, e);
            request_factories = λ k f e. e;
            transient_factories = λ k f e. e;
            names = λ n e. contains-insert t.type_name n s.names.held ∙ ground (arith, e);
            scopes = λ j e. e;
          })
  ]

  put_override-Grows :
      (c : Container) (s : Shared V E) (i : ℕ) (x : AnyValue V) → Grows s (put_override c i x s)
  unfolding put_override
  put_override-Grows c s i x = record {
    singletons = λ k v e. (v, e);
    overridden = λ j k v opened e. elim (Bool-cases (j == c.scope)) [
      | inl here ↦
          rw (here, put_override)
            (put-some i x (s.overrides c.scope).held k v
              (subst (λ (m : ℕ). (s.overrides m).held k ≡ some v) ((==_iff j c.scope).0 here) e))
      | inr other ↦ rw (other, put_override) (v, e)
    ];
    request_factories = λ k f e. e;
    transient_factories = λ k f e. e;
    names = λ n e. e;
    scopes = λ j e. e;
  }

  module _ (t : RustType) (s : Shared V E) where
    -- A new singleton, or a new value of one.
    abbrev insert_singleton : (v : V) → Shared V E
    insert_singleton v = record s {
      inner = record {
        poisoned = false;
        held = put t.id (record { type_id = t.id; content = v }) s.inner.held;
      };
    }

    insert_singleton-Grows : (v : V) → Grows s (record_name t (insert_singleton v)).1
    insert_singleton-Grows v =
        Grows-order.then_by s (insert_singleton v) (record_name t (insert_singleton v)).1
          (record {
            singletons =
                λ k w e. put-some t.id (record { type_id = t.id; content = v }) s.inner.held k w e;
            overridden = λ j k w opened e. (w, e);
            request_factories = λ k f e. e;
            transient_factories = λ k f e. e;
            names = λ n e. e;
            scopes = λ j e. e;
          })
          (record_name-Grows t (insert_singleton v))

  register-Grows : (t : RustType) (v : V) (s : Shared V E) → Grows s (register t v s).1
  unfolding register
  register-Grows t v s = elim (Bool-cases s.inner.poisoned) [
    | inl poisoned ↦ simp (poisoned, register) (Grows-order.same s)
    | inr open_so ↦ elim (Bool-cases (contains_key s.inner.held t.id)) [
      | inl there ↦ simp (open_so, there, register) ((Grows-order.same s))
      | inr absent ↦ simp (open_so, absent, register) ((insert_singleton-Grows t s v))
    ]
  ]

  replace-Grows : (t : RustType) (v : V) (s : Shared V E) → Grows s (replace t v s).1
  unfolding replace
  replace-Grows t v s = elim (Bool-cases s.inner.poisoned) [
    | inl poisoned ↦ simp (poisoned, replace) (Grows-order.same s)
    | inr open_so ↦ simp (open_so, replace) (insert_singleton-Grows t s v)
  ]

  override_value-Grows :
      (c : Container) (t : RustType) (v : V) (s : Shared V E) → Grows s (override_value c t v s).1
  unfolding override_value
  override_value-Grows c t v s = elim (Bool-cases (s.overrides c.scope).poisoned) [
    | inl poisoned ↦ simp (poisoned, override_value) (Grows-order.same s)
    | inr open_so ↦
        simp (open_so, override_value)
          (Grows-order.then_by s _ _
            (put_override-Grows c s t.id (record { type_id = t.id; content = v }))
            (record_name-Grows t _))
  ]

  abbrev insert_request : RustType → FactoryFn V E → Shared V E → Shared V E
  insert_request t f s = record s {
    request_factories = record {
      poisoned = false;
      held = put t.id (record { type_id = t.id; factory = f }) s.request_factories.held;
    };
  }

  register_request_factory-Grows :
      (t : RustType) (f : FactoryFn V E) (s : Shared V E)
      → Grows s (register_request_factory t f s).1
  unfolding register_request_factory
  register_request_factory-Grows t f s = elim (Bool-cases s.request_factories.poisoned) [
    | inl poisoned ↦ simp (poisoned, register_request_factory) (Grows-order.same s)
    | inr open_so ↦ elim (Bool-cases (contains_key s.request_factories.held t.id)) [
      | inl there ↦ simp (open_so, there, register_request_factory) ((Grows-order.same s))
      | inr absent ↦
          simp (open_so, absent, register_request_factory)
            ((Grows-order.then_by s (insert_request t f s) _
              (record {
                singletons = λ k v e. (v, e);
                overridden = λ j k v opened e. (v, e);
                request_factories = λ k g e.
                    put_absent t.id (record { type_id = t.id; factory = f })
                      s.request_factories.held absent k g e;
                transient_factories = λ k g e. e;
                names = λ n e. e;
                scopes = λ j e. e;
              })
              (record_name-Grows t (insert_request t f s))))
    ]
  ]

  abbrev insert_transient : RustType → FactoryFn V E → Shared V E → Shared V E
  insert_transient t f s = record s {
    transient_factories = record {
      poisoned = false;
      held = put t.id (record { type_id = t.id; factory = f }) s.transient_factories.held;
    };
  }

  register_transient_factory-Grows :
      (t : RustType) (f : FactoryFn V E) (s : Shared V E)
      → Grows s (register_transient_factory t f s).1
  unfolding register_transient_factory
  register_transient_factory-Grows t f s = elim (Bool-cases s.transient_factories.poisoned) [
    | inl poisoned ↦ simp (poisoned, register_transient_factory) (Grows-order.same s)
    | inr open_so ↦ elim (Bool-cases (contains_key s.transient_factories.held t.id)) [
      | inl there ↦ simp (open_so, there, register_transient_factory) ((Grows-order.same s))
      | inr absent ↦
          simp (open_so, absent, register_transient_factory)
            ((Grows-order.then_by s (insert_transient t f s) _
              (record {
                singletons = λ k v e. (v, e);
                overridden = λ j k v opened e. (v, e);
                request_factories = λ k g e. e;
                transient_factories = λ k g e.
                    put_absent t.id (record { type_id = t.id; factory = f })
                      s.transient_factories.held absent k g e;
                names = λ n e. e;
                scopes = λ j e. e;
              })
              (record_name-Grows t (insert_transient t f s))))
    ]
  ]

  operation-Grows : (op : Operation V E) (s : Shared V E) → Grows s (apply_operation op s).1
  unfolding apply_operation
  operation-Grows (registers t v) s = register-Grows t v s
  operation-Grows (replaces t v) s = replace-Grows t v s
  operation-Grows (overrides c t v) s = override_value-Grows c t v s
  operation-Grows (adds_request_factory t f) s = register_request_factory-Grows t f s
  operation-Grows (adds_transient_factory t f) s = register_transient_factory-Grows t f s

  scoped-Grows : (c : Container) (s : Shared V E) → Grows s (scoped c s).0
  unfolding scoped
  scoped-Grows c s = record {
    singletons = λ k v e. (v, e);
    overridden = λ j k v opened e.
        let other : (j == s.scopes) ≡ false = ground (arith, ==_iff j s.scopes, opened) in
        rw (other, scoped) (v, e);
    request_factories = λ k f e. e;
    transient_factories = λ k f e. e;
    names = λ n e. e;
    scopes = λ j e. omega (arith, e);
  }

  pub Grows-allowed : Allows (Grows {V = V} {E = E})
  Grows-allowed = record {
    order = Grows-order;
    outer = λ s e. record {
      singletons = λ k v e1. (v, e1);
      overridden = λ j k v opened e1. (v, e1);
      request_factories = λ k f e1. e1;
      transient_factories = λ k f e1. e1;
      names = λ n e1. e1;
      scopes = λ j e1. e1;
    };
    cache = λ c s k v. put_override-Grows c s k (record { type_id = k; content = v });
    operation = operation-Grows;
    scope = scoped-Grows;
  }

  -- Resolving a type, whatever factories run for it, whatever these resolve, register, replace, override
  -- and open, and whether it succeeds or not, loses nothing: every singleton's type and every type that
  -- is overridden in a scope still has a value there, every factory is registered as it was, and names
  -- and scopes are kept.
  pub resolve-Grows :
      (fuel : ℕ) (c : Container) (t : RustType) (s s' : Shared V E) (r : Result ContainerError V)
      → resolve fuel c t s ≡ some (r, s')
      → Grows s s'
  resolve-Grows = resolve-related Grows-allowed
