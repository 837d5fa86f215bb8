-- ===== src/Container/Resolve/Rule.antt =====
-- The rule by which a relation between states is shown to hold across every `resolve`.
use nestforge.Base.{ℕ, zero, suc, ◌≡◌, some, Result}
use nestforge.Base.Exec.Keeps.{
  Keeps, IsPreorder, Keeps-asks, Keeps-bind, Keeps-modify, Keeps-try, Keeps-pure, Keeps-throw,
  keeps_rules,
}
use nestforge.Container.State.{
  RustType, AnyValue, ContainerError, Factory, done, fail, resolving, operating, scoping,
  asking_name, outside, Operation, scoped, Shared, Container, RwLock, TypeMap,
}
use nestforge.Container.Register.{put_override, apply_operation}
use nestforge.Container.Resolve.{
  Resolver, operate, run_factory, cache_value, resolve_from_map, resolve_from_request_factory,
  resolve_from_transient_factory, resolve_with, resolve,
}

-- What is enough for a relation to hold across every `resolve`: the outside world may change, a value
-- may be cached at its own type in any scope, and factories may operate on the container.
pub record Allows {V E : Type 0} (R : Shared V E → Shared V E → Type 0) : Type 0 where
  pub order : IsPreorder R
  pub outer : (s : Shared V E) (e : E) → R s (record s { outer = e })
  pub cache :
      (c : Container) (s : Shared V E) (k : ℕ) (v : V)
      → R s (put_override c k (record { type_id = k; content = v }) s)
  pub operation : (op : Operation V E) (s : Shared V E) → R s (apply_operation op s).1
  pub scope : (c : Container) (s : Shared V E) → R s (scoped c s).0

module _ {V E : Type 0} {R : Shared V E → Shared V E → Type 0} (a : Allows R) where
  open a use {order}

  operate-Keeps : {F : Type 0} (op : Operation V E) → Keeps {E = F} R (operate op)
  unfolding operate
  operate-Keeps op = record { at = a.operation op }

  run_factory-Keeps :
      (r : Resolver V E)
      → ((c : Container) (t : RustType) → Keeps R (r c t))
      → (f : Factory V E) → Keeps R (run_factory r f)
  unfolding run_factory
  run_factory-Keeps r k (done v) = Keeps-pure order v
  run_factory-Keeps r k (fail m) = Keeps-throw order m
  run_factory-Keeps r k (operating op next) =
      Keeps-bind order _ _ (operate-Keeps op) (λ res. run_factory-Keeps r k (next res))
  run_factory-Keeps r k (scoping c next) = Keeps-bind order _ _ (Keeps-asks order _) λ inside.
      Keeps-bind order _ _ (Keeps-modify _ (a.scope c)) λ _. run_factory-Keeps r k (next inside)
  run_factory-Keeps r k (asking_name name next) =
      Keeps-bind order _ _ (Keeps-asks order _) (λ res. run_factory-Keeps r k (next res))
  run_factory-Keeps r k (resolving c t next) =
      Keeps-bind order _ _ (Keeps-try (r c t) (k c t)) (λ res. run_factory-Keeps r k (next res))
  run_factory-Keeps r k (outside change next) = Keeps-bind order _ _ (Keeps-asks order _) λ e.
      Keeps-bind order _ _ (Keeps-modify _ (λ s. a.outer s _)) λ _. run_factory-Keeps r k (next e)

  resolve_from_map-Keeps :
      (t : RustType) (lock : Shared V E → RwLock (TypeMap (AnyValue V)))
      → Keeps R (resolve_from_map t lock)
  unfolding resolve_from_map
  resolve_from_map-Keeps t lock = search (order, keeps_rules)

  cache_value-Keeps : (c : Container) (t : RustType) (v : AnyValue V) → Keeps R (cache_value c t v)
  unfolding cache_value
  cache_value-Keeps c t v = search (order, keeps_rules, a.cache c)

  resolve_from_request_factory-Keeps :
      (r : Resolver V E)
      → ((c : Container) (t : RustType) → Keeps R (r c t))
      → (c : Container) (t : RustType) → Keeps R (resolve_from_request_factory r c t)
  unfolding resolve_from_request_factory
  resolve_from_request_factory-Keeps r k c t =
      search (order, keeps_rules, run_factory-Keeps r k, cache_value-Keeps) depth 7

  resolve_from_transient_factory-Keeps :
      (r : Resolver V E)
      → ((c : Container) (t : RustType) → Keeps R (r c t))
      → (c : Container) (t : RustType) → Keeps R (resolve_from_transient_factory r c t)
  unfolding resolve_from_transient_factory
  resolve_from_transient_factory-Keeps r k c t =
      search (order, keeps_rules, run_factory-Keeps r k) depth 7

  resolve_with-Keeps :
      (r : Resolver V E)
      → ((c : Container) (t : RustType) → Keeps R (r c t))
      → (c : Container) (t : RustType) → Keeps R (resolve_with r c t)
  unfolding resolve_with
  resolve_with-Keeps r k c t =
      search
        (
          order,
          keeps_rules,
          resolve_from_map-Keeps,
          resolve_from_request_factory-Keeps r k,
          resolve_from_transient_factory-Keeps r k,
        )
        depth 12

  pub resolve-Keeps : (fuel : ℕ) (c : Container) (t : RustType) → Keeps R (resolve fuel c t)
  unfolding resolve
  resolve-Keeps zero c t = record { at = λ s. tt }
  resolve-Keeps (suc fuel) c t = resolve_with-Keeps (resolve fuel) (resolve-Keeps fuel) c t

  -- The rule, where the outcome is known.
  pub resolve-related :
      (fuel : ℕ) (c : Container) (t : RustType) (s s' : Shared V E) (r : Result ContainerError V)
      → resolve fuel c t s ≡ some (r, s')
      → R s s'
  resolve-related fuel c t s s' r h = rw h at ((resolve-Keeps fuel c t).at s)
