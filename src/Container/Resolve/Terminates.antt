-- ===== src/Container/Resolve/Terminates.antt =====
-- When `resolve` comes to an end, and when it does not.
use nestforge.Base.{ℕ, zero, suc, ◌<◌, ◌≡◌, refl, Bool, Option, none, some, Result, arith}
use nestforge.Base.Exec.Total.{
  Total, EndsIn, Total-pure, Total-throw, Total-asks, Total-modify, Total-try, Total-map_error,
  Total-on_option, Total-bind, Total-bind-asks, total_rules,
}
use nestforge.Container.Register.{
  put_override, apply_operation, register, replace, override_value, record_name,
}
use nestforge.Container.State.{
  RustType, AnyValue, ContainerError, Factory, done, fail, resolving, operating, scoping,
  asking_name, outside, Operation, registers, replaces, overrides, adds_request_factory,
  adds_transient_factory, scoped, StoredFactory, RwLock, TypeMap, Shared, Container,
}
use nestforge.Container.Resolve.{
  Resolver, operate, run_factory, cache_value, resolve_from_map, resolve_from_request_factory,
  resolve_from_transient_factory, resolve_with, resolve,
}

module _ {V E : Type 0} where
  -- The operation registers no factory.
  abbrev pub IsFactoryFree : Operation V E → Type 0
  IsFactoryFree (registers t v) = Unit
  IsFactoryFree (replaces t v) = Unit
  IsFactoryFree (overrides c t v) = Unit
  IsFactoryFree (adds_request_factory t f) = ¬ Unit {0}
  IsFactoryFree (adds_transient_factory t f) = ¬ Unit {0}

  -- Whatever a factory is answered, it asks for types of a rank below `n` alone, and registers no
  -- factory.
  abbrev pub AsksBelow : (ℕ → ℕ) → ℕ → Factory V E → Type 0
  AsksBelow rank n (done v) = Unit
  AsksBelow rank n (fail m) = Unit
  AsksBelow rank n (operating op next) =
      IsFactoryFree op × ((res : Result ContainerError (Unit {0})) → AsksBelow rank n (next res))
  AsksBelow rank n (scoping c next) = (inside : Container) → AsksBelow rank n (next inside)
  AsksBelow rank n (asking_name name next) =
      (res : Result ContainerError Bool) → AsksBelow rank n (next res)
  AsksBelow rank n (resolving c t next) =
      (rank t.id < n) × ((res : Result ContainerError V) → AsksBelow rank n (next res))
  AsksBelow rank n (outside change next) = (e : E) → AsksBelow rank n (next e)

  -- The factories of a container depend on one another in no circle.
  pub record IsRanked (rank : ℕ → ℕ) (s : Shared V E) : Type 0 where
    pub request :
        (k : ℕ) (f : StoredFactory V E)
        → s.request_factories.held k ≡ some f
        → (c : Container) → AsksBelow rank (rank k) (f.factory c)
    pub transient :
        (k : ℕ) (f : StoredFactory V E)
        → s.transient_factories.held k ≡ some f
        → (c : Container) → AsksBelow rank (rank k) (f.factory c)

  -- Two lists of factories, held for as long as anything resolves.
  abbrev Holds : (q u : RwLock (TypeMap (StoredFactory V E))) → Shared V E → Type 0
  Holds q u s = (s.request_factories ≡ q) × (s.transient_factories ≡ u)

module _ {V E : Type 0} (rank : ℕ → ℕ) (s0 : Shared V E) (ranked : IsRanked rank s0) where
  abbrev Ready : Shared V E → Type 0
  Ready = Holds s0.request_factories s0.transient_factories

  operation-Ready :
      (op : Operation V E) (s : Shared V E)
      → IsFactoryFree op
      → Ready s
      → Ready (apply_operation op s).1
  unfolding apply_operation register replace override_value record_name put_override
  operation-Ready (registers t v) s free h = ground (arith, h.0, h.1)
  operation-Ready (replaces t v) s free h = ground (arith, h.0, h.1)
  operation-Ready (overrides c t v) s free h = ground (arith, h.0, h.1)
  operation-Ready (adds_request_factory t f) s free h = absurd (free tt)
  operation-Ready (adds_transient_factory t f) s free h = absurd (free tt)

  operate-Total :
      {F : Type 0} (op : Operation V E) → IsFactoryFree op → Total {E = F} Ready (operate op)
  unfolding operate
  operate-Total op free = record { at = λ s h. operation-Ready op s free h }

  scoped-Ready : (c : Container) (s : Shared V E) → Ready s → Ready (scoped c s).0
  unfolding scoped
  scoped-Ready c s h = h

  run_factory-Total :
      (n : ℕ) (r : Resolver V E)
      → ((c : Container) (t : RustType) → rank t.id < n → Total Ready (r c t))
      → (f : Factory V E) → AsksBelow rank n f
      → Total Ready (run_factory r f)
  unfolding run_factory
  run_factory-Total n r k (done v) b = Total-pure v
  run_factory-Total n r k (fail m) b = Total-throw m
  run_factory-Total n r k (operating op next) b =
      Total-bind _ _ (operate-Total op b.0) λ res. run_factory-Total n r k (next res) (b.1 res)
  run_factory-Total n r k (scoping c next) b = Total-bind _ _ (Total-asks _) λ inside.
      Total-bind _ _ (Total-modify _ (λ s h. scoped-Ready c s h))
        λ _. run_factory-Total n r k (next inside) (b inside)
  run_factory-Total n r k (asking_name name next) b =
      Total-bind _ _ (Total-asks _) λ res. run_factory-Total n r k (next res) (b res)
  run_factory-Total n r k (resolving c t next) b =
      Total-bind _ _ (Total-try (r c t) (k c t b.0))
        λ res. run_factory-Total n r k (next res) (b.1 res)
  run_factory-Total n r k (outside change next) b =
      Total-bind _ _ (Total-asks _)
        λ e. Total-bind _ _ (Total-modify _ (λ s h. h)) λ _. run_factory-Total n r k (next e) (b e)

  resolve_from_map-Total :
      (t : RustType) (lock : Shared V E → RwLock (TypeMap (AnyValue V)))
      → Total Ready (resolve_from_map t lock)
  unfolding resolve_from_map
  resolve_from_map-Total t lock = search total_rules

  put_override-Ready :
      (c : Container) (k : ℕ) (v : AnyValue V) (s : Shared V E)
      → Ready s
      → Ready (put_override c k v s)
  unfolding put_override
  put_override-Ready c k v s h = h

  cache_value-Total :
      (c : Container) (t : RustType) (v : AnyValue V) → Total Ready (cache_value c t v)
  unfolding cache_value
  cache_value-Total c t v = search (total_rules, put_override-Ready)

  module _ (r : Resolver V E) (t : RustType)
      (k : (d : Container) (u : RustType) → rank u.id < rank t.id → Total Ready (r d u)) where
    request-Total : (c : Container) → Total Ready (resolve_from_request_factory r c t)
    unfolding resolve_from_request_factory
    request-Total c = Total-bind-asks _ _ λ s fs h e.
        Total-on_option _ _ _ (Total-pure none) λ f found.
          Total-bind _ _
            (Total-map_error _ _ (
              run_factory-Total (rank t.id) r k (f.factory c)
                (ranked.request t.id f (ground arith) c)))
            λ v. cache_value-Total c t _

    transient-Total : (c : Container) → Total Ready (resolve_from_transient_factory r c t)
    unfolding resolve_from_transient_factory
    transient-Total c = Total-bind-asks _ _ λ s fs h e.
        Total-on_option _ _ _ (Total-pure none) λ f found.
          Total-bind _ _
            (Total-map_error _ _ (
              run_factory-Total (rank t.id) r k (f.factory c)
                (ranked.transient t.id f (ground arith) c)))
            λ v. search total_rules

    resolve_with-Total : (c : Container) → Total Ready (resolve_with r c t)
    unfolding resolve_with
    resolve_with-Total c =
        search (total_rules, resolve_from_map-Total, request-Total, transient-Total) depth 12

  resolve-Total :
      (n : ℕ) (c : Container) (t : RustType) → rank t.id < n → Total Ready (resolve n c t)
  unfolding resolve
  resolve-Total zero c t h = elim h [ ]
  resolve-Total (suc n) c t h =
      resolve_with-Total (resolve n) t (λ d u below. resolve-Total n d u (omega arith)) c

module _ {V E : Type 0} where
  ends-eq-some :
      (P : Shared V E → Type 0) (o : Option (Result ContainerError V × Shared V E))
      → EndsIn P o
      → (r : Result ContainerError V) × (s' : Shared V E) × (o ≡ some (r, s'))
  ends-eq-some P none h = absurd h
  ends-eq-some P (some (r, s')) h = (r, s', refl)

  -- Where the factories depend on one another in no circle, and register no factories while they run,
  -- `resolve` comes to an end, whatever else they do to the container: as many
  -- factories run inside one another as the rank of the type says, and no more.
  pub resolve_ends :
      (rank : ℕ → ℕ) (fuel : ℕ) (c : Container) (t : RustType) (s : Shared V E)
      → IsRanked rank s
      → rank t.id < fuel
      → (r : Result ContainerError V) × (s' : Shared V E) × (resolve fuel c t s ≡ some (r, s'))
  resolve_ends rank fuel c t s ranked h =
      ends-eq-some _ _ ((resolve-Total rank s ranked fuel c t h).at s (refl, refl))
