-- ===== src/Container/Resolve/Tests.antt =====
-- The container's theorems at concrete inputs, and the unit tests of
-- crates/nestforge-core/src/container.rs.
use nestforge.Base.{
  ℕ, if◌then◌else◌, Bool-cases, inl, inr, ◌+◌, ◌≡◌, ◌≢◌, refl, true, some, [], Result, ok, err,
  arith, ◌==◌,
}
use nestforge.Base.Exec.{pure, lift, asks, modify, map_error, try, ◌>>=◌, on_option}
use nestforge.Container.State.{
  RustType, ContainerError, FactoryFn, operating, scoping, registers, overrides, Factory, done,
  fail, resolving, StoredFactory, Shared, Container, new, scoped, downcast_failed, to_string,
}
use nestforge.Container.Register.{
  apply_operation, register, override_value, register_request_factory, put_override,
}
use nestforge.Container.Resolve.{resolve}
use nestforge.Container.Resolve.Frame.{Grows, resolve-Grows}
use nestforge.Container.Resolve.Tags.{IsTagged, start, step, operates, Reachable-IsTagged}
use nestforge.Container.Resolve.Order.{resolve-override_value}
use nestforge.Container.Resolve.Cache.{resolve_again}
use nestforge.Container.Resolve.Terminates.{IsRanked, AsksBelow, resolve_ends}
use nestforge.Container.Resolve.Errors.{resolve-no_downcast}

abbrev request_id : RustType
request_id = record { id = 1; type_name = "RequestId" }

abbrev greeting : RustType
greeting = record { id = 2; type_name = "RequestGreeting" }

abbrev counter : RustType
counter = record { id = 3; type_name = "TransientCounter" }

-- The factory of the test `scoped_container_resolves_request_factory_without_leaking_to_parent`, over
-- numbers: it adds 100 to the request's.
abbrev greet : Result ContainerError ℕ → Factory ℕ ℕ
greet (ok n) = done (n + 100)
greet (err e) = fail (to_string e)

abbrev empty : Shared ℕ ℕ
empty = record (new {V = ℕ} {E = ℕ} 0).0 { outer = 0 }

abbrev root : Container
root = record { scope = 0 }

abbrev child : Container
child = record { scope = 1 }

-- A container with the request factory, a scope, and a request id in the scope.
abbrev with_factory : Shared ℕ ℕ
with_factory = (register_request_factory greeting (λ c. resolving c request_id greet) empty).1

abbrev with_scope : Shared ℕ ℕ
with_scope = (scoped root with_factory).0

abbrev ready : Shared ℕ ℕ
ready = (override_value child request_id 7 with_scope).1

-- A container whose name lock is poisoned.
abbrev nameless : Shared ℕ ℕ
nameless = record empty { names = record { poisoned = true; held = [] } }

-- A container with a factory that resolves its own type.
abbrev looping : Shared ℕ ℕ
looping = (register_request_factory greeting (λ c. resolving c greeting greet) empty).1

abbrev greeted : Shared ℕ ℕ
greeted = put_override child greeting.id (record { type_id = greeting.id; content = 107 }) ready

resolve-override_value_example :
    resolve 1 child request_id (override_value child request_id 8 ready).1
    ≡ some (ok 8, (override_value child request_id 8 ready).1)
unfolding override_value scoped register_request_factory new
resolve-override_value_example =
    resolve-override_value 0 child request_id 8 ready (override_value child request_id 8 ready).1
      refl

greeting_resolves : resolve 2 child greeting ready ≡ some (ok 107, greeted)
unfolding resolve override_value scoped register_request_factory new ◌>>=◌ asks lift pure modify
    map_error try on_option
greeting_resolves = refl

resolve_again_example : resolve 1 child greeting greeted ≡ some (ok 107, greeted)
unfolding override_value scoped register_request_factory new
resolve_again_example = resolve_again 2 0 child greeting 107 ready greeted refl greeting_resolves

-- A factory that registers a singleton, opens a scope and overrides a value there.
abbrev busy : FactoryFn ℕ ℕ
busy c =
    operating (registers counter 9)
      (λ r. scoping c (λ inside. operating (overrides inside request_id 1) (λ r1. done 5)))

abbrev with_busy : Shared ℕ ℕ
with_busy = (register_request_factory greeting busy empty).1

abbrev after_busy : Shared ℕ ℕ
after_busy =
    put_override root greeting.id (record { type_id = greeting.id; content = 5 })
      (override_value (record { scope = 1 }) request_id 1
        (scoped root (register counter 9 with_busy).1).0).1

busy_resolves : resolve 1 root greeting with_busy ≡ some (ok 5, after_busy)
unfolding resolve override_value register scoped register_request_factory new ◌>>=◌ asks lift pure
    modify map_error try on_option
busy_resolves = refl

resolve-Grows_example : Grows with_busy after_busy
resolve-Grows_example = resolve-Grows 1 root greeting with_busy after_busy (ok 5) busy_resolves

Reachable-IsTagged_example : IsTagged (register counter 5 (new {V = ℕ} {E = ℕ} 0).0).1
unfolding apply_operation
Reachable-IsTagged_example =
    Reachable-IsTagged (step (start 0) (operates (registers counter 5) (new {V = ℕ} {E = ℕ} 0).0))

resolve-no_downcast_example :
    resolve 2 root counter (register counter 5 (new {V = ℕ} {E = ℕ} 0).0).1
    ≢ some
        (err (downcast_failed "TransientCounter"), (register counter 5 (new {V = ℕ} {E = ℕ} 0).0).1)
unfolding apply_operation
resolve-no_downcast_example =
    resolve-no_downcast 2 root counter (register counter 5 (new {V = ℕ} {E = ℕ} 0).0).1
      (register counter 5 (new {V = ℕ} {E = ℕ} 0).0).1 "TransientCounter"
      (step (start 0) (operates (registers counter 5) (new {V = ℕ} {E = ℕ} 0).0))

abbrev rank : ℕ → ℕ
rank k = if k == 2 then 1 else 0

greet_asks : (res : Result ContainerError ℕ) → AsksBelow rank 1 (greet res)
greet_asks (ok n) = tt
greet_asks (err e) = tt

stored_greeting :
    (k : ℕ) (f : StoredFactory ℕ ℕ)
    → (k == 2) ≡ true
    → ready.request_factories.held k ≡ some f
    → f ≡ record { type_id = 2; factory = λ c. resolving c request_id greet }
unfolding override_value scoped register_request_factory new
stored_greeting k f two e = let e' = rw two at e in ground arith

ready-IsRanked : IsRanked rank ready
unfolding override_value scoped register_request_factory new
ready-IsRanked = record {
  request = λ k (f : StoredFactory ℕ ℕ) e. elim (Bool-cases (k == 2)) [
    | inl two ↦ rw two (rw (stored_greeting k f two e) (λ c. (omega arith, greet_asks)))
    | inr other ↦ cc (rw other at e)
  ];
  transient = λ k f e. cc;
}

resolve_ends_example :
    (r : Result ContainerError ℕ) × (s' : Shared ℕ ℕ) × (resolve 2 child greeting ready
      ≡ some (r, s'))
resolve_ends_example = resolve_ends rank 2 child greeting ready ready-IsRanked (omega arith)
