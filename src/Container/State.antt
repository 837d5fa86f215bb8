-- ===== src/Container/State.antt =====
-- crates/nestforge-core/src/container.rs: what a container holds, and its errors.
use Prim.Native.String
use nestforge.Base.{
  ℕ, ◌+◌, Bool, true, false, Option, none, some, List, [], String, ◌==◌, if◌then◌else◌, Result, ok,
  err, contains,
}
pub use nestforge.Base.{RwLock, unpoisoned}

infixr 65 ◌<>◌
abbrev pub ◌<>◌ : String → String → String
s <> t = String.◌++◌ s t

-- A Rust type `T`: `TypeId::of::<T>()`, which is unique, and `type_name::<T>()`, which need not be.
pub record RustType : Type 0 where
  pub id : ℕ
  pub type_name : String

-- `Arc<dyn Any>`: a value with the identity of the type that it was made at.
pub record AnyValue (V : Type 0) : Type 0 where
  pub type_id : ℕ
  pub content : V

pub data ContainerError : Type 0 where
  write_lock_poisoned read_lock_poisoned : ContainerError
  type_already_registered type_not_registered downcast_failed : String → ContainerError
  request_factory_failed type_not_registered_in_module : String → String → ContainerError

-- The `Display` of an error, from its `#[error]` attribute.
unfoldable pub to_string : ContainerError → String
to_string write_lock_poisoned = "Container write lock poisoned"
to_string read_lock_poisoned = "Container read lock poisoned"
to_string (type_already_registered name) = "Type already registered: " <> name
to_string (type_not_registered name) = "Type not registered: " <> name
to_string (downcast_failed name) = "Failed to downcast resolved value: " <> name
to_string (request_factory_failed name message) =
    "Request-scoped factory failed for " <> name <> ": " <> message
to_string (type_not_registered_in_module name module_name) =
    "Type not registered: " <> name <> " (required by module `" <> module_name <> "`)"

-- A handle: the `Arc`s of a `Container` differ from those of its relatives in `overrides` alone.
pub record Container : Type 0 where
  pub scope : ℕ

-- A factory, once it has been called with a container: it may resolve types, register, replace and
-- override values, register factories and open scopes, in the container or in scopes that it has
-- opened, any number of times and depending on what it got; the world outside (`E`: an atomic counter,
-- a clock) it may change and read; it ends in a value or in an error's message. A factory that is
-- stored is a closure that is called with a container.
mutual
  pub data Operation (V E : Type 0) : Type 0 where
    registers replaces : RustType → V → Operation V E
    overrides : Container → RustType → V → Operation V E
    adds_request_factory adds_transient_factory :
        RustType → (Container → Factory V E) → Operation V E

  pub data Factory (V E : Type 0) : Type 0 where
    done : V → Factory V E
    fail : String → Factory V E
    resolving : Container → RustType → (Result ContainerError V → Factory V E) → Factory V E
    operating : Operation V E → (Result ContainerError (Unit {0}) → Factory V E) → Factory V E
    scoping : Container → (Container → Factory V E) → Factory V E
    asking_name : String → (Result ContainerError Bool → Factory V E) → Factory V E
    outside : (E → E) → (E → Factory V E) → Factory V E

-- `RequestFactoryFn` and `TransientFactoryFn`, before their results are wrapped.
abbrev pub FactoryFn : Type 0 → Type 0 → Type 0
FactoryFn V E = Container → Factory V E

-- A stored factory: the closure that `register_request_factory::<T>` wraps around the caller's
-- turns the result into an `Arc<dyn Any>` made at `T`.
pub record StoredFactory (V E : Type 0) : Type 0 where
  pub type_id : ℕ
  pub factory : FactoryFn V E

abbrev pub read : {A : Type 0} → RwLock A → Result ContainerError A
read l = if l.poisoned then err read_lock_poisoned else ok l.held

abbrev pub write : {A : Type 0} → RwLock A → Result ContainerError A
write l = if l.poisoned then err write_lock_poisoned else ok l.held

-- `HashMap<TypeId, A>`. The container never iterates over one.
abbrev pub TypeMap : Type 0 → Type 0
TypeMap A = ℕ → Option A

abbrev pub put : {A : Type 0} → ℕ → A → TypeMap A → TypeMap A
put k a m j = if j == k then some a else m j

abbrev pub contains_key : {A : Type 0} → TypeMap A → ℕ → Bool
contains_key m k = elim (m k) [ none ↦ false | some _ ↦ true ]

-- What the clones and the scopes of one container share, and the override maps of all of them.
pub record Shared (V E : Type 0) : Type 0 where
  pub inner : RwLock (TypeMap (AnyValue V))
  pub overrides : ℕ → RwLock (TypeMap (AnyValue V))
  pub scopes : ℕ
  pub request_factories : RwLock (TypeMap (StoredFactory V E))
  pub transient_factories : RwLock (TypeMap (StoredFactory V E))
  pub names : RwLock (List String)
  pub outer : E

module _ {V E : Type 0} where
  -- `Container::new`, with the handle of scope 0.
  unfoldable pub new : E → Shared V E × Container
  new e = (
    record {
      inner = unpoisoned (λ _. none);
      overrides = λ _. unpoisoned (λ _. none);
      scopes = 1;
      request_factories = unpoisoned (λ _. none);
      transient_factories = unpoisoned (λ _. none);
      names = unpoisoned [];
      outer = e;
    },
    record { scope = 0 },
  )

  abbrev set_overrides : ℕ → RwLock (TypeMap (AnyValue V)) → Shared V E → Shared V E
  set_overrides i l s = record s { overrides = λ j. if j == i then l else s.overrides j }

  -- `scoped`: a fresh, empty override map; all else is shared with the parent.
  unfoldable pub scoped : Container → Shared V E → Shared V E × Container
  scoped c s = (
    record (set_overrides s.scopes (unpoisoned (λ _. none)) s) { scopes = s.scopes + 1 },
    record { scope = s.scopes },
  )

  unfoldable pub is_type_registered_name : String → Shared V E → Result ContainerError Bool
  is_type_registered_name name s = elim (read s.names) [
    | ok names ↦ ok (contains names name)
    | err e ↦ err e
  ]
