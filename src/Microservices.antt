-- ===== src/Microservices.antt =====
-- crates/nestforge-microservices/src/lib.rs: envelopes, the context of a handler, the registry of
-- handlers with its dispatch, and the in-process client. JSON values and the serializers of payloads
-- are parameters; a handler may change the container.
pub mod Registry
pub mod Client
pub mod Sent
mod Tests
use nestforge.Base.{
  ℕ, Bool, Option, none, some, List, [], ◌∷◌, String, str_eq, if◌then◌else◌, Result, ok, err,
  map_err,
}
use nestforge.Base.Exec.{Exec, pure, throw, lift, try, ◌>>=◌}
use nestforge.Container.State.{RustType, Shared, Container, ContainerError, to_string, ◌<>◌}
use nestforge.Container.Resolve.{resolve}

-- `anyhow::Error`: its message, behind those of the contexts that it has got.
abbrev pub Failure : Type 0
Failure = List String

-- `.context(message)`.
abbrev pub with_context : {A : Type 0} → String → Result String A → Result Failure A
with_context message r = map_err (λ e. message ∷ e ∷ []) r

abbrev pub no_handler : String → String → Failure
no_handler kind pattern = ("No " <> kind <> " handler registered for `" <> pattern <> "`") ∷ []

-- `TransportMetadata`.
abbrev pub TransportMetadata : Type 0
TransportMetadata = String → Option String

unfoldable pub insert_metadata : String → String → TransportMetadata → TransportMetadata
insert_metadata key value metadata other = if str_eq key other then some value else metadata other

abbrev pub no_metadata : TransportMetadata
no_metadata key = none

-- `MessageEnvelope` and `EventEnvelope`, which have the same fields.
pub record Envelope (Value : Type 0) : Type 0 where
  pub pattern : String
  pub payload : Value
  pub metadata : TransportMetadata

module _ {Value Payload : Type 0} where
  -- `MessageEnvelope::new`.
  unfoldable pub message_envelope :
      (Payload → Result String Value) → String → Payload → Result Failure (Envelope Value)
  message_envelope to_value pattern payload =
      elim (with_context "Failed to serialize message payload" (to_value payload)) [
        | err e ↦ err e
        | ok value ↦ ok (record { pattern = pattern; payload = value; metadata = no_metadata })
      ]

  -- `EventEnvelope::new`.
  unfoldable pub event_envelope :
      (Payload → Result String Value) → String → Payload → Result Failure (Envelope Value)
  event_envelope to_value pattern payload =
      elim (with_context "Failed to serialize event payload" (to_value payload)) [
        | err e ↦ err e
        | ok value ↦ ok (record { pattern = pattern; payload = value; metadata = no_metadata })
      ]

unfoldable pub with_metadata :
    {Value : Type 0} → TransportMetadata → Envelope Value → Envelope Value
with_metadata metadata envelope = record envelope { metadata = metadata }

-- `MicroserviceContext`; the id and the identity are the values that the container resolves.
pub record MicroserviceContext (V : Type 0) : Type 0 where
  pub container : Container
  pub transport : String
  pub pattern : String
  pub metadata : TransportMetadata
  pub request_id : Option V
  pub auth_identity : Option V

-- `.ok()`.
abbrev pub ok_value : {E A : Type 0} → Result E A → Option A
ok_value (ok a) = some a
ok_value (err e) = none

-- The types `RequestId` and `AuthIdentity`.
pub record ContextTypes : Type 0 where
  pub request_id_type : RustType
  pub identity_type : RustType

-- `MicroserviceContext::new`.
unfoldable pub new_context :
    {V E : Type 0}
    → ContextTypes
    → ℕ
    → Container
    → String
    → String
    → TransportMetadata
    → Exec (Shared V E) Failure (MicroserviceContext V)
new_context types fuel container transport pattern metadata = do
  request_id ← try (resolve fuel container types.request_id_type)
  auth_identity ← try (resolve fuel container types.identity_type)
  pure (record {
    container = container;
    transport = transport;
    pattern = pattern;
    metadata = metadata;
    request_id = ok_value request_id;
    auth_identity = ok_value auth_identity;
  })

module _ (Value V E : Type 0) where
  -- `dyn MessageHandler` and `dyn EventHandler`.
  abbrev pub MessageHandler : Type 0
  MessageHandler = Value → MicroserviceContext V → Exec (Shared V E) Failure Value

  abbrev pub EventHandler : Type 0
  EventHandler = Value → MicroserviceContext V → Exec (Shared V E) Failure (Unit {0})

  pub record MicroserviceRegistry : Type 0 where
    pub message_handlers : String → Option MessageHandler
    pub event_handlers : String → Option EventHandler

module _ {Value V E Payload Response : Type 0} where
  -- `TypedMessageHandler::handle`.
  unfoldable pub typed_message_handler :
      (Value → Result String Payload)
      → (Response → Result String Value)
      → (Payload → MicroserviceContext V → Exec (Shared V E) Failure Response)
      → MessageHandler Value V E
  typed_message_handler from_value to_value handler payload ctx =
      elim (with_context "Failed to deserialize message payload" (from_value payload)) [
        | err e ↦ throw e
        | ok typed ↦ handler typed ctx >>= λ response.
            lift (with_context "Failed to serialize message response" (to_value response))
      ]

module _ {Value V E Payload : Type 0} where
  -- `TypedEventHandler::handle`.
  unfoldable pub typed_event_handler :
      (Value → Result String Payload)
      → (Payload → MicroserviceContext V → Exec (Shared V E) Failure (Unit {0}))
      → EventHandler Value V E
  typed_event_handler from_value handler payload ctx =
      elim (with_context "Failed to deserialize event payload" (from_value payload)) [
        | err e ↦ throw e
        | ok typed ↦ handler typed ctx
      ]

module _ {Value V E : Type 0} where
  -- `MicroserviceRegistry::builder`.
  unfoldable pub builder : MicroserviceRegistry Value V E
  builder = record { message_handlers = λ pattern. none; event_handlers = λ pattern. none }

  -- `MicroserviceRegistryBuilder::message`: a later handler of a pattern replaces an earlier one.
  unfoldable pub message :
      String
      → MessageHandler Value V E
      → MicroserviceRegistry Value V E
      → MicroserviceRegistry Value V E
  message pattern handler r = record r {
    message_handlers =
        λ other. if str_eq pattern other then some handler else r.message_handlers other;
  }

  -- `MicroserviceRegistryBuilder::event`.
  unfoldable pub event :
      String
      → EventHandler Value V E
      → MicroserviceRegistry Value V E
      → MicroserviceRegistry Value V E
  event pattern handler r = record r {
    event_handlers = λ other. if str_eq pattern other then some handler else r.event_handlers other;
  }

  unfoldable pub dispatch_message :
      MicroserviceRegistry Value V E
      → Envelope Value
      → MicroserviceContext V
      → Exec (Shared V E) Failure Value
  dispatch_message r envelope ctx = elim (r.message_handlers envelope.pattern) [
    | none ↦ throw (no_handler "message" envelope.pattern)
    | some handler ↦ handler envelope.payload ctx
  ]

  unfoldable pub dispatch_event :
      MicroserviceRegistry Value V E
      → Envelope Value
      → MicroserviceContext V
      → Exec (Shared V E) Failure (Unit {0})
  dispatch_event r envelope ctx = elim (r.event_handlers envelope.pattern) [
    | none ↦ throw (no_handler "event" envelope.pattern)
    | some handler ↦ handler envelope.payload ctx
  ]
