-- ===== src/Microservices/Client.antt =====
-- crates/nestforge-microservices/src/lib.rs: `InProcessMicroserviceClient`.
use nestforge.Base.{ℕ, String, Result}
use nestforge.Base.Exec.{Exec, lift, ◌>>=◌}
use nestforge.Container.State.{Shared, Container}
use nestforge.Microservices.{
  Failure, with_context, TransportMetadata, no_metadata, message_envelope, event_envelope,
  MicroserviceContext, ContextTypes, new_context, MicroserviceRegistry, dispatch_message,
  dispatch_event,
}

pub record InProcessClient (Value V E : Type 0) : Type 0 where
  pub container : Container
  pub registry : MicroserviceRegistry Value V E
  pub transport : String
  pub metadata : TransportMetadata

module _ {Value V E : Type 0} where
  -- `InProcessMicroserviceClient::new`.
  unfoldable pub new_client : Container → MicroserviceRegistry Value V E → InProcessClient Value V E
  new_client container registry = record {
    container = container;
    registry = registry;
    transport = "in-process";
    metadata = no_metadata;
  }

  unfoldable pub with_transport : String → InProcessClient Value V E → InProcessClient Value V E
  with_transport transport client = record client { transport = transport }

  unfoldable pub with_client_metadata :
      TransportMetadata → InProcessClient Value V E → InProcessClient Value V E
  with_client_metadata metadata client = record client { metadata = metadata }

  -- `InProcessMicroserviceClient::context`.
  unfoldable pub client_context :
      ContextTypes
      → ℕ
      → InProcessClient Value V E
      → String
      → Exec (Shared V E) Failure (MicroserviceContext V)
  unfolding new_context
  client_context types fuel client pattern =
      new_context types fuel client.container client.transport pattern client.metadata

module _ {Value V E Payload : Type 0} (types : ContextTypes) (fuel : ℕ)
    (to_value : Payload → Result String Value) where
  -- `send`: the context is made before the payload is known to serialize.
  unfoldable pub send :
      {Response : Type 0}
      → (Value → Result String Response)
      → InProcessClient Value V E
      → String
      → Payload
      → Exec (Shared V E) Failure Response
  send from_value client pattern payload = do
    ctx ← client_context types fuel client pattern
    envelope ← lift (message_envelope to_value pattern payload)
    response ← dispatch_message client.registry envelope ctx
    lift (with_context "Failed to deserialize microservice response" (from_value response))

  unfoldable pub emit :
      InProcessClient Value V E → String → Payload → Exec (Shared V E) Failure (Unit {0})
  emit client pattern payload = do
    ctx ← client_context types fuel client pattern
    envelope ← lift (event_envelope to_value pattern payload)
    dispatch_event client.registry envelope ctx
