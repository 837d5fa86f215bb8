-- ===== src/Grpc.antt =====
-- crates/nestforge-grpc/src/lib.rs: the context and the dispatch of calls to the registry of microservices,
-- and the life of the server. tonic's transport is a parameter.
pub mod Dispatch
pub mod Life
mod Tests
use nestforge.Base.{ℕ, Option, none, some, List, [], ◌∷◌, String, Result, ok, err, map_err}
use nestforge.Base.Exec.{Exec, pure, lift, map_error, ◌>>=◌, ◌>>◌}
use nestforge.Container.State.{RustType, Shared, Container, ContainerError, to_string, ◌<>◌}
use nestforge.Container.Resolve.{resolve}
use nestforge.Microservices.{
  Failure, TransportMetadata, MicroserviceContext, ContextTypes, MicroserviceRegistry, new_context,
  message_envelope, event_envelope, with_metadata, dispatch_message, dispatch_event,
}

-- `Status::internal`, with its message.
pub record Status : Type 0 where
  pub message : String

-- The message of an error is that of its outermost context.
abbrev pub outermost : Failure → String
outermost [] = ""
outermost (message ∷ rest) = message

unfoldable pub map_microservice_error : Failure → Status
map_microservice_error e = record { message = outermost e }

-- `GrpcContext`.
pub record GrpcContext : Type 0 where
  pub container : Container

-- `GrpcContext::resolve`.
unfoldable pub resolve_or_status :
    {V E : Type 0} → ℕ → GrpcContext → RustType → Exec (Shared V E) Status V
resolve_or_status fuel ctx t =
    map_error
      (λ e. record {
        message = "Failed to resolve dependency `" <> t.type_name <> "`: " <> to_string e;
      })
      (resolve fuel ctx.container t)

module _ {V E : Type 0} (types : ContextTypes) (fuel : ℕ) where
  -- `microservice_context`.
  unfoldable pub grpc_microservice_context :
      GrpcContext → String → TransportMetadata → Exec (Shared V E) Failure (MicroserviceContext V)
  grpc_microservice_context ctx pattern metadata =
      new_context types fuel ctx.container "grpc" pattern metadata

module _ {Value V E Payload : Type 0} (types : ContextTypes) (fuel : ℕ)
    (to_value : Payload → Result String Value) where
  unfoldable pub dispatch_grpc_message :
      GrpcContext
      → MicroserviceRegistry Value V E
      → String
      → Payload
      → TransportMetadata
      → Exec (Shared V E) Status Value
  dispatch_grpc_message ctx registry pattern payload metadata = do
    envelope ← lift (map_err map_microservice_error (message_envelope to_value pattern payload))
    context ←
        map_error map_microservice_error (grpc_microservice_context types fuel ctx pattern metadata)
    map_error map_microservice_error
        (dispatch_message registry (with_metadata metadata envelope) context)

  unfoldable pub dispatch_grpc_event :
      GrpcContext
      → MicroserviceRegistry Value V E
      → String
      → Payload
      → TransportMetadata
      → Exec (Shared V E) Status (Unit {0})
  dispatch_grpc_event ctx registry pattern payload metadata = do
    envelope ← lift (map_err map_microservice_error (event_envelope to_value pattern payload))
    context ←
        map_error map_microservice_error (grpc_microservice_context types fuel ctx pattern metadata)
    map_error map_microservice_error
        (dispatch_event registry (with_metadata metadata envelope) context)
