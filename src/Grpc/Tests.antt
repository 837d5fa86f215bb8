-- ===== src/Grpc/Tests.antt =====
-- A call over gRPC at a concrete input.
use nestforge.Base.{◌≡◌, refl, ◌+◌, ℕ, String, Result, ok}
use nestforge.Base.Exec.{Exec, pure, map_error}
use nestforge.Container.State.{Shared, new}
use nestforge.Microservices.{
  MicroserviceContext, MicroserviceRegistry, ContextTypes, typed_message_handler, builder, message,
  insert_metadata, no_metadata, Failure,
}
use nestforge.Microservices.Client.{send}
use nestforge.Grpc.{GrpcContext, map_microservice_error, dispatch_grpc_message}
use nestforge.Grpc.Dispatch.{client, dispatch_grpc_message-send}

abbrev types : ContextTypes
types = record {
  request_id_type = record { id = 1; type_name = "RequestId" };
  identity_type = record { id = 2; type_name = "AuthIdentity" };
}

abbrev there : ℕ → Result String ℕ
there n = ok n

abbrev doubled : ℕ → MicroserviceContext ℕ → Exec (Shared ℕ ℕ) Failure ℕ
doubled n ctx = pure (n + n)

abbrev registry : MicroserviceRegistry ℕ ℕ ℕ
registry = message "math.double" (typed_message_handler there there doubled) builder

abbrev ctx : GrpcContext
ctx = record { container = (new {V = ℕ} {E = ℕ} 0).1 }

dispatch_grpc_message-send_example :
    dispatch_grpc_message types 3 there ctx registry "math.double" 21
      (insert_metadata "a" "b" no_metadata)
      (new 0).0
    ≡ map_error map_microservice_error
        (send types 3 there ok
          (client types 3 there ctx registry "math.double" 21 (insert_metadata "a" "b" no_metadata))
          "math.double"
          21)
        (new 0).0
dispatch_grpc_message-send_example =
    dispatch_grpc_message-send types 3 there ctx registry "math.double" 21
      (insert_metadata "a" "b" no_metadata) 21 (new 0).0 refl
