-- ===== src/WebSockets.antt =====
-- crates/nestforge-websockets/src/lib.rs: the endpoint's path, the context of a connection, and the
-- messages that are handled as those of microservices. The sockets are axum's; serde_json's texts are
-- parameters.
pub mod Frames
mod Tests
use nestforge.Base.{
  ℕ, Bool, true, false, ◌||◌, Option, none, some, List, [], ◌∷◌, ◌++◌, String, str_eq, any,
  if◌then◌else◌, Result, ok, err, map_err, Text, slash, text_eq, starts_with, trim,
}
use nestforge.Base.Exec.{Exec, pure, lift, throw, try, ◌>>=◌, ◌>>◌}
use nestforge.Container.State.{RustType, Shared, Container, ContainerError, to_string}
use nestforge.Container.Resolve.{resolve}
use nestforge.Microservices.{
  Failure, TransportMetadata, Envelope, MicroserviceContext, ContextTypes, MicroserviceRegistry,
  ok_value, new_context, dispatch_message, dispatch_event,
}

-- `normalize_path`.
unfoldable pub normalize_endpoint : Text → Text → Text
unfolding text_eq starts_with
normalize_endpoint path fallback =
    let trimmed = trim path in
    if text_eq trimmed [] || text_eq trimmed (slash ∷ [])
    then fallback
    else if starts_with (slash ∷ []) trimmed
    then trimmed
    else slash ∷ trimmed

-- The id and the identity are values of the container.
pub record WebSocketContext (V Headers : Type 0) : Type 0 where
  pub container : Container
  pub request_id : Option V
  pub auth_identity : Option V
  pub headers : Headers

module _ {V Headers : Type 0} where
  unfoldable pub is_authenticated : WebSocketContext V Headers → Bool
  is_authenticated ctx = elim ctx.auth_identity [ none ↦ false | some identity ↦ true ]

  -- `has_role`, with the roles of an identity.
  unfoldable pub socket_has_role : (V → List String) → WebSocketContext V Headers → String → Bool
  socket_has_role roles ctx role = elim ctx.auth_identity [
    | none ↦ false
    | some identity ↦ any (λ value. str_eq value role) (roles identity)
  ]

module _ {V E Headers : Type 0} where
  -- `microservice_context`.
  unfoldable pub socket_microservice_context :
      ContextTypes
      → ℕ
      → WebSocketContext V Headers
      → String
      → TransportMetadata
      → Exec (Shared V E) Failure (MicroserviceContext V)
  socket_microservice_context types fuel ctx pattern metadata =
      new_context types fuel ctx.container "websocket" pattern metadata

  -- The context that an upgraded connection gets, in both routers.
  unfoldable pub connection_context :
      RustType
      → ℕ
      → Container
      → V
      → Headers
      → Exec (Shared V E) Failure (WebSocketContext V Headers)
  connection_context identity_type fuel container request_id headers = do
    auth_identity ← try (resolve fuel container identity_type)
    pure (record {
      container = container;
      request_id = some request_id;
      auth_identity = ok_value auth_identity;
      headers = headers;
    })

pub data WebSocketMicroserviceKind : Type 0 where
  message_kind event_kind : WebSocketMicroserviceKind

pub record WebSocketMicroserviceFrame (Value : Type 0) : Type 0 where
  pub kind : WebSocketMicroserviceKind
  pub pattern : String
  pub payload : Value
  pub metadata : TransportMetadata

pub record WebSocketMicroserviceResponse (Value : Type 0) : Type 0 where
  pub pattern : String
  pub payload : Value
  pub metadata : TransportMetadata

-- `axum::extract::ws::Message`; the others are shown in an error.
pub data Message : Type 0 where
  text : Text → Message
  binary : List ℕ → Message
  other_message : String → Message

-- serde_json, on frames and responses.
pub record FrameCodec (Value : Type 0) : Type 0 where
  pub from_str : Text → Result String (WebSocketMicroserviceFrame Value)
  pub from_slice : List ℕ → Result String (WebSocketMicroserviceFrame Value)
  pub to_text : WebSocketMicroserviceResponse Value → Result String Text

abbrev pub unsupported : String → Failure
unsupported other = "Unsupported websocket microservice message" ∷ other ∷ []

module _ {Value : Type 0} (codec : FrameCodec Value) where
  unfoldable pub parse_websocket_microservice_frame :
      Message → Result Failure (WebSocketMicroserviceFrame Value)
  parse_websocket_microservice_frame (text t) = map_err (λ e. e ∷ []) (codec.from_str t)
  parse_websocket_microservice_frame (binary bytes) = map_err (λ e. e ∷ []) (codec.from_slice bytes)
  parse_websocket_microservice_frame (other_message shown) = err (unsupported shown)

-- The envelope of a frame.
abbrev pub frame_envelope : {Value : Type 0} → WebSocketMicroserviceFrame Value → Envelope Value
frame_envelope frame = record {
  pattern = frame.pattern;
  payload = frame.payload;
  metadata = frame.metadata;
}

module _ {Value V E : Type 0} (codec : FrameCodec Value) where
  -- The branches of a frame's kind.
  unfoldable pub reply_to :
      MicroserviceRegistry Value V E
      → WebSocketMicroserviceFrame Value
      → MicroserviceContext V
      → Exec (Shared V E) Failure (Option Message)
  reply_to registry frame ctx = elim frame.kind [
    | message_kind ↦ do
      payload ← dispatch_message registry (frame_envelope frame) ctx
      reply ← lift (
          map_err (λ e. e ∷ [])
            (codec.to_text
              (record { pattern = frame.pattern; payload = payload; metadata = frame.metadata })))
      pure (some (text reply))
    | event_kind ↦ do dispatch_event registry (frame_envelope frame) ctx; pure none
  ]

module _ {Value V E Headers : Type 0} (codec : FrameCodec Value) where
  unfoldable pub handle_websocket_microservice_message :
      ContextTypes
      → ℕ
      → WebSocketContext V Headers
      → MicroserviceRegistry Value V E
      → Message
      → Exec (Shared V E) Failure (Option Message)
  handle_websocket_microservice_message types fuel ctx registry m = do
    frame ← lift (parse_websocket_microservice_frame codec m)
    microservice_ctx ← socket_microservice_context types fuel ctx frame.pattern frame.metadata
    reply_to codec registry frame microservice_ctx
