-- ===== src/WebSockets/Frames.antt =====
-- A frame of a socket is a message, or an event, of the in-process client.
use nestforge.Base.{
  ℕ, ◌≡◌, refl, sym, ap, fun_ext, ◌∙◌, Option, none, some, [], ◌∷◌, String, Result, ok, err,
  map_err,
}
use nestforge.Base.Exec.{Exec, pure, throw, lift, ◌>>=◌, ◌>>◌}
use nestforge.Base.Exec.Invert.{bind_same, bind-of-ok, bind-of-err, bind_lift_ok, bind_assoc}
use nestforge.Container.State.{Shared}
use nestforge.Microservices.{
  Failure, Envelope, MicroserviceContext, ContextTypes, MicroserviceRegistry, no_metadata,
  message_envelope, event_envelope, dispatch_message, dispatch_event,
}
use nestforge.Microservices.Client.{
  InProcessClient, new_client, with_transport, with_client_metadata, client_context, send, emit,
}
use nestforge.WebSockets.{
  WebSocketContext, socket_microservice_context, message_kind, event_kind,
  WebSocketMicroserviceKind, WebSocketMicroserviceFrame, Message, text, binary, other_message,
  FrameCodec, unsupported, parse_websocket_microservice_frame, frame_envelope, reply_to,
  handle_websocket_microservice_message,
}

module _ {Value V E Headers : Type 0} (codec : FrameCodec Value) (types : ContextTypes) (fuel : ℕ)
    (ctx : WebSocketContext V Headers) (registry : MicroserviceRegistry Value V E) where
  -- The client of the connection's container that has the metadata of a frame.
  abbrev pub socket_client : WebSocketMicroserviceFrame Value → InProcessClient Value V E
  socket_client frame =
      with_transport "websocket"
        (with_client_metadata frame.metadata (new_client ctx.container registry))

  -- A value is its own serialization.
  abbrev as_it_is : Value → Result String Value
  as_it_is v = ok v

  -- The response behind the frame's pattern and metadata, as text.
  abbrev response :
      WebSocketMicroserviceFrame Value → Value → Exec (Shared V E) Failure (Option Message)
  response frame v =
      lift (
        map_err (λ e. e ∷ [])
          (codec.to_text
            (record { pattern = frame.pattern; payload = v; metadata = frame.metadata })))
      >>= λ reply. pure (some (text reply))

  -- What the client does with a frame: it sends a message, and the response goes back behind the
  -- frame's pattern and metadata; or it emits an event, and nothing goes back.
  abbrev pub relayed :
      WebSocketMicroserviceKind
      → WebSocketMicroserviceFrame Value
      → Exec (Shared V E) Failure (Option Message)
  relayed message_kind frame =
      send types fuel as_it_is as_it_is (socket_client frame) frame.pattern frame.payload
      >>= response frame
  relayed event_kind frame =
      emit types fuel as_it_is (socket_client frame) frame.pattern frame.payload >> pure none

  -- The context of a frame of the socket.
  abbrev context_of :
      WebSocketMicroserviceFrame Value → Exec (Shared V E) Failure (MicroserviceContext V)
  context_of frame = socket_microservice_context types fuel ctx frame.pattern frame.metadata

  -- What is sent.
  abbrev sent : WebSocketMicroserviceFrame Value → Envelope Value
  sent frame = record { pattern = frame.pattern; payload = frame.payload; metadata = no_metadata }

  send-as_it_is :
      (frame : WebSocketMicroserviceFrame Value) (s : Shared V E)
      → send types fuel as_it_is as_it_is (socket_client frame) frame.pattern frame.payload s
        ≡ (context_of frame >>= λ c. dispatch_message registry (frame_envelope frame) c) s
  unfolding send client_context with_transport with_client_metadata new_client
      socket_microservice_context lift message_envelope dispatch_message
  send-as_it_is frame s =
      bind_same (context_of frame) _ (λ c. dispatch_message registry (frame_envelope frame) c) s
        λ c s1.
          bind-of-ok (lift (message_envelope as_it_is frame.pattern frame.payload)) _ s1 refl
          ∙ bind_lift_ok (dispatch_message registry (frame_envelope frame) c) s1

  emit-as_it_is :
      (frame : WebSocketMicroserviceFrame Value) (s : Shared V E)
      → emit types fuel as_it_is (socket_client frame) frame.pattern frame.payload s
        ≡ (context_of frame >>= λ c. dispatch_event registry (frame_envelope frame) c) s
  unfolding emit client_context with_transport with_client_metadata new_client
      socket_microservice_context lift event_envelope dispatch_event
  emit-as_it_is frame s =
      bind_same (context_of frame) _ (λ c. dispatch_event registry (frame_envelope frame) c) s
        λ c s1. bind-of-ok (lift (event_envelope as_it_is frame.pattern frame.payload)) _ s1 refl

  -- The rest of the block after a call of the client.
  after_call :
      {A : Type 0} (m n : Exec (Shared V E) Failure A)
      (rest : A → Exec (Shared V E) Failure (Option Message)) (s : Shared V E)
      → ((s1 : Shared V E) → m s1 ≡ n s1)
      → (n >>= rest) s ≡ (m >>= rest) s
  after_call {A = A} m n rest s same =
      ap (λ (k : Exec (Shared V E) Failure A). (k >>= rest) s) (sym (fun_ext same))

  reply_to_message :
      (frame : WebSocketMicroserviceFrame Value) (c : MicroserviceContext V) (s : Shared V E)
      → frame.kind ≡ message_kind
      → reply_to codec registry frame c s
        ≡ (dispatch_message registry (frame_envelope frame) c >>= response frame) s
  unfolding reply_to
  reply_to_message frame c s is = rw (is, reply_to) refl

  reply_to_event :
      (frame : WebSocketMicroserviceFrame Value) (c : MicroserviceContext V) (s : Shared V E)
      → frame.kind ≡ event_kind
      → reply_to codec registry frame c s
        ≡ (dispatch_event registry (frame_envelope frame) c >> pure none) s
  unfolding reply_to
  reply_to_event frame c s is = rw (is, reply_to) refl

  reply_to-relayed :
      (kind : WebSocketMicroserviceKind) (frame : WebSocketMicroserviceFrame Value) (s : Shared V E)
      → frame.kind ≡ kind
      → (context_of frame >>= λ c. reply_to codec registry frame c) s ≡ relayed kind frame s
  reply_to-relayed message_kind frame s is =
      bind_same (context_of frame) _
        (λ c. dispatch_message registry (frame_envelope frame) c >>= response frame) s
        (λ c s1. reply_to_message frame c s1 is)
      ∙ sym (bind_assoc (context_of frame) _ (response frame) s)
      ∙ after_call _ _ (response frame) s (send-as_it_is frame)
  reply_to-relayed event_kind frame s is =
      bind_same (context_of frame) _
        (λ c. dispatch_event registry (frame_envelope frame) c >> pure none) s
        (λ c s1. reply_to_event frame c s1 is)
      ∙ sym (bind_assoc (context_of frame) _ (λ _. pure none) s)
      ∙ after_call _ _ (λ _. pure none) s (emit-as_it_is frame)

  -- What a frame of text or bytes gives.
  frame_handled :
      (m : Message) (frame : WebSocketMicroserviceFrame Value) (s : Shared V E)
      → parse_websocket_microservice_frame codec m ≡ ok frame
      → handle_websocket_microservice_message codec types fuel ctx registry m s
        ≡ relayed frame.kind frame s
  unfolding handle_websocket_microservice_message lift
  frame_handled m frame s parsed =
      bind-of-ok (lift (parse_websocket_microservice_frame codec m)) _ s
        (ap (λ (r : Result Failure (WebSocketMicroserviceFrame Value)). some (r, s)) parsed)
      ∙ reply_to-relayed frame.kind frame s refl

  refused :
      (m : Message) (e : Failure) (s : Shared V E)
      → parse_websocket_microservice_frame codec m ≡ err e
      → handle_websocket_microservice_message codec types fuel ctx registry m s ≡ some (err e, s)
  unfolding handle_websocket_microservice_message lift
  refused m e s parsed =
      bind-of-err (lift (parse_websocket_microservice_frame codec m)) _ s
        (ap (λ (r : Result Failure (WebSocketMicroserviceFrame Value)). some (r, s)) parsed)

  -- What a message should give that has been decoded, or not.
  abbrev expected :
      Result String (WebSocketMicroserviceFrame Value) → Exec (Shared V E) Failure (Option Message)
  expected (ok frame) = relayed frame.kind frame
  expected (err e) = throw (e ∷ [])

  decoded :
      (r : Result String (WebSocketMicroserviceFrame Value)) (m : Message) (s : Shared V E)
      → parse_websocket_microservice_frame codec m ≡ map_err (λ e. e ∷ []) r
      → handle_websocket_microservice_message codec types fuel ctx registry m s ≡ expected r s
  unfolding throw
  decoded (ok frame) m s parsed = frame_handled m frame s parsed
  decoded (err e) m s parsed = refused m (e ∷ []) s parsed

  -- What a message should do.
  abbrev pub answered : Message → Exec (Shared V E) Failure (Option Message)
  answered (text t) = expected (codec.from_str t)
  answered (binary bytes) = expected (codec.from_slice bytes)
  answered (other_message shown) = throw (unsupported shown)

  -- A message of a socket, in any state: its text or its bytes are decoded, with the error alone where
  -- they are no frame. A frame is what an in-process client does, which has the connection's container,
  -- the registry, the transport `websocket` and the frame's metadata, and takes values as they are. It
  -- sends a message frame, and the response goes back as text, behind the frame's pattern and metadata;
  -- it emits an event frame, and nothing goes back. Any other message is an error that names it, and
  -- the state is as it was.
  pub handle_websocket_microservice_message-answered :
      (m : Message) (s : Shared V E)
      → handle_websocket_microservice_message codec types fuel ctx registry m s ≡ answered m s
  unfolding parse_websocket_microservice_frame throw
  handle_websocket_microservice_message-answered (text t) s =
      decoded (codec.from_str t) (text t) s refl
  handle_websocket_microservice_message-answered (binary bytes) s =
      decoded (codec.from_slice bytes) (binary bytes) s refl
  handle_websocket_microservice_message-answered (other_message shown) s =
      refused (other_message shown) (unsupported shown) s refl
