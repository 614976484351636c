-- ===== src/Grpc/Interceptors.antt =====
-- pkg/grpc/interceptors/interceptors.go. What a handler, an invoker or a stream does is an argument;
-- an interceptor gives back what it returns, and the calls of the span, of the metrics and of the
-- logger that it makes, in order. `status.FromError(err)` with `Code().String()` is a parameter;
-- the durations are left out.
use mini_wallet.Base.{List, [], ◌∷◌, ◌++◌, Bool, Option, none, String, if◌then◌else◌}
use mini_wallet.RichError.{Error, nil}
use mini_wallet.Sql.{is_nil}

pub data Call : Type 0 where
  -- `tracer.Start`, with the method
  start_span : String → Call
  -- `metrics.record`, with the method and the status
  record_metrics : String → String → Call
  -- `span.RecordError` and `span.SetStatus(codes.Error, ...)`
  record_error : Call
  set_status_error : Call
  set_status_ok : Call
  log_error : Call
  log_info : Call
  end_span : Call

-- What a handler does: it returns a response, which may be nil, and an error, or it panics.
pub data Handled (A : Type 0) : Type 0 where
  returned : Option A → Error → Handled A
  panicked : Handled A

-- `Interceptors`: whether `metrics` is set, and the status of an error.
pub record Interceptors : Type 0 where
  pub metrics : Bool
  pub status_code : Error → String

module _ (i : Interceptors) where
  abbrev measured : String → Error → List Call
  measured method e = if i.metrics then record_metrics method (i.status_code e) ∷ [] else []

  abbrev recovered : List Call
  recovered = log_error ∷ record_error ∷ set_status_error ∷ end_span ∷ []

  unfoldable pub unary_server_interceptor :
      {A : Type 0} → String → Handled A → (Option A × Error) × List Call
  unary_server_interceptor method (returned resp e) = (
    (resp, e),
    start_span method ∷ measured method e
        ++ (if is_nil e
            then set_status_ok ∷ []
            else record_error ∷ set_status_error ∷ log_error ∷ [])
        ++ end_span ∷ [],
  )
  -- The deferred function assigns to `err`, which is not what the call returns.
  unary_server_interceptor method panicked = ((none, nil), start_span method ∷ recovered)

  -- A stream handler returns an error only.
  unfoldable pub stream_server_interceptor : String → Handled (Unit {0}) → Error × List Call
  stream_server_interceptor method (returned _ e) = (
    e,
    start_span method ∷ measured method e
        ++ (if is_nil e
            then set_status_ok ∷ log_info ∷ []
            else record_error ∷ set_status_error ∷ log_error ∷ [])
        ++ end_span ∷ [],
  )
  stream_server_interceptor method panicked = (nil, start_span method ∷ recovered)

  -- With what the invoker returns.
  unfoldable pub unary_client_interceptor : String → Error → Error × List Call
  unary_client_interceptor method e = (
    e,
    start_span method ∷ measured method e
        ++ (if is_nil e
            then set_status_ok ∷ []
            else record_error ∷ set_status_error ∷ log_error ∷ [])
        ++ end_span ∷ [],
  )

  -- With what the streamer reports; the wrapped stream goes on below.
  unfoldable pub stream_client_interceptor : String → Error → Error × List Call
  stream_client_interceptor method e = (
    e,
    start_span method
        ∷ (if is_nil e then [] else record_error ∷ set_status_error ∷ end_span ∷ log_error ∷ []),
  )

  -- `RecvMsg` and `CloseSend` of the wrapped stream, with what the stream itself returns.
  unfoldable pub recv_msg : String → Error → Error × List Call
  recv_msg method e = (
    e,
    if is_nil e then [] else measured method e ++ record_error ∷ set_status_error ∷ end_span ∷ [],
  )

  unfoldable pub close_send : String → Error → Error × List Call
  close_send method e = (
    e,
    if is_nil e
        then (if i.metrics then record_metrics method "OK" ∷ [] else [])
          ++ set_status_ok ∷ end_span ∷ []
        else [],
  )
