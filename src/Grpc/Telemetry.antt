-- ===== src/Grpc/Telemetry.antt =====
-- How often pkg/grpc/interceptors/interceptors.go measures a call, and ends its span.
use mini_wallet.Base.{
  ℕ, zero, suc, ◌∙◌, ◌+◌, List, [], ◌∷◌, ◌++◌, Bool, true, false, not, ◌≡◌, refl, none, String,
  matching, arith, if◌then◌else◌,
}
use mini_wallet.RichError.{Error, nil}
use mini_wallet.Sql.{is_nil}
use mini_wallet.Grpc.Interceptors.{
  Call, start_span, record_metrics, record_error, set_status_error, set_status_ok, log_error,
  log_info, end_span, Handled, returned, panicked, Interceptors, unary_server_interceptor,
  stream_server_interceptor, recv_msg, close_send,
}

abbrev pub is_metrics : Call → Bool
is_metrics (record_metrics m s) = true
is_metrics (start_span m) = false
is_metrics record_error = false
is_metrics set_status_error = false
is_metrics set_status_ok = false
is_metrics log_error = false
is_metrics log_info = false
is_metrics end_span = false

abbrev pub is_end : Call → Bool
is_end end_span = true
is_end (record_metrics m s) = false
is_end (start_span m) = false
is_end record_error = false
is_end set_status_error = false
is_end set_status_ok = false
is_end log_error = false
is_end log_info = false

-- A call on the stream of a client, with what the stream returns.
pub data StreamCall : Type 0 where
  receives : Error → StreamCall
  closes_send : Error → StreamCall

-- So many receives that go through, and one that does not.
abbrev pub receive_all : ℕ → Error → List StreamCall
receive_all zero eof = receives eof ∷ []
receive_all (suc n) eof = receives nil ∷ receive_all n eof

abbrev pub on_stream : Interceptors → String → StreamCall → List Call
on_stream i method (receives e) = (recv_msg i method e).1
on_stream i method (closes_send e) = (close_send i method e).1

abbrev pub on_calls : Interceptors → String → List StreamCall → List Call
on_calls i method [] = []
on_calls i method (c ∷ cs) = on_stream i method c ++ on_calls i method cs

-- A receive that fails, as at the end of the stream, and a close that does not.
abbrev pub finishes : StreamCall → Bool
finishes (receives e) = not (is_nil e)
finishes (closes_send e) = is_nil e

matching-append :
    (p : Call → Bool) (xs ys : List Call) → matching p (xs ++ ys) ≡ matching p xs + matching p ys
matching-append p [] ys = omega arith
matching-append p (x ∷ xs) ys = ground (arith, matching-append p xs ys)

abbrev pub measures : {A : Type 0} → Interceptors → Handled A → ℕ
measures i (returned resp e) = if i.metrics then 1 else 0
measures i panicked = 0

-- The calls of the server's interceptors end their span once, on every branch, and measure once
-- where metrics are set and the handler returns; a handler that panics is not measured, and is
-- answered like one that has returned a nil response and a nil error.
pub server_interceptors_measure :
    {A : Type 0} (i : Interceptors) (method : String) (h : Handled A) (s : Handled (Unit {0}))
    → (matching is_metrics (unary_server_interceptor i method h).1 ≡ measures i h)
      × (matching is_end (unary_server_interceptor i method h).1 ≡ 1)
      × (matching is_metrics (stream_server_interceptor i method s).1 ≡ measures i s)
      × (matching is_end (stream_server_interceptor i method s).1 ≡ 1)
      × ((unary_server_interceptor i {A = A} method panicked).0
          ≡ (unary_server_interceptor i method (returned none nil)).0)
unfolding unary_server_interceptor stream_server_interceptor
server_interceptors_measure i method h s =
    (unary_metrics h, unary_end h, stream_metrics s, stream_end s, refl)
  where
    unary_metrics :
        {A : Type 0} (h : Handled A)
        → matching is_metrics (unary_server_interceptor i method h).1 ≡ measures i h
    unary_metrics (returned resp e) = ground arith
    unary_metrics panicked = refl

    unary_end :
        {A : Type 0} (h : Handled A) → matching is_end (unary_server_interceptor i method h).1 ≡ 1
    unary_end (returned resp e) = ground arith
    unary_end panicked = refl

    stream_metrics :
        (h : Handled (Unit {0}))
        → matching is_metrics (stream_server_interceptor i method h).1 ≡ measures i h
    stream_metrics (returned resp e) = ground arith
    stream_metrics panicked = refl

    stream_end :
        (h : Handled (Unit {0})) → matching is_end (stream_server_interceptor i method h).1 ≡ 1
    stream_end (returned resp e) = ground arith
    stream_end panicked = refl

on_stream_end :
    (i : Interceptors) (method : String) (c : StreamCall)
    → matching is_end (on_stream i method c) ≡ (if finishes c then 1 else 0)
unfolding recv_msg close_send
on_stream_end i method (receives e) = ground arith
on_stream_end i method (closes_send e) = ground arith

on_stream_metrics :
    (i : Interceptors) (method : String) (c : StreamCall)
    → i.metrics ≡ true
    → matching is_metrics (on_stream i method c) ≡ (if finishes c then 1 else 0)
unfolding recv_msg close_send
on_stream_metrics i method (receives e) h = ground arith
on_stream_metrics i method (closes_send e) h = ground arith

on_calls_end :
    (i : Interceptors) (method : String) (cs : List StreamCall)
    → matching is_end (on_calls i method cs) ≡ matching finishes cs
on_calls_end i method [] = refl
on_calls_end i method (c ∷ cs) = ground (
  arith,
  matching-append is_end (on_stream i method c) (on_calls i method cs),
  on_stream_end i method c,
  on_calls_end i method cs,
)

on_calls_metrics :
    (i : Interceptors) (method : String) (cs : List StreamCall)
    → i.metrics ≡ true
    → matching is_metrics (on_calls i method cs) ≡ matching finishes cs
on_calls_metrics i method [] h = refl
on_calls_metrics i method (c ∷ cs) h = ground (
  arith,
  matching-append is_metrics (on_stream i method c) (on_calls i method cs),
  on_stream_metrics i method c h,
  on_calls_metrics i method cs h,
)

-- Whatever the calls on a client's stream, its span is ended, and the stream measured where metrics
-- are set, once for each receive that fails and once for each close that does not. So a stream that
-- is closed for sending and then read to its end, which a receive reports as an error, counts twice.
pub client_stream_measures :
    (i : Interceptors) (method : String) (cs : List StreamCall) (replies : ℕ) (eof : Error)
    → i.metrics ≡ true
    → is_nil eof ≡ false
    → (matching is_end (on_calls i method cs) ≡ matching finishes cs)
      × (matching is_metrics (on_calls i method cs) ≡ matching finishes cs)
      × (matching is_end (on_calls i method (closes_send nil ∷ receive_all replies eof)) ≡ 2)
      × (matching is_metrics (on_calls i method (closes_send nil ∷ receive_all replies eof)) ≡ 2)
client_stream_measures i method cs replies eof h e = (
  on_calls_end i method cs,
  on_calls_metrics i method cs h,
  on_calls_end i method (closes_send nil ∷ receive_all replies eof) ∙ twice,
  on_calls_metrics i method (closes_send nil ∷ receive_all replies eof) h ∙ twice,
)
  where
    received : (n : ℕ) → matching finishes (receive_all n eof) ≡ 1
    received zero = ground (arith, e)
    received (suc n) = received n

    twice : matching finishes (closes_send nil ∷ receive_all replies eof) ≡ 2
    twice = omega (arith, received replies)
