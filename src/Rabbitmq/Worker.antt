-- ===== src/Rabbitmq/Worker.antt =====
-- `startWorkers` (its defaults) and `processMessage` of pkg/rabbitmq/worker.go. What the handler does, and
-- what `PublishWithContext` on the dead-letter exchange returns, are arguments. The errors
-- of Ack and Nack are dropped, as in the source.
use mini_wallet.Base.{ℕ, List, [], ◌∷◌, ◌++◌, Bool, true, false, String, if◌then◌else◌}
use mini_wallet.Base.Int.{ℤ, pos, leb_ℤ}
use mini_wallet.RichError.{Error}
use mini_wallet.Sql.{is_nil}
use mini_wallet.Rabbitmq.Names.{QueueNames}
use mini_wallet.Rabbitmq.Headers.{Table, extract_rejected_count}

-- `workerConfig`; of the callbacks, whether they are set.
pub record WorkerConfig : Type 0 where
  pub max_retry : ℤ
  pub workers : ℤ
  pub prefetch_count : ℤ
  pub handler_timeout : ℤ
  pub on_dlq_fail : Bool
  pub on_panic : Bool

-- `if x <= 0 { x = default }`
abbrev pub or_default : ℤ → ℤ → ℤ
or_default default x = if leb_ℤ x (pos 0) then default else x

-- The numbers of workers and of prefetched messages, and the timeout in nanoseconds.
unfoldable pub worker_defaults : WorkerConfig → WorkerConfig
worker_defaults cfg = record cfg {
  workers = or_default (pos 1) cfg.workers;
  handler_timeout = or_default (pos 30000000000) cfg.handler_timeout;
  prefetch_count = or_default (pos 10) cfg.prefetch_count;
}

-- `amqp.Delivery`
pub record Delivery : Type 0 where
  pub message_id : ℕ
  pub content_type : String
  pub body : List ℕ
  pub timestamp : ℕ
  pub headers : Table

pub data Handled : Type 0 where
  returned : Error → Handled
  panicked : Handled

-- What `processMessage` does to the broker and with the callbacks, in order.
pub data Step : Type 0 where
  ack : Step
  -- `msg.Nack(false, requeue)`
  nack : Bool → Step
  -- a `PublishWithContext` that returned nil: the exchange, the key and the message; without
  -- confirm mode this does not tell whether the broker has the message
  publish : String → String → Delivery → Step
  call_on_dlq_fail : Error → Step
  call_on_panic : Step

unfoldable pub dead_letter : WorkerConfig → QueueNames → Delivery → Error → List Step
dead_letter cfg n msg pub_err =
    if is_nil pub_err
    then publish n.dlx_exchange n.dlq msg ∷ ack ∷ []
    else (if cfg.on_dlq_fail then call_on_dlq_fail pub_err ∷ [] else []) ++ nack true ∷ []

unfoldable pub process_message : WorkerConfig → QueueNames → Delivery → Handled → Error → List Step
unfolding dead_letter
process_message cfg n msg panicked pub_err =
    (if cfg.on_panic then call_on_panic ∷ [] else []) ++ nack true ∷ []
process_message cfg n msg (returned e) pub_err =
    if is_nil e
    then ack ∷ []
    else if leb_ℤ cfg.max_retry (extract_rejected_count msg.headers n.main_queue)
    then dead_letter cfg n msg pub_err
    else nack false ∷ []
