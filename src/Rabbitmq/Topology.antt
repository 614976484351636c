-- ===== src/Rabbitmq/Topology.antt =====
-- pkg/rabbitmq/topology.go. The state is the list of the declarations that the broker has accepted
-- on the channel; a call may report an error instead. A TTL is in milliseconds.
use Prim.Native.String.{String, ◌++◌ as join}
use text.Mathlib.Text.{◌==◌ as str_eq}
use mini_wallet.Base.{ℕ, List, [], ◌∷◌, ◌++◌, Option, none, some, any, if◌then◌else◌}
use mini_wallet.RichError.{wrapped}
use mini_wallet.Sql.{ok, Action, ◌>>◌, pure, exec, or_else}
use mini_wallet.Rabbitmq.Names.{build_names}

pub data Declaration : Type 0 where
  -- `ExchangeDeclare(name, kind, true, false, false, false, nil)`
  exchange : String → String → Declaration
  -- `QueueDeclare(name, true, false, false, false, args)`, with the arguments `x-message-ttl` and
  -- `x-dead-letter-exchange` with `x-dead-letter-routing-key`
  queue : String → Option ℕ → Option (String × String) → Declaration
  -- `QueueBind(queue, key, exchange, false, nil)`
  binding : String → String → String → Declaration

abbrev pub Declaring : Type 0
Declaring = Action (List Declaration) (Unit {0})

unfoldable pub declare : Declaration → Declaring
declare d = exec (λ ds. (ok tt, ds ++ d ∷ []))

abbrev pub declare_exchange : String → String → Declaring
declare_exchange name kind = declare (exchange name kind)

abbrev pub declare_queue_with_dlx : String → String → String → Declaring
declare_queue_with_dlx name dlx_exchange dlx_key =
    declare (queue name none (some (dlx_exchange, dlx_key)))

abbrev pub declare_retry_queue : String → String → String → ℕ → Declaring
declare_retry_queue name dlx_exchange dlx_key ttl =
    declare (queue name (some ttl) (some (dlx_exchange, dlx_key)))

abbrev pub declare_dlq : String → Declaring
declare_dlq name = declare (queue name none none)

-- `QueueBind`, and `fmt.Errorf("rabbitmq: bind ...: %w", err)`; the names that the format adds are
-- left out of the text.
abbrev pub bind_queue : String → String → String → Declaring
bind_queue name key from =
    or_else (declare (binding name key from)) (λ e. wrapped "rabbitmq: bind" e)

unfoldable pub declare_direct : String → ℕ → Declaring
declare_direct event_name retry_ttl =
    let n = build_names event_name event_name in
    declare_exchange n.main_exchange "direct"
    >> declare_exchange n.dlx_exchange "direct"
    >> declare_queue_with_dlx n.main_queue n.main_exchange n.retry_queue
    >> declare_retry_queue n.retry_queue n.main_exchange n.main_queue retry_ttl
    >> declare_dlq n.dlq
    >> bind_queue n.main_queue n.main_queue n.main_exchange
    >> bind_queue n.retry_queue n.retry_queue n.main_exchange
    >> bind_queue n.dlq n.dlq n.dlx_exchange

-- The loop of `DeclareFanout`.
unfoldable pub fanout_queues : String → ℕ → List String → Declaring
fanout_queues event_name retry_ttl [] = pure tt
fanout_queues event_name retry_ttl (queue_base ∷ queues) =
    let n = build_names event_name queue_base in
    let retry_exchange = join event_name ".retry.exchange" in
    declare_queue_with_dlx n.main_queue retry_exchange n.retry_queue
    >> declare_retry_queue n.retry_queue retry_exchange n.main_queue retry_ttl
    >> declare_dlq n.dlq
    >> bind_queue n.main_queue "" (join event_name ".exchange")
    >> bind_queue n.retry_queue n.retry_queue retry_exchange
    >> bind_queue n.dlq n.dlq (join event_name ".dlx")
    >> fanout_queues event_name retry_ttl queues

unfoldable pub declare_fanout : String → ℕ → List String → Declaring
declare_fanout event_name retry_ttl queues =
    declare_exchange (join event_name ".exchange") "fanout"
    >> declare_exchange (join event_name ".retry.exchange") "direct"
    >> declare_exchange (join event_name ".dlx") "direct"
    >> fanout_queues event_name retry_ttl queues

pub record TopicBinding : Type 0 where
  pub queue_base : String
  pub routing_key : String

unfoldable pub topic_queue : String → ℕ → String → Declaring
topic_queue event_name retry_ttl queue_base =
    let n = build_names event_name queue_base in
    let main_exchange = join event_name ".exchange" in
    declare_queue_with_dlx n.main_queue main_exchange n.retry_queue
    >> declare_retry_queue n.retry_queue main_exchange n.main_queue retry_ttl
    >> declare_dlq n.dlq
    >> bind_queue n.retry_queue n.retry_queue main_exchange
    >> bind_queue n.dlq n.dlq (join event_name ".dlx")

-- The loop of `DeclareTopic`; the list is `declaredQueues`.
unfoldable pub topic_bindings : String → ℕ → List String → List TopicBinding → Declaring
topic_bindings event_name retry_ttl declared [] = pure tt
topic_bindings event_name retry_ttl declared (b ∷ bindings) =
    (if any (str_eq b.queue_base) declared
      then pure tt
      else topic_queue event_name retry_ttl b.queue_base)
    >> bind_queue (build_names event_name b.queue_base).main_queue b.routing_key
        (join event_name ".exchange")
    >> topic_bindings event_name retry_ttl (b.queue_base ∷ declared) bindings

unfoldable pub declare_topic : String → ℕ → List TopicBinding → Declaring
declare_topic event_name retry_ttl bindings =
    declare_exchange (join event_name ".exchange") "topic"
    >> declare_exchange (join event_name ".dlx") "direct"
    >> topic_bindings event_name retry_ttl [] bindings
