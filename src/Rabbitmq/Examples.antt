-- ===== src/Rabbitmq/Examples.antt =====
-- A subscriber with one consumer group and a connection that was lost, on which the theorems about
-- pkg/rabbitmq/subscriber.go and pkg/rabbitmq/connection.go are applied.
use text.Mathlib.Text.{◌==◌ as str_eq}
use mini_wallet.Base.{List, [], ◌∷◌, none, true, false, ◌≡◌, refl}
use mini_wallet.Base.Int.{pos}
use mini_wallet.RichError.{nil, plain}
use mini_wallet.Sql.{World, ok, err, is_nil, sql}
use mini_wallet.Rabbitmq.Names.{QueueNames}
use mini_wallet.Rabbitmq.Worker.{WorkerConfig}
use mini_wallet.Rabbitmq.Subscriber.{
  ConsumerGroup, Subscriber, direct_names, topic_names, group_on, admit, consume, subscribe, close,
  close_open, close_groups, close_group, close_channel, err_closed,
}
use mini_wallet.Rabbitmq.Topology.{
  Declaration, TopicBinding, declare, declare_direct, declare_topic, topic_bindings, topic_queue,
}
use mini_wallet.Rabbitmq.Routing.{returns, has_retry, any_queue, retries_return}
use mini_wallet.Rabbitmq.Subscribing.{Working}
use mini_wallet.Rabbitmq.Closing.{Ended, Leaking, close_outcome, late_subscribe_leaks}
use mini_wallet.Rabbitmq.Connection as Connection
use mini_wallet.Rabbitmq.Reconnecting.{close_reconnects}

abbrev config : WorkerConfig
config = record {
  max_retry = pos 3;
  workers = pos 0;
  prefetch_count = pos 20;
  handler_timeout = pos 0;
  on_dlq_fail = true;
  on_panic = true;
}

abbrev names : QueueNames
names = direct_names "notification"

abbrev group : ConsumerGroup
group = group_on config names 70 1

abbrev subscriber : Subscriber
subscriber = record {
  closed = false;
  cancelled = false;
  publish_ch = 0;
  consumers = group ∷ [];
  channels = 1 ∷ 0 ∷ [];
  consuming = group ∷ [];
  next = 2;
}

abbrev quiet : World Subscriber
quiet = record { db = subscriber; tx = none; faults = []; now = 0 }

-- The second call fails.
abbrev flaky : World Subscriber
flaky = record quiet { faults = nil ∷ plain "channel/connection is not open" ∷ [] }

subscriber-Working : Working subscriber
subscriber-Working = (refl, record { channels = (refl, (refl, tt)); backed = (refl, tt) })

close_outcome_example :
    Ended (close flaky).1.db
    × (close (close flaky).1 ≡ (ok tt, (close flaky).1))
    × (subscribe config names 71 (close flaky).1 ≡ (err err_closed, (close flaky).1))
close_outcome_example = close_outcome config names 71 flaky subscriber-Working

late_subscribe_leaks_example :
    (admit quiet ≡ (ok tt, quiet)) × Leaking names (consume config names 71 (close quiet).1)
unfolding close close_open close_groups close_group close_channel sql
late_subscribe_leaks_example = late_subscribe_leaks config names 71 quiet subscriber-Working refl

-- The first connection is lost, the watcher reads of it and has yet to dial.
abbrev lost : Connection.Connection
lost = record {
  conn = 0;
  closed = false;
  alive = [];
  clean = [];
  next = 1;
  watcher = Connection.retrying;
}

lost-Reachable : Connection.Reachable lost
unfolding Connection.new_connection Connection.connect Connection.load Connection.notified
lost-Reachable =
    Connection.after
      (Connection.after (Connection.after (Connection.start nil refl) (Connection.loads refl))
        (Connection.loses 0))
      (Connection.reads 0 (plain "connection reset by peer") refl refl (λ e. cc))

close_reconnects_example :
    (is_nil (Connection.close lost).0 ≡ false)
    × ((Connection.close lost).1 ≡ lost)
    × ((Connection.retry nil (Connection.close lost).1).alive ≡ 1 ∷ [])
    × ((Connection.load (Connection.retry nil (Connection.close lost).1)).watcher
        ≡ Connection.listening 1)
close_reconnects_example = close_reconnects lost lost-Reachable refl

-- The topic of the auth and wallet services, whose keys have no wildcards.
abbrev user_binding : TopicBinding
user_binding = record { queue_base = "wallet-service"; routing_key = "user.created" }

abbrev fresh : World (List Declaration)
fresh = record { db = []; tx = none; faults = []; now = 0 }

retries_return_example :
    (returns str_eq
        (str_eq (direct_names "user").retry_queue)
        (str_eq (direct_names "user").main_queue)
        (declare_direct "user" 5000 fresh).1.db
      ≡ true)
    × (has_retry
          (topic_names "user" "wallet-service").retry_queue
          (declare_topic "user" 5000 (user_binding ∷ []) fresh).1.db
        ≡ true)
    × (returns str_eq any_queue any_queue (declare_topic "user" 5000 (user_binding ∷ []) fresh).1.db
        ≡ false)
unfolding declare_direct declare_topic topic_bindings topic_queue declare sql
retries_return_example =
    retries_return str_eq "user" 5000 user_binding [] fresh (declare_direct "user" 5000 fresh).1
      (declare_topic "user" 5000 (user_binding ∷ []) fresh).1 tt refl (((refl, refl, refl), tt), tt)
      refl refl
