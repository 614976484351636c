-- ===== src/Rabbitmq/Tests.antt =====
-- Deliveries and topologies on which the theorems about pkg/rabbitmq are applied.
use mini_wallet.Base.{List, [], ◌∷◌, ◌≡◌, none, refl, true, false, arith}
use mini_wallet.Base.Int.{pos}
use mini_wallet.RichError.{Error, plain}
use mini_wallet.Sql.{World}
use mini_wallet.Rabbitmq.Names.{QueueNames, build_names}
use mini_wallet.Rabbitmq.Topology.{Declaration, TopicBinding}
use mini_wallet.Rabbitmq.Headers.{empty}
use mini_wallet.Rabbitmq.Worker.{WorkerConfig, Delivery, ack, nack, publish}
use mini_wallet.Rabbitmq.Publisher
use mini_wallet.Rabbitmq.Publisher.{Published}
use mini_wallet.Rabbitmq.Published.{Reports, publish-Reports}
use mini_wallet.Rabbitmq.Settled.{deliveries, deliveries_end, at_rejection}

abbrev config : WorkerConfig
config = record {
  max_retry = pos 2;
  workers = pos 1;
  prefetch_count = pos 10;
  handler_timeout = pos 0;
  on_dlq_fail = true;
  on_panic = true;
}

abbrev names : QueueNames
names = build_names "user" "wallet"

abbrev delivery : Delivery
delivery = record {
  message_id = 3;
  content_type = "application/json";
  body = 1 ∷ [];
  timestamp = 5;
  headers = empty;
}

abbrev refused : Error
refused = plain "refused"

deliveries_end_example :
    deliveries 5 config names delivery refused 0
    ≡ (nack false ∷ [])
      ∷ (nack false ∷ [])
      ∷ (publish names.dlx_exchange names.dlq (at_rejection names delivery 2) ∷ ack ∷ [])
      ∷ []
deliveries_end_example = deliveries_end config names delivery refused 2 refl refl 5 (omega arith)

abbrev channel : World (List Declaration)
channel = record { db = []; tx = none; faults = []; now = 0 }

abbrev bindings : List TopicBinding
bindings =
    record { queue_base = "wallet"; routing_key = "user.created" }
    ∷ record { queue_base = "wallet"; routing_key = "user.deleted" }
    ∷ []

abbrev announced : Published
announced = record { exchange = "user.exchange"; routing_key = "user.created"; body = 1 ∷ [] }

-- The first attempt loses its channel.
abbrev broken : World (List Published)
broken = record { db = []; tx = none; faults = plain "channel closed" ∷ []; now = 0 }

publish-Reports_example :
    Reports announced [] (Publisher.publish (λ e. true) false announced broken)
publish-Reports_example = publish-Reports (λ e. true) false announced broken
