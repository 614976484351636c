-- ===== src/Rabbitmq/Names.antt =====
-- `queueNames` and `buildNames` of pkg/rabbitmq/helpers.go.
use Prim.Native.String.{String, ◌++◌ as join}

pub record QueueNames : Type 0 where
  pub main_exchange : String
  pub dlx_exchange : String
  pub main_queue : String
  pub retry_queue : String
  pub dlq : String

abbrev pub build_names : String → String → QueueNames
build_names event_name queue_base = record {
  main_exchange = join event_name ".exchange";
  dlx_exchange = join event_name ".dlx";
  main_queue = join queue_base ".queue";
  retry_queue = join queue_base ".retry.queue";
  dlq = join queue_base ".dlq";
}
