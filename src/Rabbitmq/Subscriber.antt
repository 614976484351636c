-- ===== src/Rabbitmq/Subscriber.antt =====
-- `baseSubscriber` and the three subscribers of pkg/rabbitmq/subscriber.go, with `startWorkers` and
-- `consumerGroup` of pkg/rabbitmq/worker.go. The state is the subscriber with its channels, as the
-- broker sees them, numbered in the order in which they are opened. A call of the AMQP library may
-- report an error and has then done nothing; closing a channel ends it, and what consumes on it,
-- also where it reports an error. `Close` waits for the workers, at most as long as its context
-- lasts; the wait changes nothing here.
use Prim.Native.String.{String, ◌++◌ as join}
use mini_wallet.Base.{ℕ, suc, List, [], ◌∷◌, ◌++◌, Bool, true, false, ◌==◌, reject, if◌then◌else◌}
use mini_wallet.Base.Int.{ℤ}
use mini_wallet.RichError.{Error, plain, wrapped}
use mini_wallet.Sql.{
  World, Result, ok, err, Action, ◌>>=◌, ◌>>◌, pure, call, exec, or_else, raise_if,
}
use mini_wallet.Rabbitmq.Names.{QueueNames, build_names}
use mini_wallet.Rabbitmq.Worker.{WorkerConfig, worker_defaults}

-- The goroutines of a group share its channel; their number, and the prefetch count, are those of
-- the configuration.
pub record ConsumerGroup : Type 0 where
  pub ch : ℕ
  pub tag : ℕ
  pub queue : String
  pub workers : ℤ
  pub prefetch : ℤ

pub record Subscriber : Type 0 where
  pub closed : Bool
  -- whether the context of the workers is cancelled
  pub cancelled : Bool
  pub publish_ch : ℕ
  pub consumers : List ConsumerGroup
  -- the channels that are open, the consumers that the broker delivers to, the next channel
  pub channels : List ℕ
  pub consuming : List ConsumerGroup
  pub next : ℕ

abbrev pub Acting : Type 0 → Type 0
Acting A = Action Subscriber A

abbrev pub err_closed : Error
err_closed = plain "rabbitmq: closed"

abbrev pub opened : Subscriber → Result ℕ × Subscriber
opened d = (ok d.next, record d { channels = d.next ∷ d.channels; next = suc d.next })

-- `conn.channel()`
unfoldable pub channel : Acting ℕ
channel = or_else (exec opened) (wrapped "rabbitmq: open channel")

abbrev pub without_channel : ℕ → Subscriber → Subscriber
without_channel c d = record d {
  channels = reject (λ x. x == c) d.channels;
  consuming = reject (λ g. g.ch == c) d.consuming;
}

-- `ch.Close()`
unfoldable pub close_channel : ℕ → Acting (Unit {0})
close_channel c w = let (r, w') = call w in (r, record w' { db = without_channel c w'.db })

-- `if err != nil { _ = ch.Close(); return err }`
unfoldable pub or_close : ℕ → Acting (Unit {0}) → Acting (Unit {0})
unfolding close_channel
or_close c m w =
    let (r, w') = m w in elim r [ ok _ ↦ (ok tt, w') | err e ↦ (err e, (close_channel c w').1) ]

abbrev pub delivers : ConsumerGroup → Subscriber → Result (Unit {0}) × Subscriber
delivers g d = (ok tt, record d { consuming = g ∷ d.consuming })

abbrev pub group_on : WorkerConfig → QueueNames → ℕ → ℕ → ConsumerGroup
group_on cfg n tag c = record {
  ch = c;
  tag = tag;
  queue = n.main_queue;
  workers = (worker_defaults cfg).workers;
  prefetch = (worker_defaults cfg).prefetch_count;
}

-- `startWorkers`, with the UUID that it draws
unfoldable pub start_workers : WorkerConfig → QueueNames → ℕ → Acting ConsumerGroup
unfolding channel or_close
start_workers cfg n tag = do
  c ← or_else channel (wrapped "rabbitmq: open consume channel")
  or_close c (or_else call (wrapped "rabbitmq: set qos"))
  or_close c (or_else (exec (delivers (group_on cfg n tag c))) (wrapped "rabbitmq: consume"))
  pure (group_on cfg n tag c)

abbrev kept : ConsumerGroup → Subscriber → Subscriber
kept g d = record d { consumers = d.consumers ++ g ∷ [] }

-- `s.consumers = append(s.consumers, cg)`
unfoldable pub append_group : ConsumerGroup → Acting (Unit {0})
append_group g w = (ok tt, record w { db = kept g w.db })

-- The test of `subscribe`, and what it does after it has given the mutex back.
unfoldable pub admit : Acting (Unit {0})
admit w = raise_if w.db.closed err_closed w

unfoldable pub consume : WorkerConfig → QueueNames → ℕ → Acting (Unit {0})
unfolding start_workers append_group
consume cfg n tag = start_workers cfg n tag >>= append_group

unfoldable pub subscribe : WorkerConfig → QueueNames → ℕ → Acting (Unit {0})
unfolding admit consume
subscribe cfg n tag = admit >> consume cfg n tag

abbrev pub cancelling : ConsumerGroup → Subscriber → Result (Unit {0}) × Subscriber
cancelling g d = (ok tt, record d { consuming = reject (λ x. x.tag == g.tag) d.consuming })

abbrev first_error : Result (Unit {0}) → Result (Unit {0}) → Result (Unit {0})
first_error (err e) r = err e
first_error (ok _) r = r

-- `consumerGroup.close`
unfoldable pub close_group : ConsumerGroup → Acting (Unit {0})
unfolding close_channel
close_group g w =
    let (r₁, w₁) = or_else (exec (cancelling g)) (wrapped "rabbitmq: cancel consumer") w in
    let (r₂, w₂) = or_else (close_channel g.ch) (wrapped "rabbitmq: close consumer channel") w₁ in
    (first_error r₁ r₂, w₂)

abbrev noted : Result (Unit {0}) → List Error → List Error
noted (ok _) errs = errs
noted (err e) errs = errs ++ e ∷ []

-- The loop of `close`, with `errs`.
unfoldable pub close_groups :
    List ConsumerGroup → List Error → World Subscriber → List Error × World Subscriber
unfolding close_group
close_groups [] errs w = (errs, w)
close_groups (g ∷ gs) errs w = let (r, w') = close_group g w in close_groups gs (noted r errs) w'

abbrev joined : List Error → Result (Unit {0})
joined [] = ok tt
joined (e ∷ es) = err (plain "rabbitmq: close subscriber")

abbrev pub shut : Subscriber → Subscriber
shut d = record d { closed = true; cancelled = true }

unfoldable pub close_open : Acting (Unit {0})
unfolding close_groups close_channel
close_open w =
    let (errs, w₁) = close_groups w.db.consumers [] (record w { db = shut w.db }) in
    let (r, w₂) =
      or_else (close_channel w.db.publish_ch) (wrapped "rabbitmq: close dlq publish channel") w₁ in
    (joined (noted r errs), w₂)

unfoldable pub close : Acting (Unit {0})
unfolding close_open
close w = if w.db.closed then (ok tt, w) else close_open w

-- `newBaseSubscriber` over a connection on which no channel of its own is open
abbrev pub no_subscriber : Subscriber
no_subscriber = record {
  closed = false;
  cancelled = false;
  publish_ch = 0;
  consumers = [];
  channels = [];
  consuming = [];
  next = 0;
}

unfoldable pub new_base_subscriber : Acting (Unit {0})
unfolding channel
new_base_subscriber = do
  c ← or_else channel (wrapped "rabbitmq: open publish channel for dlq")
  λ w. (ok tt, record w { db = record w.db { publish_ch = c } })

-- The names that each of the three `Subscribe` gives to `subscribe`.
abbrev pub direct_names : String → QueueNames
direct_names event_name = build_names event_name event_name

abbrev pub fanout_names : String → String → QueueNames
fanout_names event_name queue_base = record (build_names event_name queue_base) {
  main_exchange = join event_name ".retry.exchange";
}

abbrev pub topic_names : String → String → QueueNames
topic_names event_name queue_base = build_names event_name queue_base

-- `NewDirectSubscriber`, `NewFanoutSubscriber` and `NewTopicSubscriber`
unfoldable pub new_direct_subscriber : Acting (Unit {0})
new_direct_subscriber = or_else new_base_subscriber (wrapped "rabbitmq: new direct subscriber")

unfoldable pub new_fanout_subscriber : Acting (Unit {0})
new_fanout_subscriber = or_else new_base_subscriber (wrapped "rabbitmq: new fanout subscriber")

unfoldable pub new_topic_subscriber : Acting (Unit {0})
new_topic_subscriber = or_else new_base_subscriber (wrapped "rabbitmq: new topic subscriber")
