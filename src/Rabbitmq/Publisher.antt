-- ===== src/Rabbitmq/Publisher.antt =====
-- pkg/rabbitmq/publisher.go. The state is the list of the messages whose `PublishWithContext`
-- has returned nil, in order. The channel is not in confirm mode, so whether the broker has such a
-- message is not known to the program, and is not in the state.
-- `isChannelError` reads the AMQP library's error type and is a parameter.
use Prim.Native.String.{String, ◌++◌ as join}
use mini_wallet.Base.{ℕ, List, [], ◌∷◌, ◌++◌, Bool, not, if◌then◌else◌}
use mini_wallet.RichError.{Error, plain, wrapped}
use mini_wallet.Sql.{World, Result, ok, err, Action, ◌>>◌, call, exec, or_else}
use mini_wallet.Rabbitmq.Names.{build_names}

pub record Published : Type 0 where
  pub exchange : String
  pub routing_key : String
  pub body : List ℕ

-- A call of `PublishWithContext`, which the list notes where it returns nil.
unfoldable pub publish_with_context : Published → Action (List Published) (Unit {0})
publish_with_context p = exec (λ ps. (ok tt, ps ++ p ∷ []))

module _ (is_channel_error : Error → Bool) (closed : Bool) where
  -- A second attempt on a new channel, where the first failed with the channel.
  unfoldable pub retried :
      Published
      → Result (Unit {0}) × World (List Published)
      → Result (Unit {0}) × World (List Published)
  retried p (ok _, w) = (ok tt, w)
  retried p (err e, w) =
      if not (is_channel_error e)
      then (err e, w)
      else (or_else call (λ x. wrapped "rabbitmq: reopen channel" x) >> publish_with_context p) w

  -- `basePublisher.publish`
  unfoldable pub publish : Published → Action (List Published) (Unit {0})
  unfolding retried
  publish p w =
      if closed then (err (plain "rabbitmq: closed"), w) else retried p (publish_with_context p w)

  unfoldable pub publish_direct : String → List ℕ → Action (List Published) (Unit {0})
  publish_direct event_name body =
      let n = build_names event_name event_name in
      publish (record { exchange = n.main_exchange; routing_key = n.main_queue; body = body })

  unfoldable pub publish_fanout : String → List ℕ → Action (List Published) (Unit {0})
  publish_fanout event_name body =
      publish (record { exchange = join event_name ".exchange"; routing_key = ""; body = body })

  unfoldable pub publish_topic : String → String → List ℕ → Action (List Published) (Unit {0})
  publish_topic event_name routing_key body =
      publish
        (record { exchange = join event_name ".exchange"; routing_key = routing_key; body = body })
