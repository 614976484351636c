-- ===== src/Rabbitmq/Settled.antt =====
-- How deliveries end (`processMessage` of pkg/rabbitmq/worker.go).

use text.Mathlib.TextEquality.{eq_iff}
use mini_wallet.Base.{
  ℕ, zero, suc, ◌+◌, ◌<◌, List, [], ◌∷◌, Bool, true, false, String, if◌then◌else◌, ◌≡◌, refl, ap,
  arith, any,
}
use mini_wallet.Base.Int.{pos}
use mini_wallet.RichError.{Error, nil}
use mini_wallet.Sql.{is_nil}
use mini_wallet.Rabbitmq.Names.{QueueNames}
use mini_wallet.Rabbitmq.Headers.{
  Table, empty, entry, Value, string, int64, items, table, end, and, extract_rejected_count,
}
use mini_wallet.Rabbitmq.Worker.{
  WorkerConfig, Delivery, Handled, returned, panicked, Step, ack, nack, publish, call_on_dlq_fail,
  call_on_panic, process_message, dead_letter,
}

abbrev pub is_settlement : Step → Bool
is_settlement ack = true
is_settlement (nack requeue) = true
is_settlement (publish x k m) = false
is_settlement (call_on_dlq_fail e) = false
is_settlement call_on_panic = false

abbrev pub settlements : List Step → ℕ
settlements [] = 0
settlements (s ∷ ss) = let rest = settlements ss in if is_settlement s then suc rest else rest

abbrev pub is_ack : Step → Bool
is_ack ack = true
is_ack (nack requeue) = false
is_ack (publish x k m) = false
is_ack (call_on_dlq_fail e) = false
is_ack call_on_panic = false

-- Every delivery is settled exactly once, by one Ack or one Nack, whatever the handler and the
-- dead-letter exchange do.
process_message-settles :
    (cfg : WorkerConfig) (n : QueueNames) (msg : Delivery) (handled : Handled) (pub_err : Error)
    → settlements (process_message cfg n msg handled pub_err) ≡ 1
unfolding process_message dead_letter
process_message-settles cfg n msg panicked pub_err = ground arith
process_message-settles cfg n msg (returned e) pub_err = ground arith

-- The header of a message whose main queue has rejected it k times, as RabbitMQ keeps it: an entry
-- for each queue and reason, the latest first.
abbrev pub death : String → String → ℕ → Value
death queue_name reason k = table (
    entry "queue" (string queue_name)
      (entry "reason" (string reason) (entry "count" (int64 (pos k)) empty)))

abbrev pub rejected_times : QueueNames → ℕ → Table
rejected_times n zero = empty
rejected_times n (suc k) =
    entry "x-death"
      (items (
        and (death n.retry_queue "expired" (suc k))
          (and (death n.main_queue "rejected" (suc k)) end)))
      empty

-- The deliveries of one message whose handling always fails, and whose publication on the
-- dead-letter exchange returns nil: a rejected message comes back from the retry queue, an acknowledged one does not. The
-- first argument is how many deliveries are followed at most, the last how many were rejected.
unfoldable pub deliveries : ℕ → WorkerConfig → QueueNames → Delivery → Error → ℕ → List (List Step)
deliveries zero cfg n msg e k = []
deliveries (suc fuel) cfg n msg e k =
    let steps =
      process_message cfg n (record msg { headers = rejected_times n k }) (returned e) nil in
    let rest = deliveries fuel cfg n msg e (suc k) in
    if any is_ack steps then steps ∷ [] else steps ∷ rest

rejected_times-count :
    (n : QueueNames) (k : ℕ) → extract_rejected_count (rejected_times n k) n.main_queue ≡ pos k
unfolding extract_rejected_count
rejected_times-count n zero = refl
rejected_times-count n (suc k) = ground (arith, (eq_iff n.main_queue n.main_queue).1 refl)

abbrev pub at_rejection : QueueNames → Delivery → ℕ → Delivery
at_rejection n msg k = record msg { headers = rejected_times n k }

module _ (cfg : WorkerConfig) (n : QueueNames) (msg : Delivery) (e : Error) (m : ℕ)
    (limit : cfg.max_retry ≡ pos m) (fails : is_nil e ≡ false) where
  rejected_again :
      (k : ℕ)
      → k < m
      → process_message cfg n (at_rejection n msg k) (returned e) nil ≡ nack false ∷ []
  unfolding process_message
  rejected_again k h = rw (fails, rejected_times-count n k, limit) (ground arith)

  dead_lettered :
      process_message cfg n (at_rejection n msg m) (returned e) nil
      ≡ publish n.dlx_exchange n.dlq (at_rejection n msg m) ∷ ack ∷ []
  unfolding process_message dead_letter
  dead_lettered = rw (fails, rejected_times-count n m, limit) (ground arith)

  -- The steps of a delivery, so often, and then the last.
  abbrev pub repeated : ℕ → List Step → List (List Step)
  repeated zero last = last ∷ []
  repeated (suc j) last = (nack false ∷ []) ∷ repeated j last

  deliveries_from :
      (fuel j k : ℕ)
      → j + k ≡ m
      → j < fuel
      → deliveries fuel cfg n msg e k
        ≡ repeated j (publish n.dlx_exchange n.dlq (at_rejection n msg m) ∷ ack ∷ [])
  unfolding deliveries
  deliveries_from zero j k e₁ h = ground arith
  deliveries_from (suc fuel) zero k e₁ h =
      let here : k ≡ m = omega (arith, e₁) in rw (here, dead_lettered) refl
  deliveries_from (suc fuel) (suc j) k e₁ h = rw (rejected_again k (omega (arith, e₁))) (
      ap (λ rest. (nack false ∷ []) ∷ rest)
        (deliveries_from fuel j (suc k) (omega (arith, e₁)) (omega (arith, h))))

  -- A message whose handling fails each time, and which is delivered again with each rejection, is
  -- rejected exactly `MaxRetry` times; then it is published on the dead-letter exchange and
  -- acknowledged, and it is delivered no more, where that publication returns nil.
  pub deliveries_end :
      (fuel : ℕ)
      → m < fuel
      → deliveries fuel cfg n msg e 0
        ≡ repeated m (publish n.dlx_exchange n.dlq (at_rejection n msg m) ∷ ack ∷ [])
  deliveries_end fuel h = deliveries_from fuel m 0 (omega arith) h
