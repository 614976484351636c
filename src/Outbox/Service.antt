-- ===== src/Outbox/Service.antt =====
-- internal/auth/service/outbox/service.go, and internal/notification/service/outbox/service.go. The
-- section's last parameter is `ProcessEvent`, in which the two differ.
use mini_wallet.Base.{ℕ, List, [], ◌∷◌}
use mini_wallet.RichError.{report, internal}
use mini_wallet.Sql.{World, Result, ok, err, Action, ◌>>◌, pure, or_else}
use mini_wallet.Outbox.Table.{OutboxEvent, Store}
use mini_wallet.Outbox.Repository

module _ {D : Type 0} (s : Store D) where
  unfoldable pub claim_outbox_events : ℕ → ℕ → Action D (List OutboxEvent)
  claim_outbox_events count lock_timeout =
      or_else (Repository.claim_outbox_events s count lock_timeout)
        (λ e. report "worker.ClaimOutboxEvents" e "failed to list outbox events" internal)

  unfoldable pub recover_stale_events : Action D ℕ
  recover_stale_events =
      or_else (Repository.recover_stale_outbox_events s)
        (λ e. report "outbox.RecoverStaleEvents" e "failed to recover stale events" internal)

  unfoldable pub mark_events_processed : List ℕ → Action D (Unit {0})
  mark_events_processed [] = pure tt
  mark_events_processed (k ∷ ks) =
      or_else (Repository.mark_outbox_events_processed s (k ∷ ks))
        (λ e. report "outbox.MarkEventsProcessed" e "failed to mark events as processed" internal)

  unfoldable pub mark_events_failed : List ℕ → Action D (Unit {0})
  mark_events_failed [] = pure tt
  mark_events_failed (k ∷ ks) =
      or_else (Repository.mark_outbox_events_failed s (k ∷ ks))
        (λ e. report "outbox.MarkEventsFailed" e "failed to mark events as failed" internal)

  module _ (process_event : OutboxEvent → Action D (Unit {0})) where
    -- What follows `ProcessEvent` in `ProcessSingleEvent`; the errors of both marks are dropped.
    unfoldable pub settle_single : ℕ → Result (Unit {0}) × World D → Result (Unit {0}) × World D
    settle_single event_id (err e, w) =
        let (_, w') = Repository.mark_outbox_event_failed s event_id w in
        (err (report "outbox.ProcessSingleEvent" e "failed to process event" internal), w')
    settle_single event_id (ok _, w) =
        let (_, w') = Repository.mark_outbox_event_processed s event_id w in (ok tt, w')

    unfoldable pub process_single_event : ℕ → OutboxEvent → Action D (Unit {0})
    unfolding settle_single
    process_single_event lock_timeout e =
        or_else (Repository.claim_single_event s e.event_id lock_timeout)
          (λ x. report "outbox.ProcessSingleEvent" x "failed to claim single event" internal)
        >> λ w. settle_single e.event_id (process_event e w)
