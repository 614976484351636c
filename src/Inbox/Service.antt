-- ===== src/Inbox/Service.antt =====
-- internal/wallet/service/event/service.go, and internal/notification/service/event/service.go,
-- which is the same file.
use mini_wallet.Base.{ℕ, List}
use mini_wallet.RichError.{rich, new, with_wrapper, report, internal}
use mini_wallet.Sql.{Action, or_else}
use mini_wallet.Inbox.Table.{Store}
use mini_wallet.Inbox.Repository

module _ {D : Type 0} (s : Store D) where
  unfoldable pub run_process : ℕ → List ℕ → Action D (Unit {0})
  run_process id payload =
      or_else (Repository.run_process s id payload)
        (λ e. rich (with_wrapper e (new "event.RunProcess")))

  unfoldable pub mark_sent : ℕ → Action D (Unit {0})
  mark_sent id =
      or_else (Repository.mark_sent s id)
        (λ e. report "event.MarkSent" e "failed to mark message as sent" internal)

  unfoldable pub mark_failed : ℕ → Action D (Unit {0})
  mark_failed id =
      or_else (Repository.mark_failed s id)
        (λ e. report "event.MarkFailed" e "failed to mark message as failed" internal)
