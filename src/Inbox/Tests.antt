-- ===== src/Inbox/Tests.antt =====
-- A table of messages, on which the theorems about the inbox are applied
-- (internal/wallet/repository/event.go).
use mini_wallet.Base.{ℕ, List, [], ◌∷◌, none, some, ◌≡◌, refl}
use mini_wallet.RichError.{nil, plain}
use mini_wallet.Sql.{World, Result, Action, ok, err}
use mini_wallet.Sql.Steps.{or_else_ok}
use mini_wallet.Inbox.Service
use mini_wallet.Inbox.Handling.{Delivered, handle}
use mini_wallet.Inbox.Failing.{marked, handle_hides_failure}
use mini_wallet.Inbox.Table.{Message, completed, Store}
use mini_wallet.Inbox.Repository.{run_process}
use mini_wallet.Inbox.Laws.{anew, run_process_reprocesses}

abbrev store : Store (List Message)
store = record { rows = λ d. d; with_rows = λ d ms. ms }

abbrev handled : Message
handled = record {
  message_id = 4;
  status = completed;
  event_payload = 9 ∷ [];
  processing_started_at = 10;
  completed_at = some 11;
}

abbrev failing : World (List Message)
failing = record {
  db = handled ∷ [];
  tx = none;
  faults = nil ∷ nil ∷ plain "connection reset" ∷ [];
  now = 20;
}

run_process_reprocesses_example :
    run_process store 4 (1 ∷ []) (record { db = handled ∷ []; tx = none; faults = []; now = 20 })
    ≡ (ok tt, record { db = anew 4 (1 ∷ []) (handled ∷ []); tx = none; faults = []; now = 20 })
run_process_reprocesses_example =
    run_process_reprocesses store 4 20 (1 ∷ []) handled (handled ∷ []) refl

-- Every message reads as an event whose handling fails.
abbrev as_event : List ℕ → Result (Unit {0})
as_event body = ok tt

abbrev refuses : Unit {0} → Action (List Message) (Unit {0})
refuses ev w = (err (plain "refused"), w)

abbrev again : Delivered
again = record { id = 4; body = 1 ∷ [] }

abbrev before : World (List Message)
before = record { db = handled ∷ []; tx = none; faults = []; now = 20 }

abbrev recorded : World (List Message)
recorded = record before { db = anew 4 (1 ∷ []) (handled ∷ []) }

again_recorded : Service.run_process store again.id again.body before ≡ (ok tt, recorded)
unfolding Service.run_process
again_recorded =
    or_else_ok _ _ (run_process_reprocesses store 4 20 (1 ∷ []) handled (handled ∷ []) refl)

handle_hides_failure_example :
    ((handle store as_event refuses again before).0 ≡ nil)
    × ((handle store as_event refuses again before).1.db
        ≡ marked 4 20 (err (plain "refused")) (anew 4 (1 ∷ []) (handled ∷ [])))
handle_hides_failure_example =
    handle_hides_failure store as_event refuses again before recorded recorded tt
      (err (plain "refused")) again_recorded refl refl refl
