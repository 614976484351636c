-- ===== src/Inbox/Repository.antt =====
-- internal/wallet/repository/event.go, and internal/notification/repository/event.go, which differs
-- from it in the name of the table alone. The section's parameter says where the table is.
use text.Mathlib.Text.{◌==◌ as str_eq}
use mini_wallet.Base.{ℕ, Option, none, some, List, [], ◌∷◌, ◌++◌, if◌then◌else◌, find, update, any}
use mini_wallet.RichError.{no_rows, report, report_new, conflict, internal}
use mini_wallet.Sql.{
  Result, ok, err, Action, ◌>>=◌, ◌>>◌, exec, tx_exec, begin_tx, commit, rolling_back, look_up,
  or_else, raise_if, at_now,
}
use mini_wallet.Inbox.Table.{
  Message, MessageStatus, processing, completed, failed, status_text, has_id, Store,
}

abbrev pub scan_status : Option Message → Result MessageStatus
scan_status none = err no_rows
scan_status (some m) = ok m.status

-- SELECT status FROM ... WHERE message_id = ?
abbrev pub select_status : ℕ → List Message → Result MessageStatus
select_status id ms = scan_status (find (has_id id) ms)

-- INSERT IGNORE INTO ... VALUES (?, 'processing', ?, NOW()): the primary key ignores a second row.
unfoldable pub insert_ignore : ℕ → List ℕ → ℕ → List Message → List Message
insert_ignore id payload now ms =
    if any (has_id id) ms
    then ms
    else ms
      ++ record {
        message_id = id;
        status = processing;
        event_payload = payload;
        processing_started_at = now;
        completed_at = none;
      }
        ∷ []

-- UPDATE ... SET status = 'processing', event_payload = ? WHERE message_id = ?
unfoldable pub reset_status : ℕ → List ℕ → List Message → List Message
reset_status id payload =
    update (has_id id) (λ m. record m { status = processing; event_payload = payload })

-- UPDATE ... SET status = 'completed', completed_at = NOW() WHERE message_id = ?
unfoldable pub complete : ℕ → ℕ → List Message → List Message
complete id now = update (has_id id) (λ m. record m { status = completed; completed_at = some now })

-- UPDATE ... SET status = 'failed' WHERE message_id = ?
unfoldable pub fail : ℕ → List Message → List Message
fail id = update (has_id id) (λ m. record m { status = failed })

module _ {D : Type 0} (s : Store D) where
  open s use {rows, with_rows}

  -- A statement that changes the table of messages.
  abbrev pub changing : (List Message → List Message) → D → Result (Unit {0}) × D
  changing f d = (ok tt, with_rows d (f (rows d)))

  -- The branches of `RunProcess` on the row that it has looked up.
  unfoldable pub record_message : ℕ → List ℕ → Option MessageStatus → Action D (Unit {0})
  record_message id payload none =
      or_else (at_now λ now. tx_exec (changing (insert_ignore id payload now)))
        (λ e. report "repository.RunProcess" e "failed to insert message" internal)
  record_message id payload (some status) = do
    raise_if (str_eq (status_text status) "sent")
        (report_new "repository.RunProcess" "message already processed" conflict)
    or_else (tx_exec (changing (reset_status id payload)))
        (λ e. report "repository.RunProcess" e "failed to reset message status" internal)

  -- `RunProcess`; its deferred function rolls back where the named result is an error.
  unfoldable pub run_process : ℕ → List ℕ → Action D (Unit {0})
  run_process id payload = do
    or_else begin_tx (λ e. report "repository.RunProcess" e "failed to start transaction" internal)
    rolling_back do
      status ←
          or_else (look_up λ d. select_status id (rows d))
            (λ e. report "repository.RunProcess" e "failed to check processed message" internal)
      record_message id payload status
      or_else commit (λ e. report "repository.RunProcess" e "failed to commit transaction" internal)

  unfoldable pub mark_sent : ℕ → Action D (Unit {0})
  mark_sent id =
      or_else (at_now λ now. exec (changing (complete id now)))
        (λ e. report "repository.MarkSent" e "failed to mark message as sent" internal)

  unfoldable pub mark_failed : ℕ → Action D (Unit {0})
  mark_failed id =
      or_else (exec (changing (fail id)))
        (λ e. report "repository.MarkFailed" e "failed to mark message as failed" internal)
