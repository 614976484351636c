-- ===== src/Outbox/Repository.antt =====
-- internal/auth/repository/outbox.go, and internal/notification/repository/outbox.go, which differs
-- from it in the name of the table, and has the two insertions as well. The section's parameter says
-- where the table is. `sqlx.In` fails only on an empty list, which is never passed to it.
use mini_wallet.Base.{
  ℕ, ◌+◌, Bool, false, not, ◌==◌, ◌&&◌, leb, ltb, none, some, List, [], ◌∷◌, ◌++◌, if◌then◌else◌,
  take, select, update, matching, any,
}
use mini_wallet.RichError.{Error, mysql_error, report, report_new, conflict, internal}
use mini_wallet.Sql.{
  Result, ok, err, Action, ◌>>=◌, ◌>>◌, pure, call, exec, tx_exec, begin_tx, commit, rollback,
  or_else, raise_if, at_now,
}
use mini_wallet.Outbox.Table.{
  OutboxEvent, pending, processing, processed, is_pending, is_processing, has_id, id_in, ids_of,
  Store,
}

-- ORDER BY created_at ASC; rows of one time stay in the order of the table.
abbrev pub insert_by_time : OutboxEvent → List OutboxEvent → List OutboxEvent
insert_by_time e [] = e ∷ []
insert_by_time e (x ∷ xs) =
    let rest = insert_by_time e xs in if leb e.created_at x.created_at then e ∷ x ∷ xs else x ∷ rest

abbrev pub by_time : List OutboxEvent → List OutboxEvent
by_time [] = []
by_time (e ∷ es) = insert_by_time e (by_time es)

-- No other transaction is open.
abbrev pub unlocked : ℕ → Bool
unlocked id = false

-- SELECT ... WHERE status = 'pending' ORDER BY created_at ASC LIMIT ? FOR UPDATE SKIP LOCKED; the
-- first argument is which events' rows other transactions have locked.
unfoldable pub select_pending : (ℕ → Bool) → ℕ → List OutboxEvent → List OutboxEvent
select_pending locked count rows =
    take count (by_time (select (λ e. is_pending e.status && not (locked e.event_id)) rows))

abbrev pub claimed_until : ℕ → OutboxEvent → OutboxEvent
claimed_until until e = record e { status = processing; locked_until = some until }

-- UPDATE ... SET status = 'processing', locked_until = ... WHERE event_id IN (?)
unfoldable pub claim : List ℕ → ℕ → List OutboxEvent → List OutboxEvent
claim ids until = update (id_in ids) (claimed_until until)

abbrev pub claimable : ℕ → OutboxEvent → Bool
claimable id e = has_id id e && is_pending e.status

abbrev pub finished_at : ℕ → OutboxEvent → OutboxEvent
finished_at now e = record e { status = processed; processed_at = some now; locked_until = none }

abbrev pub released : OutboxEvent → OutboxEvent
released e = record e { status = pending; locked_until = none }

-- SET status = 'processed', processed_at = ?, locked_until = NULL WHERE event_id IN (?)
unfoldable pub finish : List ℕ → ℕ → List OutboxEvent → List OutboxEvent
finish ids now = update (id_in ids) (finished_at now)

-- SET status = 'pending', locked_until = NULL WHERE event_id IN (?)
unfoldable pub release : List ℕ → List OutboxEvent → List OutboxEvent
release ids = update (id_in ids) released

-- `status = 'processing' AND locked_until < NOW()`
abbrev pub is_stale : ℕ → OutboxEvent → Bool
is_stale now e = is_processing e.status && elim e.locked_until [ none ↦ false | some t ↦ ltb t now ]

-- `defer func() { _ = tx.Rollback() }()`, which does nothing after the commit.
unfoldable pub rolling_back_always : {D A : Type 0} → Action D A → Action D A
rolling_back_always m w = let (r, w') = m w in (r, rollback w')

module _ {D : Type 0} (s : Store D) where
  open s use {rows, with_rows}

  -- A statement that changes the rows, and one that reports how many.
  abbrev pub changing : (List OutboxEvent → List OutboxEvent) → D → Result (Unit {0}) × D
  changing f d = (ok tt, with_rows d (f (rows d)))

  abbrev pub counting : (OutboxEvent → Bool) → (OutboxEvent → OutboxEvent) → D → Result ℕ × D
  counting p f d = (ok (matching p (rows d)), with_rows d (update p f (rows d)))

  abbrev claim_failed : Error → Error
  claim_failed e =
      report "repository.ClaimOutboxEvents" e "failed to get outbox events list" internal

  -- What follows the query of `ClaimOutboxEvents`, by the events that it found.
  unfoldable pub claim_selected : ℕ → List OutboxEvent → Action D (List OutboxEvent)
  claim_selected lock_timeout [] = pure []
  claim_selected lock_timeout (e ∷ es) = do
    or_else (at_now λ now. tx_exec (changing (claim (ids_of (e ∷ es)) (now + lock_timeout))))
        claim_failed
    commit
    pure (e ∷ es)

  -- `ClaimOutboxEvents`; where COMMIT fails, the events that it returns beside the error are dropped
  -- by its caller.
  unfoldable pub claim_outbox_events : ℕ → ℕ → Action D (List OutboxEvent)
  claim_outbox_events count lock_timeout = do
    or_else begin_tx claim_failed
    rolling_back_always do
      events ← or_else (tx_exec λ d. (ok (select_pending unlocked count (rows d)), d)) claim_failed
      claim_selected lock_timeout events

  unfoldable pub claim_single_event : ℕ → ℕ → Action D (Unit {0})
  claim_single_event event_id lock_timeout = do
    affected ←
        or_else
          (at_now λ now. exec (counting (claimable event_id) (claimed_until (now + lock_timeout))))
          (λ e. report "repository.ClaimSingleEvent" e "failed to claim outbox event" internal)
    or_else call
        (λ e. report "repository.ClaimSingleEvent" e "failed to get rows affected" internal)
    raise_if (affected == 0)
        (report_new "repository.ClaimSingleEvent" "event already claimed or not found" conflict)

  unfoldable pub mark_outbox_event_processed : ℕ → Action D (Unit {0})
  mark_outbox_event_processed event_id =
      or_else (at_now λ now. exec (changing (finish (event_id ∷ []) now))) (λ e.
        report "repository.MarkOutboxEventProcessed" e "failed to mark outbox event as processed"
          internal)

  unfoldable pub mark_outbox_event_failed : ℕ → Action D (Unit {0})
  mark_outbox_event_failed event_id = or_else (exec (changing (release (event_id ∷ [])))) (λ e.
      report "repository.MarkOutboxEventFailed" e "failed to mark outbox event as failed" internal)

  unfoldable pub mark_outbox_events_processed : List ℕ → Action D (Unit {0})
  mark_outbox_events_processed [] = pure tt
  mark_outbox_events_processed (k ∷ ks) =
      or_else (at_now λ now. exec (changing (finish (k ∷ ks) now))) (λ e.
        report "repository.MarkOutboxEventsProcessed" e "failed to mark outbox events as processed"
          internal)

  unfoldable pub mark_outbox_events_failed : List ℕ → Action D (Unit {0})
  mark_outbox_events_failed [] = pure tt
  mark_outbox_events_failed (k ∷ ks) = or_else (exec (changing (release (k ∷ ks)))) (λ e.
      report "repository.MarkOutboxEventsFailed" e "failed to mark outbox events as failed"
        internal)

  unfoldable pub recover_stale_outbox_events : Action D ℕ
  recover_stale_outbox_events = do
    affected ← or_else (at_now λ now. exec (counting (is_stale now) released)) (λ e.
        report "repository.RecoverStaleOutboxEvents" e "failed to recover stale outbox events"
          internal)
    or_else call
        (λ e. report "repository.RecoverStaleOutboxEvents" e "failed to get rows affected" internal)
    pure affected

  -- INSERT INTO ... VALUES (?, ?, ?, ?, ?, ?): the unique key is the event id, and a row starts pending.
  unfoldable pub insert_events : List OutboxEvent → D → Result (Unit {0}) × D
  insert_events [] d = (ok tt, d)
  insert_events (e ∷ es) d =
      if any (has_id e.event_id) (rows d)
      then (err (mysql_error 1062 "Duplicate entry"), d)
      else insert_events es (
          with_rows d (
            rows d ++ record e { status = pending; processed_at = none; locked_until = none } ∷ []))

  -- A statement that fails has no effect, whichever of its rows fails.
  abbrev pub all_or_nothing : {A : Type 0} → (D → Result A × D) → D → Result A × D
  all_or_nothing f d = let (r, d') = f d in elim r [ ok a ↦ (ok a, d') | err e ↦ (err e, d) ]

  unfoldable pub insert_outbox_event : OutboxEvent → Action D (Unit {0})
  insert_outbox_event e =
      or_else (exec (all_or_nothing (insert_events (e ∷ []))))
        (λ x. report "repository.InsertOutboxEvent" x "failed to insert outbox event" internal)

  unfoldable pub insert_outbox_events : List OutboxEvent → Action D (Unit {0})
  insert_outbox_events [] = pure tt
  insert_outbox_events (e ∷ es) =
      or_else (exec (all_or_nothing (insert_events (e ∷ es))))
        (λ x. report "repository.InsertOutboxEvents" x "failed to insert outbox events" internal)
