-- ===== src/Auth/Repository/Users.antt =====
-- Users, the outbox and transactions in internal/auth/repository/auth.go.
use mini_wallet.Base.{ℕ, [], ◌∷◌, String, if◌then◌else◌}
use mini_wallet.RichError.{
  Error, nil, report, report_new, internal, not_found, conflict, is_duplicate, is_no_rows,
}
use mini_wallet.Sql.{
  Action, ◌>>=◌, ◌>>◌, pure, call, exec, tx_exec, begin_tx, commit, rollback, is_nil, or_else,
}
use mini_wallet.Outbox.Table.{OutboxEvent}
use mini_wallet.Outbox
use mini_wallet.Auth.Tables.{User, Db, store}
use mini_wallet.Auth.Repository.Statements.{select_user, insert_user}

-- `defer func(err error) { ... }(err)`: the argument is taken when the `defer` statement runs.
abbrev pub deferred_rollback : {A : Type 0} → Error → Action Db A → Action Db A
deferred_rollback at_defer body w =
    let (r, w') = body w in if is_nil at_defer then (r, w') else (r, rollback w')

-- When `defer` runs, `err` is the nil that `BeginTxx` returned. What `fn` assigns to variables of its
-- caller is its value.
unfoldable pub run_in_tx : {A : Type 0} → Action Db A → Action Db A
run_in_tx fn = begin_tx >> deferred_rollback nil (fn >>= λ a. commit >> pure a)

unfoldable pub ping : Action Db (Unit {0})
ping = call

unfoldable pub get_user_by_email : String → Action Db User
get_user_by_email email = or_else (exec λ d. (select_user email d, d)) λ e.
    if is_no_rows e
    then report "repository.GetUserByEmail" e "user not found" not_found
    else report "repository.GetUserByEmail" e "failed to get user" internal

unfoldable pub create_user : String → ℕ → Action Db ℕ
create_user email password_hash = do
  id ← or_else (tx_exec (insert_user email password_hash)) (λ e.
      if is_duplicate e
      then report_new "repository.CreateUserByEmailAndPassword" "duplicate entry" conflict
      else report_new "repository.CreateUserByEmailAndPassword" "failed to execute insert query"
          internal)
  or_else call (λ _.
      report_new "repository.CreateUserByEmailAndPassword" "failed to get last insert id" internal)
  pure id

-- INSERT INTO auth_outbox_events (...) VALUES (?, ?, ?, ?, ?, ?), in the transaction
unfoldable pub insert_outbox_event : OutboxEvent → Action Db (Unit {0})
insert_outbox_event e =
    or_else
      (tx_exec
        (Outbox.Repository.all_or_nothing store (Outbox.Repository.insert_events store (e ∷ []))))
      (λ x. report "repository.InsertOutboxEvent" x "failed to insert outbox event" internal)
