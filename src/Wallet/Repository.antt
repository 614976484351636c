-- ===== src/Wallet/Repository.antt =====
-- internal/wallet/repository/wallet.go: the statements on wallets and transactions.
use text.Mathlib.Text.{◌==◌ as str_eq}
use mini_wallet.Base.{
  ℕ, suc, Bool, ◌==◌, ◌&&◌, ◌||◌, not, Option, none, some, [], ◌∷◌, ◌++◌, if◌then◌else◌, find,
  update, any,
}
use mini_wallet.Base.Int.{ℤ, ◌+ℤ◌, ◌-ℤ◌}
use mini_wallet.RichError.{
  Error, nil, mysql_error, no_rows, report_new, conflict, internal, is_duplicate,
}
use mini_wallet.Sql.{
  Result, ok, err, Action, ◌>>=◌, ◌>>◌, pure, call, exec, tx_exec, begin_tx, commit, rollback,
  is_nil, or_else,
}
use mini_wallet.Wallet.Tables.{
  Wallet, CreateTransactionRequest, CreateWalletRequest, Db, in_int64, has_id,
}

-- The unique keys of `wallets`: (uuid) and (user_id, currency).
abbrev pub clashes : CreateWalletRequest → Wallet → Bool
clashes req w = w.uuid == req.uuid || (w.user_id == req.user_id && str_eq w.currency req.currency)

-- INSERT INTO wallets (uuid, user_id, balance, currency) VALUES (?, ?, ?, ?)
unfoldable pub insert_wallet : CreateWalletRequest → Db → Result ℕ × Db
insert_wallet req d =
    if any (clashes req) d.wallets then (err (mysql_error 1062 "Duplicate entry"), d) else (
      ok d.next_wallet,
      record d {
        wallets =
            d.wallets
            ++ record {
              id = d.next_wallet;
              uuid = req.uuid;
              user_id = req.user_id;
              balance = req.balance;
              currency = req.currency;
            }
              ∷ [];
        next_wallet = suc d.next_wallet;
      },
    )

unfoldable pub create_wallet : CreateWalletRequest → Action Db ℕ
create_wallet req = do
  id ← or_else (exec (insert_wallet req)) (λ e.
      if is_duplicate e
      then report_new "Repository.CreateWallet" "wallet already exists" conflict
      else e)
  or_else call (λ _. report_new "Repository.CreateWallet" "wallet insert error" internal)
  pure id

-- `GetContext` on the rows of a query: the first, or sql.ErrNoRows.
abbrev pub scan_balance : Option Wallet → Result ℤ
scan_balance none = err no_rows
scan_balance (some r) = ok r.balance

-- SELECT balance FROM wallets WHERE id = ?
unfoldable pub select_balance : ℕ → Db → Result ℤ × Db
select_balance id d = (scan_balance (find (has_id id) d.wallets), d)

unfoldable pub get_balance : ℕ → Action Db ℤ
get_balance id = exec (select_balance id)

-- ... FOR UPDATE, in the transaction
unfoldable pub get_balance_for_update : ℕ → Action Db ℤ
get_balance_for_update id = tx_exec (select_balance id)

-- UPDATE wallets SET balance = f balance WHERE id = ?; MySQL refuses a result that is no BIGINT,
-- and to change no row is no error.
unfoldable pub update_balance : (ℤ → ℤ) → ℕ → Db → Result (Unit {0}) × Db
update_balance f id d =
    if any (λ r. has_id id r && not (in_int64 (f r.balance))) d.wallets
    then (err (mysql_error 1690 "BIGINT value is out of range"), d)
    else (
      ok tt,
      record d { wallets = update (has_id id) (λ r. record r { balance = f r.balance }) d.wallets },
    )

unfoldable pub increase_balance : ℕ → ℤ → Action Db (Unit {0})
increase_balance id amount = tx_exec (update_balance (λ b. b +ℤ amount) id)

unfoldable pub decrease_balance : ℕ → ℤ → Action Db (Unit {0})
decrease_balance id amount = tx_exec (update_balance (λ b. b -ℤ amount) id)

-- INSERT INTO wallet_transactions (...) VALUES (?, ?, ?, ?, ?, ?, ?), under the foreign key
-- fk_wallet_transactions_wallet
unfoldable pub insert_transaction : CreateTransactionRequest → Db → Result ℕ × Db
insert_transaction req d =
    if any (has_id req.wallet_id) d.wallets
    then (
      ok d.next_transaction,
      record d {
        transactions =
            d.transactions
            ++ record {
              id = d.next_transaction;
              wallet_id = req.wallet_id;
              operation_id = req.operation_id;
              type = req.type;
              amount = req.amount;
              reference_id = req.reference_id;
              description = req.description;
              status = req.status;
            }
              ∷ [];
        next_transaction = suc d.next_transaction;
      },
    )
    else (err (mysql_error 1452 "a foreign key constraint fails"), d)

unfoldable pub create_transaction : CreateTransactionRequest → Action Db ℕ
create_transaction req = do id ← tx_exec (insert_transaction req); call; pure id

-- `defer func(err error) { if err != nil { tx.Rollback() } }(err)`: the argument is taken when the
-- `defer` statement runs.
abbrev pub deferred_rollback : {A : Type 0} → Error → Action Db A → Action Db A
deferred_rollback at_defer body w =
    let (r, w') = body w in if is_nil at_defer then (r, w') else (r, rollback w')

-- When `defer` runs, `err` is the nil that `BeginTxx` returned.
unfoldable pub run_in_tx : Action Db (Unit {0}) → Action Db (Unit {0})
run_in_tx fn = begin_tx >> deferred_rollback nil (fn >> commit)
