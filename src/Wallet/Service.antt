-- ===== src/Wallet/Service.antt =====
-- internal/wallet/service/wallet/service.go. What `uuid.New()` returns is an argument.
use mini_wallet.Base.{ℕ, String, if◌then◌else◌}
use mini_wallet.Base.Int.{pos, ltb_ℤ}
use mini_wallet.RichError.{plain, report, report_new, conflict, internal, unavailable, as_conflict}
use mini_wallet.Sql.{World, Result, ok, err, Action, ◌>>=◌, ◌>>◌, pure, call, or_else, raise_if}
use mini_wallet.Wallet.Tables.{Db, TransferRequest, transfer_in, transfer_out, completed}
use mini_wallet.Wallet.Repository.{
  create_wallet, get_balance_for_update, increase_balance, decrease_balance, create_transaction,
  run_in_tx,
}

abbrev pub default_currency : String
default_currency = "IRR"

abbrev pub err_transfer_failed : String
err_transfer_failed = "filed to transfer"

unfoldable pub is_ready : Action Db (Unit {0})
is_ready = or_else call (λ e. report "Service.IsReady" e "db down" unavailable)

-- `InitWallet`: the balance of the request is the zero value.
unfoldable pub init_wallet : ℕ → ℕ → Action Db ℕ
init_wallet wallet_uuid user_id = do
  or_else
      (create_wallet (record {
        user_id = user_id;
        uuid = wallet_uuid;
        balance = pos 0;
        currency = default_currency;
      }))
      (λ e.
        if as_conflict e
        then report_new "Service.InitWallet" "wallet already exists" conflict
        else report "Service.InitWallet" e "wallet creation failed" internal)
  pure wallet_uuid

pub record TransferResponse : Type 0 where
  pub message : String
  pub operation_id : ℕ

-- The function that `Transfer` gives to `RunInTx`.
unfoldable pub transfer_body : ℕ → ℕ → ℕ → TransferRequest → Action Db (Unit {0})
transfer_body operation_id out_reference in_reference req = do
  source_balance ←
      or_else (get_balance_for_update req.source_id)
        (λ e. report "Service.Transfer" e err_transfer_failed internal)
  raise_if (ltb_ℤ source_balance req.amount) (plain "source balance is too low")
  decrease_balance req.source_id req.amount
  create_transaction (record {
    wallet_id = req.source_id;
    operation_id = operation_id;
    type = transfer_out;
    amount = req.amount;
    reference_id = out_reference;
    description = "";
    status = completed;
  })
  increase_balance req.dest_id req.amount
  create_transaction (record {
    wallet_id = req.dest_id;
    operation_id = operation_id;
    type = transfer_in;
    amount = req.amount;
    reference_id = in_reference;
    description = "";
    status = completed;
  })
  pure tt

-- `Transfer`, with the status that it returns; it does not use its argument `userId`.
unfoldable pub transfer :
    ℕ → ℕ → ℕ → ℕ → TransferRequest → World Db → (Result TransferResponse × ℕ) × World Db
transfer operation_id out_reference in_reference user_id req w =
    let (r, w') = run_in_tx (transfer_body operation_id out_reference in_reference req) w in
    elim r [
      | err e ↦ ((err e, 500), w')
      | ok _ ↦ (
        (
          ok (record {
            message = "Transaction successfully transferred";
            operation_id = operation_id;
          }),
          200,
        ),
        w',
      )
    ]
