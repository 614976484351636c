-- ===== src/Wallet/Transfer.antt =====
-- `Transfer` (internal/wallet/service/wallet/service.go) as the statements that it has carried out.
use mini_wallet.Base.{ℕ, ◌≡◌, refl, false}
use mini_wallet.Base.Int.{ℤ, ◌+ℤ◌, ◌-ℤ◌, ltb_ℤ}
use mini_wallet.Sql.{World, Result, ok, err, Action}
use mini_wallet.Sql.Transactions.{
  InTx, TxPost, DonePost, bind-TxPost, then-TxPost, or_else-TxPost, pure-TxPost, call-TxPost,
  raise_if-TxPost, tx_exec-TxPost,
}
use mini_wallet.Sql.Commits.{begin_commit-DonePost}
use mini_wallet.Wallet.Tables.{
  Db, TransferRequest, CreateTransactionRequest, transfer_in, transfer_out, completed,
}
use mini_wallet.Wallet.Repository.{
  select_balance, update_balance, insert_transaction, get_balance_for_update, increase_balance,
  decrease_balance, create_transaction, run_in_tx,
}
use mini_wallet.Wallet.Service.{transfer, transfer_body, TransferResponse}

-- The two bookings of a transfer.
abbrev pub booking_out : ℕ → ℕ → TransferRequest → CreateTransactionRequest
booking_out op reference req = record {
  wallet_id = req.source_id;
  operation_id = op;
  type = transfer_out;
  amount = req.amount;
  reference_id = reference;
  description = "";
  status = completed;
}

abbrev pub booking_in : ℕ → ℕ → TransferRequest → CreateTransactionRequest
booking_in op reference req = record {
  wallet_id = req.dest_id;
  operation_id = op;
  type = transfer_in;
  amount = req.amount;
  reference_id = reference;
  description = "";
  status = completed;
}

-- The statements of a transfer, each with its result, from the tables `d` to the tables `d'`.
pub record Transferred (op o i : ℕ) (req : TransferRequest) (d d' : Db) : Type 0 where
  pub balance : ℤ
  pub read : Db
  pub taken : Db
  pub out_id : ℕ
  pub booked : Db
  pub given : Db
  pub in_id : ℕ
  pub selects : select_balance req.source_id d ≡ (ok balance, read)
  pub covers : ltb_ℤ balance req.amount ≡ false
  pub takes : update_balance (λ b. b -ℤ req.amount) req.source_id read ≡ (ok tt, taken)
  pub books_out : insert_transaction (booking_out op o req) taken ≡ (ok out_id, booked)
  pub gives : update_balance (λ b. b +ℤ req.amount) req.dest_id booked ≡ (ok tt, given)
  pub books_in : insert_transaction (booking_in op i req) given ≡ (ok in_id, d')

module _ {now : ℕ} {d : Db} where
  create_transaction-TxPost :
      (req : CreateTransactionRequest) (t : Db) (w : World Db)
      → InTx now d t w
      → TxPost now d (λ id t'. insert_transaction req t ≡ (ok id, t')) (create_transaction req w)
  unfolding create_transaction
  create_transaction-TxPost req t w n = bind-TxPost _ _ w (tx_exec-TxPost _ t w n) λ id t₁ w₁ n₁ e.
      then-TxPost _ _ w₁ (call-TxPost t₁ w₁ n₁)
        λ _ t₂ w₂ n₂ same. pure-TxPost id t₂ w₂ n₂ (rw same e)

  transfer_body-TxPost :
      (op o i : ℕ) (req : TransferRequest) (w : World Db)
      → InTx now d d w
      → TxPost now d (λ _. Transferred op o i req d) (transfer_body op o i req w)
  unfolding transfer_body get_balance_for_update decrease_balance increase_balance
  transfer_body-TxPost op o i req w n =
      bind-TxPost _ _ w (or_else-TxPost _ _ w (tx_exec-TxPost _ d w n))
        λ balance read w₀ n₀ selects.
          then-TxPost _ _ w₀ (raise_if-TxPost _ _ read w₀ n₀) λ _ read' w₁ n₁ passed.
            then-TxPost _ _ w₁ (tx_exec-TxPost _ read' w₁ n₁) λ _ taken w₂ n₂ takes.
              then-TxPost _ _ w₂ (create_transaction-TxPost _ taken w₂ n₂)
                λ out_id booked w₃ n₃ books_out.
                  then-TxPost _ _ w₃ (tx_exec-TxPost _ booked w₃ n₃) λ _ given w₄ n₄ gives.
                    then-TxPost _ _ w₄ (create_transaction-TxPost _ given w₄ n₄)
                      λ in_id after w₅ n₅ books_in. pure-TxPost tt after w₅ n₅ (record {
                        balance = balance;
                        read = read;
                        taken = taken;
                        out_id = out_id;
                        booked = booked;
                        given = given;
                        in_id = in_id;
                        selects = selects;
                        covers = passed.1;
                        takes = rw (← passed.0) takes;
                        books_out = books_out;
                        gives = gives;
                        books_in = books_in;
                      })

run_in_tx-DonePost :
    {Q : Db → Type 0} (fn : Action Db (Unit {0})) (w : World Db)
    → ((w' : World Db) → InTx w.now w.db w.db w' → TxPost w.now w.db (λ _. Q) (fn w'))
    → DonePost w.db (λ _. Q) (run_in_tx fn w)
unfolding run_in_tx
run_in_tx-DonePost = begin_commit-DonePost

-- What a transfer has done when it returns: with a response, status 200, the operation's id in the
-- response and all the statements carried out; with an error, status 500 and nothing committed.
abbrev pub TransferPost :
    ℕ → ℕ → ℕ → TransferRequest → Db → (Result TransferResponse × ℕ) × World Db → Type 0
TransferPost op o i req d ((ok r, code), w) =
    (r.operation_id ≡ op) × (code ≡ 200) × Transferred op o i req d w.db
TransferPost op o i req d ((err e, code), w) = (code ≡ 500) × (w.db ≡ d)

-- A transfer, whatever calls fail under way, carries out all its statements and answers 200, or
-- commits nothing and answers 500.
pub transfer_outcome :
    (op o i user : ℕ) (req : TransferRequest) (w : World Db)
    → TransferPost op o i req w.db (transfer op o i user req w)
unfolding transfer
transfer_outcome op o i user req w =
    answered _ (run_in_tx-DonePost (transfer_body op o i req) w (transfer_body-TxPost op o i req))
  where
    answered :
        (r : Result (Unit {0}) × World Db)
        → DonePost w.db (λ _. Transferred op o i req w.db) r
        → TransferPost op o i req w.db (elim r.0 [
          | err e ↦ ((err e, 500), r.1)
          | ok _ ↦ (
            (
              ok (record { message = "Transaction successfully transferred"; operation_id = op }),
              200,
            ),
            r.1,
          )
        ])
    answered (ok _, w') h = (refl, refl, h.done)
    answered (err e, w') h = (refl, h.done)
