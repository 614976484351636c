-- ===== src/Wallet/Progress.antt =====
-- When a transfer goes through (internal/wallet/service/wallet/service.go), and what it does with a
-- negative amount, which nothing refuses.
use mini_wallet.Base.{
  ℕ, suc, ◌==◌, ◌≡◌, refl, ◌∙◌, ap, Bool, true, false, List, [], ◌∷◌, ◌++◌, arith, any, update,
  find, Option, some, none, inl, inr, Bool-cases, ◌≢◌, ◌&&◌, not,
}
use mini_wallet.Base.Int.{ℤ, pos, negsuc, ◌+ℤ◌, ◌-ℤ◌, ◌≤ℤ◌, int_laws, ltb_ℤ}
use mini_wallet.Sql.{World, Result, ok, sql}
use mini_wallet.Wallet.Tables.{
  Wallet, CreateTransactionRequest, TransferRequest, Db, in_int64, has_id,
}
use mini_wallet.Wallet.Repository.{
  select_balance, update_balance, insert_transaction, get_balance_for_update, increase_balance,
  decrease_balance, create_transaction, run_in_tx,
}
use mini_wallet.Wallet.Service.{transfer, transfer_body, TransferResponse}
use mini_wallet.Wallet.Balances.{UniqueIds, credit, any-credit, UniqueIds-credit, find-credit}
use mini_wallet.Wallet.Transfer.{Transferred, booking_out}
use mini_wallet.Wallet.Statements.{moved, booked_row, debit-credit}
use mini_wallet.Wallet.Funds.{transfer_moves_funds}

-- Where no call fails, a transfer whose statements can all be carried out is answered with a
-- response and status 200, and the tables are those after the statements.
transfer_completes :
    (op o i user : ℕ) (req : TransferRequest) (d d' : Db) (open_tx : Option Db) (now : ℕ)
    → Transferred op o i req d d'
    → transfer op o i user req (record { db = d; tx = open_tx; faults = []; now = now }) ≡ (
      (ok (record { message = "Transaction successfully transferred"; operation_id = op }), 200),
      record { db = d'; tx = none; faults = []; now = now },
    )
unfolding transfer transfer_body run_in_tx get_balance_for_update increase_balance decrease_balance
    create_transaction sql
transfer_completes op o i user req d d' open_tx now s =
    ground (arith, s.selects, s.covers, s.takes, s.books_out, s.gives, s.books_in)

-- Of the rows with a primary key there is one, so a test of them is a test of that one.
any_unique :
    (k : ℕ) (p : Wallet → Bool) (u : Wallet) (rs : List Wallet)
    → UniqueIds rs
    → find (has_id k) rs ≡ some u
    → p u ≡ false
    → any (λ r. has_id k r && p r) rs ≡ false
any_unique k p u [] q f h = refl
any_unique k p u (r ∷ rs) q f h = elim (Bool-cases (r.id == k)) [
  | inl hit ↦
      let same : r ≡ u = ground (arith, f) in
      let alone : any (has_id k) rs ≡ false = ground (arith, q.0) in
      rw hit (rw (same, h) (any_absent rs alone))
  | inr miss ↦ rw miss (any_unique k p u rs q.1 (ground arith) h)
]
  where
    any_absent :
        (xs : List Wallet) → any (has_id k) xs ≡ false → any (λ r. has_id k r && p r) xs ≡ false
    any_absent [] e = refl
    any_absent (x ∷ xs) e = ground (arith, any_absent xs)

update_balance_succeeds :
    (f : ℤ → ℤ) (k : ℕ) (u : Wallet) (d : Db)
    → UniqueIds d.wallets
    → find (has_id k) d.wallets ≡ some u
    → in_int64 (f u.balance) ≡ true
    → update_balance f k d ≡ (
      ok tt,
      record d { wallets = update (has_id k) (λ r. record r { balance = f r.balance }) d.wallets },
    )
unfolding update_balance
update_balance_succeeds f k u d q e fits =
    rw (any_unique k (λ r. not (in_int64 (f r.balance))) u d.wallets q e (rw fits)) refl

any_of_find :
    (k : ℕ) (u : Wallet) (rs : List Wallet) → find (has_id k) rs ≡ some u → any (has_id k) rs ≡ true
any_of_find k u [] e = cc
any_of_find k u (r ∷ rs) e = ground (arith, any_of_find k u rs)

insert_transaction_succeeds :
    (req : CreateTransactionRequest) (d : Db)
    → any (has_id req.wallet_id) d.wallets ≡ true
    → insert_transaction req d ≡ (
      ok d.next_transaction,
      record d {
        transactions = d.transactions ++ booked_row d.next_transaction req ∷ [];
        next_transaction = suc d.next_transaction;
      },
    )
unfolding insert_transaction
insert_transaction_succeeds req d e = rw e refl

select_balance_succeeds :
    (k : ℕ) (u : Wallet) (d : Db)
    → find (has_id k) d.wallets ≡ some u
    → select_balance k d ≡ (ok u.balance, d)
unfolding select_balance
select_balance_succeeds k u d e = rw e refl

module _ (op o i : ℕ) (req : TransferRequest) (d : Db) (u v : Wallet) (unique : UniqueIds d.wallets)
    (apart : req.source_id ≢ req.dest_id) (eu : find (has_id req.source_id) d.wallets ≡ some u)
    (ev : find (has_id req.dest_id) d.wallets ≡ some v)
    (covers : ltb_ℤ u.balance req.amount ≡ false)
    (fits_u : in_int64 (u.balance -ℤ req.amount) ≡ true)
    (fits_v : in_int64 (v.balance +ℤ req.amount) ≡ true) where
  debited : List Wallet
  debited = credit req.source_id (pos 0 -ℤ req.amount) d.wallets

  statements : Transferred op o i req d (moved op o i req d)
  unfolding debited
  statements = record {
    balance = u.balance;
    read = d;
    taken = record d { wallets = debited };
    out_id = d.next_transaction;
    booked = record d {
      wallets = debited;
      transactions = d.transactions ++ booked_row d.next_transaction (booking_out op o req) ∷ [];
      next_transaction = suc d.next_transaction;
    };
    given = record d {
      wallets = credit req.dest_id req.amount debited;
      transactions = d.transactions ++ booked_row d.next_transaction (booking_out op o req) ∷ [];
      next_transaction = suc d.next_transaction;
    };
    in_id = suc d.next_transaction;
    selects = select_balance_succeeds req.source_id u d eu;
    covers = covers;
    takes =
        rw
          (
            update_balance_succeeds (λ b. b -ℤ req.amount) req.source_id u d unique eu fits_u,
            debit-credit req.source_id req.amount d.wallets,
          )
          refl;
    books_out =
        insert_transaction_succeeds _ _
          (any-credit req.source_id req.source_id _ d.wallets ∙ any_of_find _ u d.wallets eu);
    gives =
        update_balance_succeeds (λ b. b +ℤ req.amount) req.dest_id v _
          (UniqueIds-credit req.source_id _ d.wallets unique)
          (ground
            (arith, find-credit req.dest_id req.source_id (pos 0 -ℤ req.amount) d.wallets v ev))
          fits_v;
    books_in = insert_transaction_succeeds _ _ (
        any-credit req.dest_id req.dest_id _ debited
        ∙ any-credit req.dest_id req.source_id _ d.wallets
        ∙ any_of_find _ v d.wallets ev);
  }

  -- Where no call fails, a transfer between two wallets whose source has the amount, and whose new
  -- balances are in the range of an int64, is answered with a response and status 200.
  pub transfer_succeeds :
      (user : ℕ) (open_tx : Option Db) (now : ℕ)
      → (transfer op o i user req (record { db = d; tx = open_tx; faults = []; now = now })).0
        ≡ (ok (record { message = "Transaction successfully transferred"; operation_id = op }), 200)
  transfer_succeeds user open_tx now =
      ap (λ (r : (Result TransferResponse × ℕ) × World Db). r.0)
        (transfer_completes op o i user req d _ open_tx now statements)

-- Nothing refuses a negative amount: where no call fails and the new balances are in range, a
-- transfer of minus n + 1 from a wallet without debt is answered with 200 and takes n + 1 from the
-- destination, whatever the destination holds.
pub transfer_negative :
    (op o i user now n : ℕ) (src dst : ℕ) (d : Db) (open_tx : Option Db) (u v : Wallet)
    → UniqueIds d.wallets
    → src ≢ dst
    → find (has_id src) d.wallets ≡ some u
    → find (has_id dst) d.wallets ≡ some v
    → pos 0 ≤ℤ u.balance
    → in_int64 (u.balance -ℤ negsuc n) ≡ true
    → in_int64 (v.balance +ℤ negsuc n) ≡ true
    → let req : TransferRequest = record { source_id = src; dest_id = dst; amount = negsuc n } in
      let r : (Result TransferResponse × ℕ) × World Db =
        transfer op o i user req (record { db = d; tx = open_tx; faults = []; now = now }) in
      (r.0.1 ≡ 200)
      × (find (has_id dst) r.1.db.wallets ≡ some (record v { balance = v.balance -ℤ pos (suc n) }))
transfer_negative op o i user now n src dst d open_tx u v q apart eu ev p fu fv =
    let req : TransferRequest = record { source_id = src; dest_id = dst; amount = negsuc n } in
    let done =
      transfer_succeeds op o i req d u v q apart eu ev (ground arith) fu fv user open_tx now in
    (
      ap (λ (x : Result TransferResponse × ℕ). x.1) done,
      rw
          (transfer_moves_funds op o i user req _ _ u v apart eu ev
            (ap (λ (x : Result TransferResponse × ℕ). x.0) done)).2
          (ap (λ (b : ℤ). some (record v { balance = b })) (omega int_laws)),
    )
