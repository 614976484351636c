-- ===== src/Wallet/Statements.antt =====
-- The tables after a completed transfer (internal/wallet/service/wallet/service.go), from the
-- statements that it has carried out.
use mathlib.Core.Path.{fun_ext}
use mini_wallet.Base.{
  ℕ, suc, ◌≡◌, refl, ap, true, List, [], ◌∷◌, ◌++◌, arith, any, update, find, Option, some, none,
}
use mini_wallet.Base.Int.{ℤ, pos, ◌+ℤ◌, ◌-ℤ◌, int_laws}
use mini_wallet.Sql.{Result, ok}
use mini_wallet.Wallet.Tables.{
  Wallet, Transaction, CreateTransactionRequest, TransferRequest, Db, has_id,
}
use mini_wallet.Wallet.Repository.{scan_balance, select_balance, update_balance, insert_transaction}
use mini_wallet.Wallet.Balances.{credit, any-credit}
use mini_wallet.Wallet.Transfer.{Transferred, booking_out, booking_in}

pub select_balance-eq-ok :
    (k : ℕ) (d d' : Db) (b : ℤ)
    → select_balance k d ≡ (ok b, d')
    → (d' ≡ d) × ((r : Wallet) × (find (has_id k) d.wallets ≡ some r) × (r.balance ≡ b))
unfolding select_balance
select_balance-eq-ok k d d' b h = scanned (find (has_id k) d.wallets) h
  where
    scanned :
        (o : Option Wallet)
        → ◌≡◌ {A = Result ℤ × Db} (scan_balance o, d) (ok b, d')
        → (d' ≡ d) × ((r : Wallet) × (o ≡ some r) × (r.balance ≡ b))
    scanned none e = cc
    scanned (some r) e = (ground arith, (r, refl, ground arith))

pub update_balance-eq-ok :
    (f : ℤ → ℤ) (k : ℕ) (d d' : Db)
    → update_balance f k d ≡ (ok tt, d')
    → d'
      ≡ record d { wallets = update (has_id k) (λ r. record r { balance = f r.balance }) d.wallets }
unfolding update_balance
update_balance-eq-ok f k d d' h = ground arith

-- The row of a booking.
abbrev pub booked_row : ℕ → CreateTransactionRequest → Transaction
booked_row id req = record {
  id = id;
  wallet_id = req.wallet_id;
  operation_id = req.operation_id;
  type = req.type;
  amount = req.amount;
  reference_id = req.reference_id;
  description = req.description;
  status = req.status;
}

pub insert_transaction-eq-ok :
    (req : CreateTransactionRequest) (d d' : Db) (id : ℕ)
    → insert_transaction req d ≡ (ok id, d')
    → (any (has_id req.wallet_id) d.wallets ≡ true)
      × (d' ≡ record d {
        transactions = d.transactions ++ booked_row d.next_transaction req ∷ [];
        next_transaction = suc d.next_transaction;
      })
unfolding insert_transaction
insert_transaction-eq-ok req d d' id h = ground arith

pub debit-credit :
    (k : ℕ) (a : ℤ) (rs : List Wallet)
    → update (has_id k) (λ r. record r { balance = r.balance -ℤ a }) rs ≡ credit k (pos 0 -ℤ a) rs
debit-credit k a rs =
    ap (λ (f : Wallet → Wallet). update (has_id k) f rs)
      (fun_ext λ r. ap (λ (b : ℤ). record r { balance = b }) (omega int_laws))

-- The tables after a transfer whose statements have all been carried out.
abbrev pub moved : ℕ → ℕ → ℕ → TransferRequest → Db → Db
moved op o i req d = record d {
  wallets = credit req.dest_id req.amount (credit req.source_id (pos 0 -ℤ req.amount) d.wallets);
  transactions =
      (d.transactions ++ booked_row d.next_transaction (booking_out op o req) ∷ [])
      ++ booked_row (suc d.next_transaction) (booking_in op i req) ∷ [];
  next_transaction = suc (suc d.next_transaction);
}

pub Transferred-moved :
    {op o i : ℕ} {req : TransferRequest} {d d' : Db}
    → Transferred op o i req d d'
    → d' ≡ moved op o i req d
Transferred-moved {op} {o} {i} {req} {d} {d'} s = ground (
  arith,
  select_balance-eq-ok req.source_id d s.read s.balance s.selects,
  update_balance-eq-ok (λ b. b -ℤ req.amount) req.source_id s.read s.taken s.takes,
  insert_transaction-eq-ok (booking_out op o req) s.taken s.booked s.out_id s.books_out,
  update_balance-eq-ok (λ b. b +ℤ req.amount) req.dest_id s.booked s.given s.gives,
  insert_transaction-eq-ok (booking_in op i req) s.given d' s.in_id s.books_in,
  debit-credit req.source_id req.amount d.wallets,
)

-- Both wallets of a completed transfer exist, and the source had the amount.
pub Transferred-wallets :
    {op o i : ℕ} {req : TransferRequest} {d d' : Db}
    → Transferred op o i req d d'
    → (any (has_id req.source_id) d.wallets ≡ true) × (any (has_id req.dest_id) d.wallets ≡ true)
Transferred-wallets {op} {o} {i} {req} {d} {d'} s = ground (
  arith,
  select_balance-eq-ok req.source_id d s.read s.balance s.selects,
  update_balance-eq-ok (λ b. b -ℤ req.amount) req.source_id s.read s.taken s.takes,
  insert_transaction-eq-ok (booking_out op o req) s.taken s.booked s.out_id s.books_out,
  update_balance-eq-ok (λ b. b +ℤ req.amount) req.dest_id s.booked s.given s.gives,
  insert_transaction-eq-ok (booking_in op i req) s.given d' s.in_id s.books_in,
  debit-credit req.source_id req.amount d.wallets,
  any-credit req.source_id req.source_id (pos 0 -ℤ req.amount) d.wallets,
  any-credit req.dest_id req.source_id (pos 0 -ℤ req.amount) d.wallets,
  any-credit req.dest_id req.dest_id req.amount
      (credit req.source_id (pos 0 -ℤ req.amount) d.wallets),
)
