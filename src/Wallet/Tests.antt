-- ===== src/Wallet/Tests.antt =====
-- A bank of two wallets, on which the theorems about the wallet service are applied
-- (internal/wallet).
use mini_wallet.Base.{
  ℕ, List, [], ◌∷◌, none, some, ◌≡◌, ◌≢◌, refl, ap, find, any, true, arith, subst,
}
use mini_wallet.Base.Int.{ℤ, pos, negsuc, ◌+ℤ◌, ◌-ℤ◌, ◌≤ℤ◌}
use mini_wallet.RichError.{nil, plain}
use mini_wallet.Sql.{World, Result, ok, err}
use mini_wallet.Inbox.Handling.{Delivered}
use mini_wallet.Wallet.Tables.{
  Wallet, Transaction, TransferRequest, Db, deposit, completed, has_id, in_int64,
}
use mini_wallet.Wallet.Service.{transfer, TransferResponse, init_wallet}
use mini_wallet.Wallet.Subscriber.{Envelope, RegisterNewUser, handle, register_new_user, uint64_of}
use mini_wallet.Wallet.Balances.{total, NonNegative, UniqueIds}
use mini_wallet.Wallet.Transfer.{TransferPost, transfer_outcome}
use mini_wallet.Wallet.Conservation.{IsValid, total-transfer, transfer-IsValid}
use mini_wallet.Wallet.Funds.{transfer_moves_funds, transfer-NonNegative}
use mini_wallet.Wallet.Progress.{transfer_succeeds, transfer_negative}
use mini_wallet.Wallet.Opening.{InitPost, owns, init_wallet_outcome}
use mini_wallet.Wallet.Owners.{OneEach}
use mini_wallet.Wallet.Moves.{Moves, balances}
use mini_wallet.Wallet.Ledger.{Turn, transfers, receives, serve, serve_refines}
use mini_wallet.Wallet.Handling.{handle-IsValid, handle_again}

abbrev alice : Wallet
alice = record { id = 1; uuid = 11; user_id = 7; balance = pos 100; currency = "IRR" }

abbrev bob : Wallet
bob = record { id = 2; uuid = 12; user_id = 8; balance = pos 5; currency = "IRR" }

abbrev deposited : ℕ → ℕ → ℤ → Transaction
deposited id wallet_id amount = record {
  id = id;
  wallet_id = wallet_id;
  operation_id = 50;
  type = deposit;
  amount = amount;
  reference_id = 60;
  description = "";
  status = completed;
}

abbrev bank : Db
bank = record {
  wallets = alice ∷ bob ∷ [];
  transactions = deposited 1 1 (pos 100) ∷ deposited 2 2 (pos 5) ∷ [];
  messages = [];
  next_wallet = 3;
  next_transaction = 3;
}

abbrev calm : World Db
calm = record { db = bank; tx = none; faults = []; now = 1000 }

-- The third call of the operation fails.
abbrev stormy : World Db
stormy = record calm { faults = nil ∷ nil ∷ plain "connection reset" ∷ [] }

abbrev pay : TransferRequest
pay = record { source_id = 1; dest_id = 2; amount = pos 30 }

abbrev response : TransferResponse
response = record { message = "Transaction successfully transferred"; operation_id = 900 }

bank-UniqueIds : UniqueIds bank.wallets
bank-UniqueIds = (refl, (refl, tt))

one_is_not_two : ◌≢◌ {A = ℕ} 1 2
one_is_not_two e = omega (arith, e)

bank-IsValid : IsValid bank
unfolding ◌+ℤ◌
bank-IsValid = record {
  unique = bank-UniqueIds;
  balanced = (refl, (refl, tt));
  wallets_below = (omega arith, (omega arith, tt));
  bookings_below = (omega arith, (omega arith, tt));
}

transfer_succeeds_example : (transfer 900 901 902 7 pay calm).0 ≡ (ok response, 200)
unfolding in_int64 ◌+ℤ◌ ◌-ℤ◌
transfer_succeeds_example =
    transfer_succeeds 900 901 902 pay bank alice bob bank-UniqueIds one_is_not_two refl refl refl
      refl refl 7 none 1000

calm-transfer : (transfer 900 901 902 7 pay calm).0 ≡ (ok response, 200)
unfolding in_int64 ◌+ℤ◌ ◌-ℤ◌
calm-transfer =
    transfer_succeeds 900 901 902 pay bank alice bob bank-UniqueIds one_is_not_two refl refl refl
      refl refl 7 none 1000

transfer_moves_funds_example :
    let d' = (transfer 900 901 902 7 pay calm).1.db in
    (pay.amount ≤ℤ alice.balance)
    × (find (has_id 1) d'.wallets ≡ some (record alice { balance = pos 100 +ℤ (pos 0 -ℤ pos 30) }))
    × (find (has_id 2) d'.wallets ≡ some (record bob { balance = pos 5 +ℤ pos 30 }))
    × ((k : ℕ) (x : Wallet)
        → k ≢ 1
        → k ≢ 2
        → find (has_id k) bank.wallets ≡ some x
        → find (has_id k) d'.wallets ≡ some x)
transfer_moves_funds_example =
    transfer_moves_funds 900 901 902 7 pay calm response alice bob one_is_not_two refl refl
      (ap (λ (x : Result TransferResponse × ℕ). x.0) calm-transfer)

total-transfer_example : total (transfer 900 901 902 7 pay stormy).1.db.wallets ≡ total bank.wallets
total-transfer_example = total-transfer 900 901 902 7 pay stormy bank-UniqueIds

transfer-NonNegative_example : NonNegative (transfer 900 901 902 7 pay calm).1.db.wallets
transfer-NonNegative_example =
    transfer-NonNegative 900 901 902 7 pay calm bank-UniqueIds (omega arith)
      (omega arith, (omega arith, tt))

transfer_outcome_example : TransferPost 900 901 902 pay bank (transfer 900 901 902 7 pay stormy)
transfer_outcome_example = transfer_outcome 900 901 902 7 pay stormy

transfer-IsValid_example : IsValid (transfer 900 901 902 7 pay calm).1.db
transfer-IsValid_example = transfer-IsValid 900 901 902 7 pay calm bank-IsValid

abbrev take_back : TransferRequest
take_back = record { source_id = 1; dest_id = 2; amount = negsuc 49 }

transfer_negative_example :
    let r : (Result TransferResponse × ℕ) × World Db = transfer 900 901 902 7 take_back calm in
    (r.0.1 ≡ 200)
    × (find (has_id 2) r.1.db.wallets ≡ some (record bob { balance = pos 5 -ℤ pos 50 }))
unfolding in_int64 ◌+ℤ◌ ◌-ℤ◌
transfer_negative_example =
    transfer_negative 900 901 902 7 1000 49 1 2 bank none alice bob bank-UniqueIds one_is_not_two
      refl refl (omega arith) refl refl

init_wallet_outcome_example : InitPost 33 9 bank (init_wallet 33 9 calm)
init_wallet_outcome_example = init_wallet_outcome 33 9 calm

bank-OneEach : OneEach bank
bank-OneEach user = ground arith

-- Decoders that read every message as the registration of user 7.
abbrev as_registration : List ℕ → Result Envelope
as_registration body = ok (record { event_type = register_new_user; payload = body })

abbrev as_user_seven : List ℕ → Result RegisterNewUser
as_user_seven body = ok (record { id = pos 7 })

abbrev delivered : Delivered
delivered = record { id = 70; body = 1 ∷ 2 ∷ [] }

handle-IsValid_example :
    IsValid (handle as_registration as_user_seven 33 delivered stormy).1.db
    × OneEach (handle as_registration as_user_seven 33 delivered stormy).1.db
handle-IsValid_example =
    handle-IsValid as_registration as_user_seven 33 delivered stormy bank-IsValid bank-OneEach

seven_has_one :
    (ev : Envelope) (reg : RegisterNewUser)
    → as_registration delivered.body ≡ ok ev
    → as_user_seven ev.payload ≡ ok reg
    → any (owns (uint64_of reg.id)) bank.wallets ≡ true
unfolding uint64_of
seven_has_one ev reg e f =
    subst (λ (z : ℤ). any (owns (uint64_of z)) bank.wallets ≡ true)
      (ap (λ (r : Result RegisterNewUser). elim r [ ok x ↦ x.id | err _ ↦ pos 7 ]) f) refl

handle_again_example :
    ((handle as_registration as_user_seven 33 delivered calm).1.db.wallets ≡ bank.wallets)
    × ((handle as_registration as_user_seven 33 delivered calm).1.db.transactions
        ≡ bank.transactions)
handle_again_example = handle_again as_registration as_user_seven 33 delivered calm seven_has_one

-- A transfer, a message while a call fails, and a transfer back.
abbrev turns : List Turn
turns =
    record { task = transfers 900 901 902 7 pay; at = 1000; faults = [] }
    ∷ record {
      task = receives 33 delivered;
      at = 1010;
      faults = nil ∷ nil ∷ plain "connection reset" ∷ [];
    }
    ∷ record { task = transfers 903 904 905 7 take_back; at = 1020; faults = [] }
    ∷ []

serve_refines_example :
    IsValid (serve as_registration as_user_seven turns bank)
    × Moves (balances bank) (balances (serve as_registration as_user_seven turns bank))
serve_refines_example = serve_refines as_registration as_user_seven turns bank bank-IsValid
