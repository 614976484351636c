-- ===== src/Wallet/Tables.antt =====
-- The wallet service's entities (internal/wallet/service/wallet/entity.go, params.go) and tables.
-- UUIDs, user ids and the ids of operations and references, which are only compared, are numbers.
-- The columns created_at and updated_at, which no statement of the service reads, are left out.
use mini_wallet.Base.{ℕ, List, String, Bool, ◌==◌, ◌^◌, ◌&&◌, leb, ltb}
use mini_wallet.Base.Int.{ℤ, pos_part, neg_part}
use mini_wallet.Inbox.Table.{Message, Store}

pub record Wallet : Type 0 where
  pub id : ℕ
  pub uuid : ℕ
  pub user_id : ℕ
  pub balance : ℤ
  pub currency : String

-- `WHERE id = ?`
abbrev pub has_id : ℕ → Wallet → Bool
has_id k r = r.id == k

pub data TransactionType : Type 0 where
  deposit withdraw fee transfer_in transfer_out : TransactionType

pub data TransactionStatus : Type 0 where
  pending completed failed : TransactionStatus

pub record Transaction : Type 0 where
  pub id : ℕ
  pub wallet_id : ℕ
  pub operation_id : ℕ
  pub type : TransactionType
  pub amount : ℤ
  pub reference_id : ℕ
  pub description : String
  pub status : TransactionStatus

pub record CreateTransactionRequest : Type 0 where
  pub wallet_id : ℕ
  pub operation_id : ℕ
  pub type : TransactionType
  pub amount : ℤ
  pub reference_id : ℕ
  pub description : String
  pub status : TransactionStatus

pub record TransferRequest : Type 0 where
  pub source_id : ℕ
  pub dest_id : ℕ
  pub amount : ℤ

pub record CreateWalletRequest : Type 0 where
  pub user_id : ℕ
  pub uuid : ℕ
  pub balance : ℤ
  pub currency : String

pub record Db : Type 0 where
  pub wallets : List Wallet
  pub transactions : List Transaction
  pub messages : List Message
  -- the AUTO_INCREMENT counters
  pub next_wallet : ℕ
  pub next_transaction : ℕ

abbrev pub store : Store Db
store = record { rows = λ d. d.messages; with_rows = λ d ms. record d { messages = ms } }

-- A BIGINT, as Go's int64.
unfoldable pub in_int64 : ℤ → Bool
in_int64 z = ltb (pos_part z) (2 ^ 63) && leb (neg_part z) (2 ^ 63)
