-- ===== src/Wallet/Funds.antt =====
-- Who pays and who is paid (internal/wallet/service/wallet/service.go, internal/wallet/repository/wallet.go).
use mini_wallet.Base.{ℕ, ◌==◌, ◌≡◌, sym, subst, arith, find, some, if◌then◌else◌, ◌≢◌}
use mini_wallet.Base.Int.{pos, ◌+ℤ◌, ◌-ℤ◌, ◌≤ℤ◌}
use mini_wallet.Sql.{World, Result, ok, err}
use mini_wallet.Wallet.Tables.{Wallet, TransferRequest, Db, has_id}
use mini_wallet.Wallet.Service.{transfer, TransferResponse}
use mini_wallet.Wallet.Balances.{
  UniqueIds, find-credit, NonNegative, NonNegative-debit, NonNegative-credit,
}
use mini_wallet.Wallet.Transfer.{Transferred, TransferPost, transfer_outcome}
use mini_wallet.Wallet.Statements.{Transferred-moved, select_balance-eq-ok}
use mini_wallet.Wallet.Conservation.{after_transfer}

Transferred-of_ok :
    (op o i user : ℕ) (req : TransferRequest) (w : World Db) (resp : TransferResponse)
    → (transfer op o i user req w).0.0 ≡ ok resp
    → Transferred op o i req w.db (transfer op o i user req w).1.db
Transferred-of_ok op o i user req w resp =
    go (transfer op o i user req w) (transfer_outcome op o i user req w)
  where
    go :
        (r : (Result TransferResponse × ℕ) × World Db)
        → TransferPost op o i req w.db r
        → r.0.0 ≡ ok resp
        → Transferred op o i req w.db r.1.db
    go ((ok r, code), w') h e = h.2
    go ((err x, code), w') h e = cc

pub covered :
    {op o i : ℕ} {req : TransferRequest} {d d' : Db} (u : Wallet)
    → find (has_id req.source_id) d.wallets ≡ some u
    → Transferred op o i req d d'
    → req.amount ≤ℤ u.balance
covered {req = req} {d} u e s =
    ground (arith, s.covers, select_balance-eq-ok req.source_id d s.read s.balance s.selects)

find-moved :
    (k : ℕ) {op o i : ℕ} {req : TransferRequest} {d d' : Db} (x : Wallet)
    → Transferred op o i req d d'
    → find (has_id k) d.wallets ≡ some x
    → find (has_id k) d'.wallets
      ≡ some (
          let x' : Wallet =
            if k == req.source_id
            then record x { balance = x.balance +ℤ (pos 0 -ℤ req.amount) }
            else x in
          if k == req.dest_id then record x' { balance = x'.balance +ℤ req.amount } else x')
find-moved k {req = req} {d} x s e =
    rw (Transferred-moved s)
      (find-credit k req.dest_id req.amount _ _ (find-credit k req.source_id _ d.wallets x e))

-- A transfer between two wallets that is answered with a response has had the amount covered by
-- the source; it takes it from the source, gives it to the destination, and leaves every third
-- wallet as it was.
pub transfer_moves_funds :
    (op o i user : ℕ) (req : TransferRequest) (w : World Db) (resp : TransferResponse)
    (u v : Wallet)
    → req.source_id ≢ req.dest_id
    → find (has_id req.source_id) w.db.wallets ≡ some u
    → find (has_id req.dest_id) w.db.wallets ≡ some v
    → (transfer op o i user req w).0.0 ≡ ok resp
    → let d' = (transfer op o i user req w).1.db in
      (req.amount ≤ℤ u.balance)
      × (find (has_id req.source_id) d'.wallets
          ≡ some (record u { balance = u.balance +ℤ (pos 0 -ℤ req.amount) }))
      × (find (has_id req.dest_id) d'.wallets
          ≡ some (record v { balance = v.balance +ℤ req.amount }))
      × ((k : ℕ) (x : Wallet)
          → k ≢ req.source_id
          → k ≢ req.dest_id
          → find (has_id k) w.db.wallets ≡ some x
          → find (has_id k) d'.wallets ≡ some x)
transfer_moves_funds op o i user req w resp u v apart eu ev e =
    let s = Transferred-of_ok op o i user req w resp e in
    (
      covered u eu s,
      ground (arith, find-moved req.source_id u s eu),
      ground (arith, find-moved req.dest_id v s ev),
      λ k x ks kd ex. ground (arith, find-moved k x s ex),
    )

-- A transfer of an amount that is not negative overdraws no wallet: with no negative balance
-- before there is none after, whichever calls fail.
pub transfer-NonNegative :
    (op o i user : ℕ) (req : TransferRequest) (w : World Db)
    → UniqueIds w.db.wallets
    → pos 0 ≤ℤ req.amount
    → NonNegative w.db.wallets
    → NonNegative (transfer op o i user req w).1.db.wallets
transfer-NonNegative op o i user req w q p n =
    after_transfer (λ d. NonNegative d.wallets) op o i user req w n
      λ d' s.
        let (u, found, _) =
          (select_balance-eq-ok req.source_id w.db s.read s.balance s.selects).1 in
        subst (λ (d : Db). NonNegative d.wallets) (sym (Transferred-moved s))
          (NonNegative-credit req.dest_id req.amount _ p (
            NonNegative-debit req.source_id req.amount u w.db.wallets q found (covered u found s)
              n))
