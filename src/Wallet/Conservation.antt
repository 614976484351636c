-- ===== src/Wallet/Conservation.antt =====
-- What a transfer keeps (internal/wallet/service/wallet/service.go): the money and the books.
use mini_wallet.Base.{
  ℕ, ◌<◌, ◌≡◌, refl, ◌∙◌, sym, subst, true, List, [], ◌∷◌, arith, any, All, All-update, All-append,
}
use mini_wallet.Base.Int.{pos, ◌-ℤ◌, int_laws}
use mini_wallet.Sql.{World, Result, ok, err}
use mini_wallet.Wallet.Tables.{Wallet, TransferRequest, Db, has_id}
use mini_wallet.Wallet.Service.{transfer, TransferResponse}
use mini_wallet.Wallet.Balances.{
  total, UniqueIds, any-credit, UniqueIds-credit, total-credit, Balanced, Balanced-credit,
}
use mini_wallet.Wallet.Transfer.{
  Transferred, TransferPost, transfer_outcome, booking_out, booking_in,
}
use mini_wallet.Wallet.Statements.{Transferred-moved, Transferred-wallets, moved, booked_row}

-- A property of the tables that holds before a transfer, and after one that carries out all its
-- statements, holds after any.
pub after_transfer :
    (P : Db → Type 0) (op o i user : ℕ) (req : TransferRequest) (w : World Db)
    → P w.db
    → ((d' : Db) → Transferred op o i req w.db d' → P d')
    → P (transfer op o i user req w).1.db
after_transfer P op o i user req w before completes =
    go (transfer op o i user req w) (transfer_outcome op o i user req w)
  where
    go : (r : (Result TransferResponse × ℕ) × World Db) → TransferPost op o i req w.db r → P r.1.db
    go ((ok r, code), w') h = completes w'.db h.2
    go ((err e, code), w') h = subst P (sym h.1) before

total-moved :
    (op o i : ℕ) (req : TransferRequest) (d : Db)
    → UniqueIds d.wallets
    → any (has_id req.source_id) d.wallets ≡ true
    → any (has_id req.dest_id) d.wallets ≡ true
    → total (moved op o i req d).wallets ≡ total d.wallets
total-moved op o i req d u s t =
    total-credit req.dest_id req.amount _ (UniqueIds-credit req.source_id _ d.wallets u)
      (any-credit req.dest_id req.source_id _ d.wallets ∙ t)
    ∙ rw (total-credit req.source_id (pos 0 -ℤ req.amount) d.wallets u s) (omega int_laws)

-- No transfer makes or loses money, whatever its request, whichever calls fail, and also from a
-- wallet to itself: the balances add up to the same total. The primary key is assumed.
pub total-transfer :
    (op o i user : ℕ) (req : TransferRequest) (w : World Db)
    → UniqueIds w.db.wallets
    → total (transfer op o i user req w).1.db.wallets ≡ total w.db.wallets
total-transfer op o i user req w u =
    after_transfer (λ d. total d.wallets ≡ total w.db.wallets) op o i user req w refl
      λ d' s.
        rw (Transferred-moved s)
          (total-moved op o i req w.db u (Transferred-wallets s).0 (Transferred-wallets s).1)

-- The primary key and the foreign key, and every balance the sum of its wallet's bookings.
pub record IsValid (d : Db) : Type 0 where
  pub unique : UniqueIds d.wallets
  pub balanced : Balanced d.transactions d.wallets
  pub wallets_below : All (λ r. r.id < d.next_wallet) d.wallets
  pub bookings_below : All (λ t. t.wallet_id < d.next_wallet) d.transactions

exists_below :
    (k n : ℕ) (rs : List Wallet) → All (λ r. r.id < n) rs → any (has_id k) rs ≡ true → k < n
exists_below k n [] h e = cc
exists_below k n (r ∷ rs) h e = ground (arith, exists_below k n rs h.1)

-- Every transfer, whichever calls fail, keeps the books: each balance stays the sum of its wallet's
-- bookings, and ids stay unique and below the counter.
pub transfer-IsValid :
    (op o i user : ℕ) (req : TransferRequest) (w : World Db)
    → IsValid w.db
    → IsValid (transfer op o i user req w).1.db
transfer-IsValid op o i user req w v = after_transfer IsValid op o i user req w v λ d' s.
    subst IsValid (sym (Transferred-moved s)) (record {
      unique =
          UniqueIds-credit req.dest_id req.amount _ (UniqueIds-credit req.source_id _ _ v.unique);
      balanced =
          Balanced-credit (booked_row _ (booking_in op i req)) _ _
            (Balanced-credit (booked_row _ (booking_out op o req)) _ _ v.balanced);
      wallets_below =
          All-update (λ (r : Wallet). r.id < w.db.next_wallet) _ _ (λ r h. h) _
            (All-update (λ (r : Wallet). r.id < w.db.next_wallet) _ _ (λ r h. h) _ v.wallets_below);
      bookings_below =
          All-append _ _ _
            (All-append _ _ _ v.bookings_below
              (exists_below _ _ _ v.wallets_below (Transferred-wallets s).0, tt))
            (exists_below _ _ _ v.wallets_below (Transferred-wallets s).1, tt);
    })
