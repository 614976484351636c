-- ===== src/Wallet/Owners.antt =====
-- What opening a wallet keeps (`InitWallet` of internal/wallet/service/wallet/service.go): the keys,
-- the books and one wallet a user.

use mini_wallet.Base.{
  ℕ, suc, ◌≤◌, ◌<◌, ◌+◌, ◌==◌, ◌≡◌, refl, ◌∙◌, sym, subst, Bool, false, List, [], ◌∷◌, ◌++◌, arith,
  any, matching, All, All-append, All-map, inl, inr, Bool-cases, ==_iff, if◌then◌else◌, ◌≢◌,
}
use mini_wallet.Base.Int.{pos, ◌+ℤ◌, int_laws}
use mini_wallet.Sql.{World, Result, ok, err}
use mini_wallet.Wallet.Tables.{Wallet, Transaction, Db, has_id}
use mini_wallet.Wallet.Repository.{clashes}
use mini_wallet.Wallet.Service.{init_wallet}
use mini_wallet.Wallet.Balances.{UniqueIds, booked}
use mini_wallet.Wallet.Conservation.{IsValid}
use mini_wallet.Wallet.Opening.{opening, opened, InitPost, init_wallet_outcome, owns}

below_not_booked :
    (n : ℕ) (ts : List Transaction) → All (λ t. t.wallet_id < n) ts → booked n ts ≡ pos 0
below_not_booked n [] h = refl
below_not_booked n (t ∷ ts) h = ground (arith, below_not_booked n ts h.1, +ℤ_zero)
  where
    +ℤ_zero : pos 0 +ℤ pos 0 ≡ pos 0
    +ℤ_zero = omega int_laws

any_below :
    (n : ℕ) (k : ℕ) (rs : List Wallet) (x : Wallet)
    → x.id ≢ k
    → any (has_id k) (rs ++ x ∷ []) ≡ any (has_id k) rs
any_below n k [] x h = ground arith
any_below n k (r ∷ rs) x h = ground (arith, any_below n k rs x h)

UniqueIds-append :
    (n : ℕ) (rs : List Wallet) (x : Wallet)
    → All (λ r. r.id < n) rs
    → x.id ≡ n
    → UniqueIds rs
    → UniqueIds (rs ++ x ∷ [])
UniqueIds-append n [] x h e q = (refl, tt)
UniqueIds-append n (r ∷ rs) x h e q =
    (any_below n r.id rs x (omega arith) ∙ q.0, UniqueIds-append n rs x h.1 e q.1)

pub opened-IsValid : (uuid user : ℕ) (d : Db) → IsValid d → IsValid (opened uuid user d)
opened-IsValid uuid user d v = record {
  unique = UniqueIds-append d.next_wallet d.wallets _ v.wallets_below refl v.unique;
  balanced =
      All-append _ _ _ v.balanced
        (sym (below_not_booked d.next_wallet d.transactions v.bookings_below), tt);
  wallets_below =
      All-append _ _ _
        (All-map (λ (r : Wallet). r.id < d.next_wallet) (λ (r : Wallet). r.id < suc d.next_wallet)
          (λ r h. omega arith) _ v.wallets_below)
        (omega arith, tt);
  bookings_below =
      All-map (λ (t : Transaction). t.wallet_id < d.next_wallet)
        (λ (t : Transaction). t.wallet_id < suc d.next_wallet) (λ t h. omega arith) _
        v.bookings_below;
}

-- No user has two wallets in the default currency.
abbrev pub OneEach : Db → Type 0
OneEach d = (user : ℕ) → matching (owns user) d.wallets ≤ 1

matching-append :
    (p : Wallet → Bool) (rs : List Wallet) (x : Wallet)
    → matching p (rs ++ x ∷ []) ≡ matching p rs + (if p x then 1 else 0)
matching-append p [] x = ground arith
matching-append p (r ∷ rs) x = ground (arith, matching-append p rs x)

owns_none :
    (uuid user : ℕ) (rs : List Wallet)
    → any (clashes (opening uuid user)) rs ≡ false
    → matching (owns user) rs ≡ 0
owns_none uuid user [] h = refl
owns_none uuid user (r ∷ rs) h = ground (arith, owns_none uuid user rs)

opened-OneEach :
    (uuid user : ℕ) (d : Db)
    → any (clashes (opening uuid user)) d.wallets ≡ false
    → OneEach d
    → OneEach (opened uuid user d)
opened-OneEach uuid user d free one k =
    rw (matching-append (owns k) d.wallets _) (elim (Bool-cases (user == k)) [
      | inl own ↦
          let none_yet : matching (owns k) d.wallets ≡ 0 =
            subst (λ (j : ℕ). matching (owns j) d.wallets ≡ 0) ((==_iff user k).0 own)
              (owns_none uuid user d.wallets free) in
          rw (own, none_yet) (ground arith)
      | inr other ↦ rw other (omega (arith, one k))
    ])

-- Opening a wallet, whichever calls fail, keeps the keys and the books and gives no user a second
-- wallet in the default currency.
pub init_wallet-IsValid :
    (uuid user : ℕ) (w : World Db)
    → IsValid w.db
    → OneEach w.db
    → IsValid (init_wallet uuid user w).1.db × OneEach (init_wallet uuid user w).1.db
init_wallet-IsValid uuid user w v one =
    settle (init_wallet uuid user w) (init_wallet_outcome uuid user w)
  where
    Both : Db → Type 0
    Both d = IsValid d × OneEach d

    inserted : any (clashes (opening uuid user)) w.db.wallets ≡ false → Both (opened uuid user w.db)
    inserted free = (opened-IsValid uuid user w.db v, opened-OneEach uuid user w.db free one)

    settle : (r : Result ℕ × World Db) → InitPost uuid user w.db r → Both r.1.db
    settle (ok x, w') p = subst Both (sym p.2) (inserted p.1)
    settle (err e, w') (inl same) = subst Both (sym same) (v, one)
    settle (err e, w') (inr (free, e', _)) = subst Both (sym e') (inserted free)
