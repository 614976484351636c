-- ===== src/Wallet/Balances.antt =====
-- Sums of balances and of bookings, and how a change of one balance or one more booking moves them.
use mini_wallet.Base.{
  ℕ, ◌==◌, ◌≡◌, refl, true, false, List, [], ◌∷◌, ◌++◌, arith, any, update, find, All, All-update,
  some, inl, inr, Bool-cases, sym, if◌then◌else◌,
}
use mini_wallet.Base.Int.{ℤ, pos, ◌+ℤ◌, ◌-ℤ◌, ◌≤ℤ◌, int_laws, +ℤ_assoc}
use mini_wallet.Wallet.Tables.{
  Wallet, Transaction, TransactionType, deposit, withdraw, fee, transfer_in, transfer_out, has_id,
}

-- The money in all wallets together.
abbrev pub total : List Wallet → ℤ
total [] = pos 0
total (r ∷ rs) = r.balance +ℤ total rs

-- The primary key.
abbrev pub UniqueIds : List Wallet → Type 0
UniqueIds [] = Unit
UniqueIds (r ∷ rs) = (any (has_id r.id) rs ≡ false) × UniqueIds rs

-- `UPDATE wallets SET balance = balance + delta WHERE id = k`
abbrev pub credit : ℕ → ℤ → List Wallet → List Wallet
credit k delta = update (has_id k) (λ r. record r { balance = r.balance +ℤ delta })

pub any-credit :
    (j k : ℕ) (delta : ℤ) (rs : List Wallet)
    → any (has_id j) (credit k delta rs) ≡ any (has_id j) rs
any-credit j k delta [] = refl
any-credit j k delta (r ∷ rs) = ground (arith, any-credit j k delta rs)

pub UniqueIds-credit :
    (k : ℕ) (delta : ℤ) (rs : List Wallet) → UniqueIds rs → UniqueIds (credit k delta rs)
UniqueIds-credit k delta [] u = tt
UniqueIds-credit k delta (r ∷ rs) u =
    ground (arith, UniqueIds-credit k delta rs u.1, any-credit r.id k delta rs)

credit_absent :
    (k : ℕ) (delta : ℤ) (rs : List Wallet)
    → any (has_id k) rs ≡ false
    → total (credit k delta rs) ≡ total rs
credit_absent k delta [] h = refl
credit_absent k delta (r ∷ rs) h = ground (arith, credit_absent k delta rs)

-- Where the wallet exists, the total moves by the amount credited.
pub total-credit :
    (k : ℕ) (delta : ℤ) (rs : List Wallet)
    → UniqueIds rs
    → any (has_id k) rs ≡ true
    → total (credit k delta rs) ≡ total rs +ℤ delta
total-credit k delta [] u h = cc
total-credit k delta (r ∷ rs) u h =
    grind (int_laws, total-credit k delta rs u.1, credit_absent k delta rs)

pub find-credit :
    (j k : ℕ) (delta : ℤ) (rs : List Wallet) (r : Wallet)
    → find (has_id j) rs ≡ some r
    → find (has_id j) (credit k delta rs)
      ≡ some (if j == k then record r { balance = r.balance +ℤ delta } else r)
find-credit j k delta [] r h = cc
find-credit j k delta (x ∷ rs) r h = ground (arith, find-credit j k delta rs r)

-- What a booking adds to the balance of its wallet.
abbrev pub signed : TransactionType → ℤ → ℤ
signed deposit a = a
signed withdraw a = pos 0 -ℤ a
signed fee a = pos 0 -ℤ a
signed transfer_in a = a
signed transfer_out a = pos 0 -ℤ a

-- The sum of a wallet's bookings.
abbrev pub booked : ℕ → List Transaction → ℤ
booked k [] = pos 0
booked k (t ∷ ts) = (if k == t.wallet_id then signed t.type t.amount else pos 0) +ℤ booked k ts

pub booked-append :
    (k : ℕ) (ts : List Transaction) (t : Transaction)
    → booked k (ts ++ t ∷ [])
      ≡ booked k ts +ℤ (if k == t.wallet_id then signed t.type t.amount else pos 0)
booked-append k [] t = omega int_laws
booked-append k (x ∷ ts) t = rw (booked-append k ts t) (sym (+ℤ_assoc _ _ _))

-- Every balance is the sum of its wallet's bookings.
abbrev pub Balanced : List Transaction → List Wallet → Type 0
Balanced ts = All (λ r. r.balance ≡ booked r.id ts)

-- One booking together with its change of the balance keeps the books.
pub Balanced-credit :
    (t : Transaction) (ts : List Transaction) (rs : List Wallet)
    → Balanced ts rs
    → Balanced (ts ++ t ∷ []) (credit t.wallet_id (signed t.type t.amount) rs)
Balanced-credit t ts [] b = tt
Balanced-credit t ts (r ∷ rs) b = elim (Bool-cases (r.id == t.wallet_id)) [
  | inl own ↦ rw own (rw (booked-append r.id ts t, own, b.0) refl, Balanced-credit t ts rs b.1)
  | inr other ↦
      rw other
        (rw (booked-append r.id ts t, other, ← b.0) (omega int_laws), Balanced-credit t ts rs b.1)
]

credit_absent_id :
    (k : ℕ) (delta : ℤ) (rs : List Wallet) → any (has_id k) rs ≡ false → credit k delta rs ≡ rs
credit_absent_id k delta [] h = refl
credit_absent_id k delta (r ∷ rs) h = ground (arith, credit_absent_id k delta rs)

abbrev pub NonNegative : List Wallet → Type 0
NonNegative = All (λ r. pos 0 ≤ℤ r.balance)

-- A wallet that holds the amount can be debited.
pub NonNegative-debit :
    (k : ℕ) (a : ℤ) (u : Wallet) (rs : List Wallet)
    → UniqueIds rs
    → find (has_id k) rs ≡ some u
    → a ≤ℤ u.balance
    → NonNegative rs
    → NonNegative (credit k (pos 0 -ℤ a) rs)
NonNegative-debit k a u [] q f c n = tt
NonNegative-debit k a u (r ∷ rs) q f c n = elim (Bool-cases (r.id == k)) [
  | inl hit ↦
      let same : r ≡ u = ground (arith, f) in
      let alone : any (has_id k) rs ≡ false = ground (arith, q.0) in
      rw hit (rw (same, credit_absent_id k (pos 0 -ℤ a) rs alone) (omega int_laws, n.1))
  | inr miss ↦ rw miss (n.0, NonNegative-debit k a u rs q.1 (ground arith) c n.1)
]

pub NonNegative-credit :
    (k : ℕ) (a : ℤ) (rs : List Wallet) → pos 0 ≤ℤ a → NonNegative rs → NonNegative (credit k a rs)
NonNegative-credit k a rs p n =
    All-update (λ (r : Wallet). pos 0 ≤ℤ r.balance) (has_id k)
      (λ r. record r { balance = r.balance +ℤ a }) (λ r h. omega int_laws) rs n
