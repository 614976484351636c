-- ===== src/Wallet/Moves.antt =====
-- A ledger, which is what the wallet service's tables say of balances, and what the statements of a
-- transfer and of an opening do to it (internal/wallet/repository/wallet.go).
use mini_wallet.Base.{
  ℕ, ◌==◌, ◌≡◌, refl, ap, true, Option, none, some, List, [], ◌∷◌, ◌++◌, find, any, All, ◌<◌, arith,
  if◌then◌else◌, inl, inr, Bool-cases,
}
use mini_wallet.Base.Int.{ℤ, pos, ◌+ℤ◌, ◌-ℤ◌, ◌≤ℤ◌}
use mini_wallet.Wallet.Tables.{Wallet, TransferRequest, Db, has_id}
use mini_wallet.Wallet.Balances.{credit}
use mini_wallet.Wallet.Transfer.{Transferred}
use mini_wallet.Wallet.Statements.{Transferred-moved, Transferred-wallets, select_balance-eq-ok}
use mini_wallet.Wallet.Conservation.{IsValid}
use mini_wallet.Wallet.Funds.{covered}
use mini_wallet.Wallet.Opening.{opened}

-- The balance of each wallet that there is.
abbrev pub Ledger : Type 0
Ledger = ℕ → Option ℤ

abbrev added : ℤ → Option ℤ → Option ℤ
added a none = none
added a (some b) = some (b +ℤ a)

abbrev pub add : ℕ → ℤ → Ledger → Ledger
add k a l j = if j == k then added a (l j) else l j

-- What a ledger allows: an empty wallet is opened where there was none, and one wallet pays another
-- an amount that it has.
pub data Move (l l' : Ledger) : Type 0 where
  opens :
      (k : ℕ) → l k ≡ none → ((j : ℕ) → l' j ≡ (if j == k then some (pos 0) else l j)) → Move l l'
  pays :
      (source dest : ℕ) (amount b c : ℤ)
      → l source ≡ some b
      → l dest ≡ some c
      → amount ≤ℤ b
      → ((j : ℕ) → l' j ≡ add dest amount (add source (pos 0 -ℤ amount) l) j)
      → Move l l'

pub data Moves (l : Ledger) : Ledger → Type 0 where
  stays : Moves l l
  then_move : {l' l'' : Ledger} → Moves l l' → Move l' l'' → Moves l l''

abbrev balance_of : Option Wallet → Option ℤ
balance_of none = none
balance_of (some r) = some r.balance

abbrev pub balances : Db → Ledger
balances d k = balance_of (find (has_id k) d.wallets)

balance_of-credit :
    (j k : ℕ) (a : ℤ) (rs : List Wallet)
    → balance_of (find (has_id j) (credit k a rs)) ≡ (
        if j == k
        then added a (balance_of (find (has_id j) rs))
        else balance_of (find (has_id j) rs))
balance_of-credit j k a [] = ground arith
balance_of-credit j k a (r ∷ rs) = ground (arith, balance_of-credit j k a rs)

balance_of-append :
    (j : ℕ) (rs : List Wallet) (x : Wallet)
    → All (λ r. r.id < x.id) rs
    → balance_of (find (has_id j) (rs ++ x ∷ []))
      ≡ (if j == x.id then some x.balance else balance_of (find (has_id j) rs))
balance_of-append j [] x h = ground arith
balance_of-append j (r ∷ rs) x h = ground (arith, h.0, balance_of-append j rs x h.1)

balance_of-fresh :
    (n : ℕ) (rs : List Wallet) → All (λ r. r.id < n) rs → balance_of (find (has_id n) rs) ≡ none
balance_of-fresh n [] h = refl
balance_of-fresh n (r ∷ rs) h = ground (arith, h.0, balance_of-fresh n rs h.1)

balance_of-there :
    (k : ℕ) (rs : List Wallet)
    → any (has_id k) rs ≡ true
    → (c : ℤ) × (balance_of (find (has_id k) rs) ≡ some c)
balance_of-there k [] h = cc
balance_of-there k (r ∷ rs) h = elim (Bool-cases (r.id == k)) [
  | inl hit ↦ (r.balance, rw hit refl)
  | inr miss ↦ let (c, e) = balance_of-there k rs (ground arith) in (c, rw miss e)
]

pub opened-Move :
    (uuid user : ℕ) (d : Db) → IsValid d → Move (balances d) (balances (opened uuid user d))
opened-Move uuid user d v =
    opens d.next_wallet (balance_of-fresh d.next_wallet d.wallets v.wallets_below)
      (λ j. balance_of-append j d.wallets _ v.wallets_below)

pub Transferred-Move :
    {op o i : ℕ} {req : TransferRequest} {d d' : Db}
    → Transferred op o i req d d'
    → Move (balances d) (balances d')
Transferred-Move {req = req} {d} {d'} s =
    let (u, found, _) = (select_balance-eq-ok req.source_id d s.read s.balance s.selects).1 in
    let (c, there) = balance_of-there req.dest_id d.wallets (Transferred-wallets s).1 in
    pays req.source_id req.dest_id req.amount u.balance c (ap balance_of found) there
      (covered u found s)
      (λ j.
        rw
          (
            Transferred-moved s,
            balance_of-credit j req.dest_id req.amount
                (credit req.source_id (pos 0 -ℤ req.amount) d.wallets),
            balance_of-credit j req.source_id (pos 0 -ℤ req.amount) d.wallets,
          )
          refl)
