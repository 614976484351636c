-- ===== src/Sql.antt =====
-- What the services see of database/sql and the MySQL driver: calls that run a statement of the
-- source or report an error, and transactions. A statement is a function on the tables, given with
-- the Go code that runs it. Whether a call goes through is not the program's to decide: `faults`
-- lists what the calls report, in order, `nil` where a call goes through; when the list is used up
-- all go through. A call that reports an error has had no effect.
-- One operation is followed at a time: locking reads keep others out of a transaction's rows.
pub mod Transactions
pub mod Attempts
pub mod Commits
pub mod Calls
pub mod Steps
use mini_wallet.Base.{
  ℕ, Bool, true, false, Option, none, some, List, [], ◌∷◌, if◌then◌else◌, ◌≡◌, refl, ◌⊎◌, inl, inr,
}
use mini_wallet.RichError.{is_no_rows, Error, nil, plain, no_rows, mysql_error, wrapped, rich}

pub record World (D : Type 0) : Type 0 where
  -- the committed tables
  pub db : D
  -- the tables as the open transaction sees them
  pub tx : Option D
  pub faults : List Error
  -- NOW() and time.Now() during the operation, in seconds
  pub now : ℕ

-- A Go pair `(A, error)` whose value is meant only where the error is nil.
pub data Result {ℓ} (A : Type ℓ) : Type ℓ where
  ok : A → Result A
  err : Error → Result A

abbrev pub Action : Type 0 → Type 0 → Type 0
Action D A = World D → Result A × World D

abbrev pub is_nil : Error → Bool
is_nil nil = true
is_nil (plain m) = false
is_nil no_rows = false
is_nil (mysql_error n m) = false
is_nil (wrapped m e) = false
is_nil (rich r) = false

abbrev pub first_fault : List Error → Error
first_fault [] = nil
first_fault (e ∷ es) = e

abbrev pub later_faults : List Error → List Error
later_faults [] = []
later_faults (e ∷ es) = es

-- `sql.ErrTxDone`
abbrev pub tx_done : Error
tx_done = plain "sql: transaction has already been committed or rolled back"

module _ {D : Type 0} where
  unfoldable pub pure : {A : Type 0} → A → Action D A
  pure a w = (ok a, w)

  unfoldable pub raise : {A : Type 0} → Error → Action D A
  raise e w = (err e, w)

  infixl 5 ◌>>=◌ ◌>>◌
  unfoldable pub ◌>>=◌ : {A B : Type 0} → Action D A → (A → Action D B) → Action D B
  ◌>>=◌ m f w = let (r, w') = m w in elim r [ ok a ↦ f a w' | err e ↦ (err e, w') ]

  unfoldable pub ◌>>◌ : {A B : Type 0} → Action D A → Action D B → Action D B
  unfolding ◌>>=◌
  m >> k = m >>= λ _. k

  -- `if err != nil { return ..., f(err) }`
  unfoldable pub or_else : {A : Type 0} → Action D A → (Error → Error) → Action D A
  or_else m f w = let (r, w') = m w in elim r [ ok a ↦ (ok a, w') | err e ↦ (err (f e), w') ]

  -- `if test { return ..., e }`
  unfoldable pub raise_if : Bool → Error → Action D (Unit {0})
  raise_if test e w = if test then (err e, w) else (ok tt, w)

  -- With NOW() or time.Now().
  unfoldable pub at_now : {A : Type 0} → (ℕ → Action D A) → Action D A
  at_now m w = m w.now w

  -- `errors.Is(err, sql.ErrNoRows)` told apart from the other errors of a query.
  unfoldable pub or_no_rows : {A : Type 0} → Result A × World D → Result (Option A) × World D
  or_no_rows (r, w) = elim r [
    | ok a ↦ (ok (some a), w)
    | err e ↦ if is_no_rows e then (ok none, w) else (err e, w)
  ]

  -- A call that only may fail, such as `res.RowsAffected()`.
  unfoldable pub call : Action D (Unit {0})
  call w =
      let w' = record w { faults = later_faults w.faults } in
      if is_nil (first_fault w.faults) then (ok tt, w') else (err (first_fault w.faults), w')

  -- A statement outside a transaction.
  unfoldable pub autocommit : {A : Type 0} → (D → Result A × D) → Action D A
  autocommit f w = let (r, d) = f w.db in (r, record w { db = d })

  unfoldable pub exec : {A : Type 0} → (D → Result A × D) → Action D A
  unfolding ◌>>◌ call autocommit
  exec f = call >> autocommit f

  -- A statement of the open transaction; database/sql refuses it where none is open.
  unfoldable pub in_open_tx : {A : Type 0} → (D → Result A × D) → Action D A
  in_open_tx f w = elim w.tx [
    | none ↦ (err tx_done, w)
    | some t ↦ let (r, d) = f t in (r, record w { tx = some d })
  ]

  unfoldable pub tx_exec : {A : Type 0} → (D → Result A × D) → Action D A
  unfolding ◌>>◌ call in_open_tx
  tx_exec f = call >> in_open_tx f

  -- A query of one row in the open transaction, with `sql.ErrNoRows` as its own outcome.
  unfoldable pub look_up : {A : Type 0} → (D → Result A) → Action D (Option A)
  unfolding tx_exec or_no_rows
  look_up f w = or_no_rows (tx_exec (λ d. (f d, d)) w)

  unfoldable pub open_tx : Action D (Unit {0})
  open_tx w = (ok tt, record w { tx = some w.db })

  -- `BeginTxx`
  unfoldable pub begin_tx : Action D (Unit {0})
  unfolding ◌>>◌ call open_tx
  begin_tx = call >> open_tx

  -- `tx.Commit()` ends the transaction also where it fails.
  unfoldable pub commit_result : Result (Unit {0}) × World D → Result (Unit {0}) × World D
  commit_result (err e, w) = (err e, record w { tx = none })
  commit_result (ok _, w) = elim w.tx [
    | none ↦ (err tx_done, w)
    | some t ↦ (ok tt, record w { db = t; tx = none })
  ]

  unfoldable pub commit : Action D (Unit {0})
  unfolding commit_result call
  commit w = commit_result (call w)

  -- `_ = tx.Rollback()`, which does nothing to a transaction that has ended.
  abbrev pub rollback : World D → World D
  rollback w = record w { tx = none }

  -- `defer func() { if !committed { _ = tx.Rollback() } }()` round the body of a transaction.
  unfoldable pub rolling_back : {A : Type 0} → Action D A → Action D A
  rolling_back m w =
      let (r, w') = m w in elim r [ ok a ↦ (ok a, w') | err e ↦ (err e, rollback w') ]

  -- `_, _ = ...`: the error is looked at later, or never.
  unfoldable pub attempt : {A : Type 0} → Action D A → Action D (Result A)
  attempt m w = let (r, w') = m w in (ok r, w')

  -- A call that has nothing to do with the database.
  unfoldable pub returned : {A : Type 0} → Result A → Action D A
  returned r w = (r, w)

  -- A row that a query has found, or the error for none.
  unfoldable pub required : {A : Type 0} → Option A → Error → Action D A
  required none e w = (err e, w)
  required (some a) e w = (ok a, w)

-- Opens all of these at once.
unfoldable pub sql : Unit {0}
unfolding pure raise at_now or_no_rows ◌>>=◌ ◌>>◌ or_else raise_if call exec tx_exec look_up
    begin_tx commit rolling_back
sql = tt

pub Result-cases {ℓ} :
    {A : Type ℓ} (r : Result A) → ((a : A) × (r ≡ ok a)) ⊎ ((e : Error) × (r ≡ err e))
Result-cases (ok a) = inl (a, refl)
Result-cases (err e) = inr (e, refl)
