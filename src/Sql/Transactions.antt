-- ===== src/Sql/Transactions.antt =====
-- Rules for reasoning about the body of a transaction, one for each construct of `Sql`: what holds
-- of the tables inside the transaction, while the committed tables stay as they were.
use mini_wallet.Base.{
  ℕ, Bool, true, false, Option, none, some, ◌≡◌, refl, sym, subst, Bool-cases, inl, inr,
}
use mini_wallet.RichError.{Error, is_no_rows}
use mini_wallet.Sql.{
  World, Result, ok, err, Action, ◌>>=◌, ◌>>◌, pure, call, tx_exec, in_open_tx, open_tx, begin_tx,
  is_nil, first_fault, or_else, raise_if, at_now, or_no_rows, look_up,
}

module _ {D : Type 0} where
  -- The transaction is open and sees `t`; `d` is committed.
  pub record InTx (n : ℕ) (d t : D) (w : World D) : Type 0 where
    pub committed : w.db ≡ d
    pub sees : w.tx ≡ some t
    pub clock : w.now ≡ n

  abbrev Ends : {A : Type 0} → ℕ → D → (A → D → Type 0) → Result A × World D → Type 0
  Ends n d Q (ok a, w) = (t : D) × InTx n d t w × Q a t
  Ends n d Q (err e, w) = w.db ≡ d

  -- What an action in a transaction has done when it ends: with a value, `Q` of the value and of
  -- what the transaction sees; with an error, nothing to the committed tables.
  pub record TxPost {A : Type 0} (n : ℕ) (d : D) (Q : A → D → Type 0) (r : Result A × World D)
      : Type 0 where
    pub ends : Ends n d Q r

  abbrev EndsDone : {A : Type 0} → D → (A → D → Type 0) → Result A × World D → Type 0
  EndsDone d Q (ok a, w) = Q a w.db
  EndsDone d Q (err e, w) = w.db ≡ d

  -- The same for an action that begins and ends its transaction: with a value, `Q` of the value and
  -- of the committed tables; with an error, the committed tables are as they were.
  pub record DonePost {A : Type 0} (d : D) (Q : A → D → Type 0) (r : Result A × World D)
      : Type 0 where
    pub done : EndsDone d Q r

module _ {D : Type 0} {n : ℕ} {d : D} where
  resume-TxPost :
      {A B : Type 0} {Q : A → D → Type 0} {R : B → D → Type 0} (r : Result A × World D)
      (f : A → Action D B)
      → TxPost n d Q r
      → ((a : A) (t : D) (w : World D) → InTx n d t w → Q a t → TxPost n d R (f a w))
      → TxPost n d R (elim r.0 [ ok a ↦ f a r.1 | err e ↦ (err e, r.1) ])
  resume-TxPost (ok a, w) f h next = next a h.ends.0 w h.ends.1 h.ends.2
  resume-TxPost (err e, w) f h next = record { ends = h.ends }

  pub bind-TxPost :
      {A B : Type 0} {Q : A → D → Type 0} {R : B → D → Type 0} (m : Action D A) (f : A → Action D B)
      (w : World D)
      → TxPost n d Q (m w)
      → ((a : A) (t : D) (w' : World D) → InTx n d t w' → Q a t → TxPost n d R (f a w'))
      → TxPost n d R ((m >>= f) w)
  unfolding ◌>>=◌
  bind-TxPost m f w h next = resume-TxPost (m w) f h next

  pub then-TxPost :
      {A B : Type 0} {Q : A → D → Type 0} {R : B → D → Type 0} (m : Action D A) (k : Action D B)
      (w : World D)
      → TxPost n d Q (m w)
      → ((a : A) (t : D) (w' : World D) → InTx n d t w' → Q a t → TxPost n d R (k w'))
      → TxPost n d R ((m >> k) w)
  unfolding ◌>>◌
  then-TxPost m k w h next = resume-TxPost (m w) (λ _. k) h next

  pub weaker-TxPost :
      {A : Type 0} {Q R : A → D → Type 0} (r : Result A × World D)
      → TxPost n d Q r
      → ((a : A) (t : D) → Q a t → R a t)
      → TxPost n d R r
  weaker-TxPost (ok a, w) h use_q = record {
    ends = (h.ends.0, h.ends.1, use_q a h.ends.0 h.ends.2);
  }
  weaker-TxPost (err e, w) h use_q = record { ends = h.ends }

  or_else_result-TxPost :
      {A : Type 0} {Q : A → D → Type 0} (r : Result A × World D) (f : Error → Error)
      → TxPost n d Q r
      → TxPost n d Q (elim r.0 [ ok a ↦ (ok a, r.1) | err e ↦ (err (f e), r.1) ])
  or_else_result-TxPost (ok a, w) f h = record { ends = h.ends }
  or_else_result-TxPost (err e, w) f h = record { ends = h.ends }

  pub or_else-TxPost :
      {A : Type 0} {Q : A → D → Type 0} (m : Action D A) (f : Error → Error) (w : World D)
      → TxPost n d Q (m w)
      → TxPost n d Q (or_else m f w)
  unfolding or_else
  or_else-TxPost m f w h = or_else_result-TxPost (m w) f h

  pub pure-TxPost :
      {A : Type 0} {Q : A → D → Type 0} (a : A) (t : D) (w : World D)
      → InTx n d t w
      → Q a t
      → TxPost n d Q (pure a w)
  unfolding pure
  pure-TxPost a t w i q = record { ends = (t, i, q) }

  pub call-TxPost : (t : D) (w : World D) → InTx n d t w → TxPost n d (λ _ t'. t' ≡ t) (call w)
  unfolding call
  call-TxPost t w i = elim (Bool-cases (is_nil (first_fault w.faults))) [
    | inl fine ↦ record {
      ends = rw fine (t, record { committed = i.committed; sees = i.sees; clock = i.clock }, refl);
    }
    | inr fails ↦ record { ends = rw fails i.committed }
  ]

  pub raise_if-TxPost :
      (test : Bool) (e : Error) (t : D) (w : World D)
      → InTx n d t w
      → TxPost n d (λ _ t'. (t' ≡ t) × (test ≡ false)) (raise_if test e w)
  unfolding raise_if
  raise_if-TxPost true e t w i = record { ends = i.committed }
  raise_if-TxPost false e t w i = record { ends = (t, i, (refl, refl)) }

  run_statement :
      {A : Type 0} (f : D → Result A × D) (t : D) (w : World D)
      → w.db ≡ d
      → w.now ≡ n
      → (r : Result A × D) → f t ≡ r
      → TxPost n d (λ a t'. f t ≡ (ok a, t')) (r.0, record w { tx = some r.1 })
  run_statement f t w i k (ok a, t') e = record {
    ends = (t', record { committed = i; sees = refl; clock = k }, e);
  }
  run_statement f t w i k (err x, t') e = record { ends = i }

  pub tx_exec-TxPost :
      {A : Type 0} (f : D → Result A × D) (t : D) (w : World D)
      → InTx n d t w
      → TxPost n d (λ a t'. f t ≡ (ok a, t')) (tx_exec f w)
  unfolding tx_exec
  tx_exec-TxPost f t w i =
      bind-TxPost call (λ _. in_open_tx f) w (call-TxPost t w i)
        λ _ t' w' i' same.
          rw (i'.sees, same) (run_statement f t w' i'.committed i'.clock (f t) refl)

  -- A statement, by what it makes of what the transaction sees.
  pub statement-TxPost :
      {A : Type 0} {R : A → D → Type 0} (f : D → Result A × D) (t : D) (w : World D)
      → InTx n d t w
      → ((a : A) (t' : D) → f t ≡ (ok a, t') → R a t')
      → TxPost n d R (tx_exec f w)
  statement-TxPost f t w i use_q = weaker-TxPost (tx_exec f w) (tx_exec-TxPost f t w i) use_q

module _ {D : Type 0} where
  pub call-db : (w : World D) → (call w).1.db ≡ w.db
  unfolding call
  call-db w = elim (Bool-cases (is_nil (first_fault w.faults))) [
    | inl fine ↦ rw fine
    | inr fails ↦ rw fails
  ]

  pub call-now : (w : World D) → (call w).1.now ≡ w.now
  unfolding call
  call-now w = elim (Bool-cases (is_nil (first_fault w.faults))) [
    | inl fine ↦ rw fine
    | inr fails ↦ rw fails
  ]

  opened :
      (w : World D) (r : Result (Unit {0}) × World D)
      → r.1.db ≡ w.db
      → r.1.now ≡ w.now
      → TxPost w.now w.db (λ _ t. t ≡ w.db) (((λ _. r) >> open_tx) w)
  unfolding open_tx ◌>>◌
  opened w (ok _, w') e k = record {
    ends = (w'.db, record { committed = e; sees = refl; clock = k }, e);
  }
  opened w (err x, w') e k = record { ends = e }

  -- BEGIN, where its error is handled on its own.
  pub begin_tx-TxPost : (w : World D) → TxPost w.now w.db (λ _ t. t ≡ w.db) (begin_tx w)
  unfolding begin_tx ◌>>◌
  begin_tx-TxPost w = opened w (call w) (call-db w) (call-now w)

-- A row that was found is the one that the query finds.
abbrev pub Found : {A : Type 0} → Result A → Option A → Type 0
Found r none = Unit
Found r (some a) = r ≡ ok a

module _ {D : Type 0} {n : ℕ} {d : D} where
  pub at_now-TxPost :
      {A : Type 0} {Q : A → D → Type 0} (m : ℕ → Action D A) (w : World D)
      → TxPost n d Q (m w.now w)
      → TxPost n d Q (at_now m w)
  unfolding at_now
  at_now-TxPost m w h = h

  -- The time is the one at which the transaction began.
  pub clocked-TxPost :
      {A : Type 0} {Q : A → D → Type 0} (m : ℕ → Action D A) (t : D) (w : World D)
      → InTx n d t w
      → TxPost n d Q (m n w)
      → TxPost n d Q (at_now m w)
  unfolding at_now
  clocked-TxPost {Q} m t w i h = subst (λ x. TxPost n d Q (m x w)) (sym i.clock) h

  pub call-InTx : (t : D) (w : World D) → InTx n d t w → InTx n d t (call w).1
  unfolding call
  call-InTx t w i = elim (Bool-cases (is_nil (first_fault w.faults))) [
    | inl fine ↦ rw fine (record { committed = i.committed; sees = i.sees; clock = i.clock })
    | inr fails ↦ rw fails (record { committed = i.committed; sees = i.sees; clock = i.clock })
  ]

  scanned :
      {A : Type 0} (t : D) (w : World D) (r : Result A)
      → InTx n d t w
      → TxPost n d (λ o t'. (t' ≡ t) × Found r o) (or_no_rows (r, w))
  unfolding or_no_rows
  scanned t w (ok a) i = record { ends = (t, i, (refl, refl)) }
  scanned t w (err e) i = elim (Bool-cases (is_no_rows e)) [
    | inl gone ↦ record { ends = rw gone (t, i, (refl, tt)) }
    | inr other ↦ record { ends = rw other i.committed }
  ]

  asked :
      {A : Type 0} (f : D → Result A) (t : D) (r : Result (Unit {0}) × World D)
      → InTx n d t r.1
      → TxPost n d
          (λ o t'. (t' ≡ t) × Found (f t) o)
          (or_no_rows (((λ _. r) >> in_open_tx (λ x. (f x, x))) r.1))
  unfolding ◌>>◌ in_open_tx
  asked f t (ok _, w) i =
      rw i.sees
        (scanned t _ (f t) (record { committed = i.committed; sees = refl; clock = i.clock }))
  asked {A} f t (err e, w) i = faulted (scanned {A = A} t w (err e) i)
    where
      faulted :
          {o : Result (Option A) × World D}
          → TxPost n d (λ o t'. (t' ≡ t) × Found (err e) o) o
          → TxPost n d (λ o t'. (t' ≡ t) × Found (f t) o) o
      faulted {o = (ok none, w')} h = record { ends = (h.ends.0, h.ends.1, (h.ends.2.0, tt)) }
      faulted {o = (ok (some a), w')} h = cc (h.ends.2.1)
      faulted {o = (err x, w')} h = record { ends = h.ends }

  -- A query of one row leaves the tables.
  pub look_up-TxPost :
      {A : Type 0} (f : D → Result A) (t : D) (w : World D)
      → InTx n d t w
      → TxPost n d (λ o t'. (t' ≡ t) × Found (f t) o) (look_up f w)
  unfolding look_up ◌>>◌
  look_up-TxPost f t w i = asked f t (call w) (call-InTx t w i)
