-- ===== src/Sql/Attempts.antt =====
-- More rules for the body of a transaction: errors that are dropped or come from elsewhere, and rows
-- that must be there.
use mini_wallet.Base.{ℕ, Bool, true, false, none, some, Option, ◌≡◌, refl, ◌⊎◌, inl, inr}
use mini_wallet.RichError.{Error}
use mini_wallet.Sql.{
  World, Result, ok, err, Action, ◌>>=◌, ◌>>◌, pure, or_else, raise_if, call, tx_exec, in_open_tx,
  attempt, required, returned,
}
use mini_wallet.Sql.Transactions.{InTx, TxPost, DonePost, call-InTx}

-- A call that was tried: a statement has run, or nothing has changed.
abbrev pub Tried : {D A : Type 0} → (D → Result A × D) → D → Result A → D → Type 0
Tried f t (ok a) t' = f t ≡ (ok a, t')
Tried f t (err e) t' = (t' ≡ t) ⊎ (f t ≡ (err e, t'))

module _ {D : Type 0} {n : ℕ} {d : D} where
  pub required-TxPost :
      {A : Type 0} (o : Option A) (e : Error) (t : D) (w : World D)
      → InTx n d t w
      → TxPost n d (λ a t'. (t' ≡ t) × (o ≡ some a)) (required o e w)
  unfolding required
  required-TxPost none e t w i = record { ends = i.committed }
  required-TxPost (some a) e t w i = record { ends = (t, i, (refl, refl)) }

  pub returned-TxPost :
      {A : Type 0} (r : Result A) (t : D) (w : World D)
      → InTx n d t w
      → TxPost n d (λ a t'. (t' ≡ t) × (r ≡ ok a)) (returned r w)
  unfolding returned
  returned-TxPost (ok a) t w i = record { ends = (t, i, (refl, refl)) }
  returned-TxPost (err e) t w i = record { ends = i.committed }

  tried :
      {A : Type 0} (f : D → Result A × D) (t : D) (w : World D)
      → InTx n d t w
      → (r : Result A × D) → f t ≡ r
      → TxPost n d (λ x t'. Tried f t x t') (ok r.0, record w { tx = some r.1 })
  tried f t w i (ok a, t') e = record {
    ends = (t', record { committed = i.committed; sees = refl; clock = i.clock }, e);
  }
  tried f t w i (err x, t') e = record {
    ends = (t', record { committed = i.committed; sees = refl; clock = i.clock }, inr e);
  }

  attempted :
      {A : Type 0} (f : D → Result A × D) (t : D) (c : Result (Unit {0}) × World D)
      → InTx n d t c.1
      → TxPost n d (λ x t'. Tried f t x t') (attempt ((λ _. c) >> in_open_tx f) c.1)
  unfolding attempt ◌>>◌ in_open_tx
  attempted f t (ok _, w) i = rw i.sees (tried f t w i (f t) refl)
  attempted f t (err e, w) i = record { ends = (t, i, inl refl) }

  -- A dropped error of a statement leaves the transaction open.
  pub attempt-TxPost :
      {A : Type 0} (f : D → Result A × D) (t : D) (w : World D)
      → InTx n d t w
      → TxPost n d (λ x t'. Tried f t x t') (attempt (tx_exec f) w)
  unfolding attempt tx_exec ◌>>◌
  attempt-TxPost f t w i = attempted f t (call w) (call-InTx t w i)

module _ {D : Type 0} where
  -- A check before the transaction.
  pub raise_if-DonePost :
      {A : Type 0} {Q : A → D → Type 0} (test : Bool) (e : Error) (k : Action D A) (w : World D)
      → (test ≡ false → DonePost w.db Q (k w))
      → DonePost w.db Q ((raise_if test e >> k) w)
  unfolding raise_if ◌>>◌
  raise_if-DonePost true e k w h = record { done = refl }
  raise_if-DonePost false e k w h = h refl

  -- A call before the transaction that has nothing to do with the database.
  pub returned-DonePost :
      {A B : Type 0} {Q : B → D → Type 0} (r : Result A) (f : Error → Error) (k : A → Action D B)
      (w : World D)
      → ((a : A) → r ≡ ok a → DonePost w.db Q (k a w))
      → DonePost w.db Q ((or_else (returned r) f >>= k) w)
  unfolding returned or_else ◌>>=◌
  returned-DonePost (ok a) f k w h = h a refl
  returned-DonePost (err e) f k w h = record { done = refl }

  -- A value made of that of a transaction.
  pub pure-DonePost :
      {A B : Type 0} {Q : A → D → Type 0} {R : B → D → Type 0} (m : Action D A) (f : A → B)
      (w : World D)
      → DonePost w.db Q (m w)
      → ((a : A) (t : D) → Q a t → R (f a) t)
      → DonePost w.db R ((m >>= λ a. pure (f a)) w)
  unfolding pure ◌>>=◌
  pure-DonePost {A} {Q = Q} {R = R} m f w h use_q = made (m w) h
    where
      made :
          (r : Result A × World D)
          → DonePost w.db Q r
          → DonePost w.db R (elim r.0 [ ok a ↦ (ok (f a), r.1) | err e ↦ (err e, r.1) ])
      made (ok a, w') h' = record { done = use_q a w'.db h'.done }
      made (err e, w') h' = record { done = h'.done }
