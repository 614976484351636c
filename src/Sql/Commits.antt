-- ===== src/Sql/Commits.antt =====
-- Rules for whole transactions, to the commit or the rollback: what holds of the committed tables
-- when an action that begins and ends its transaction is done.
use mini_wallet.Base.{ℕ, some, ◌≡◌, refl, ap, sym, subst}
use mini_wallet.RichError.{Error}
use mini_wallet.Sql.{
  World, Result, ok, err, Action, ◌>>=◌, ◌>>◌, pure, call, open_tx, commit_result, begin_tx, commit,
  rollback, rolling_back, or_else,
}
use mini_wallet.Sql.Transactions.{InTx, TxPost, DonePost, call-TxPost, call-db, call-now}

module _ {D : Type 0} {n : ℕ} {d : D} where
  committing :
      {Q : D → Type 0} (r : Result (Unit {0}) × World D)
      → TxPost n d (λ _. Q) r
      → DonePost d (λ _. Q) (commit_result r)
  unfolding commit_result
  committing (ok _, w) h = record { done = rw h.ends.1.sees h.ends.2 }
  committing (err e, w) h = record { done = h.ends }

  keeps_seen :
      {Q : D → Type 0} (t : D) (r : Result (Unit {0}) × World D)
      → Q t
      → TxPost n d (λ _ t'. t' ≡ t) r
      → TxPost n d (λ _. Q) r
  keeps_seen {Q} t (ok _, w) q h = record { ends = (h.ends.0, h.ends.1, subst Q (sym h.ends.2) q) }
  keeps_seen t (err e, w) q h = record { ends = h.ends }

  -- COMMIT makes what the transaction sees the committed tables, or fails and leaves them.
  pub commit-DonePost :
      {Q : D → Type 0} (t : D) (w : World D) → InTx n d t w → Q t → DonePost d (λ _. Q) (commit w)
  unfolding commit
  commit-DonePost {Q} t w i q =
      committing (call w) (keeps_seen {Q = Q} t (call w) q (call-TxPost t w i))

  resume_done :
      {A B : Type 0} {Q : A → D → Type 0} {R : B → D → Type 0} (r : Result A × World D)
      (f : A → Action D B)
      → TxPost n d Q r
      → ((a : A) (t : D) (w : World D) → InTx n d t w → Q a t → DonePost d R (f a w))
      → DonePost d R (elim r.0 [ ok a ↦ f a r.1 | err e ↦ (err e, r.1) ])
  resume_done (ok a, w) f h next = next a h.ends.0 w h.ends.1 h.ends.2
  resume_done (err e, w) f h next = record { done = h.ends }

  pub bind-DonePost :
      {A B : Type 0} {Q : A → D → Type 0} {R : B → D → Type 0} (m : Action D A) (f : A → Action D B)
      (w : World D)
      → TxPost n d Q (m w)
      → ((a : A) (t : D) (w' : World D) → InTx n d t w' → Q a t → DonePost d R (f a w'))
      → DonePost d R ((m >>= f) w)
  unfolding ◌>>=◌
  bind-DonePost m f w h next = resume_done (m w) f h next

  pub then-DonePost :
      {A B : Type 0} {Q : A → D → Type 0} {R : B → D → Type 0} (m : Action D A) (k : Action D B)
      (w : World D)
      → TxPost n d Q (m w)
      → ((a : A) (t : D) (w' : World D) → InTx n d t w' → Q a t → DonePost d R (k w'))
      → DonePost d R ((m >> k) w)
  unfolding ◌>>◌
  then-DonePost m k w h next = resume_done (m w) (λ _. k) h next

module _ {D : Type 0} {d : D} where
  followed :
      {Q : D → Type 0} {A : Type 0} (a : A) (r : Result (Unit {0}) × World D)
      → DonePost d (λ _. Q) r
      → DonePost d (λ b t. (b ≡ a) × Q t) (elim r.0 [ ok _ ↦ (ok a, r.1) | err e ↦ (err e, r.1) ])
  followed a (ok _, w) h = record { done = (refl, h.done) }
  followed a (err e, w) h = record { done = h.done }

module _ {D : Type 0} {n : ℕ} {d : D} where
  -- COMMIT, and then the value.
  pub commit-pure-DonePost :
      {A : Type 0} {Q : D → Type 0} (a : A) (t : D) (w : World D)
      → InTx n d t w
      → Q t
      → DonePost d (λ b t'. (b ≡ a) × Q t') ((commit >> pure a) w)
  unfolding ◌>>◌ pure
  commit-pure-DonePost {Q = Q} a t w i q =
      followed {Q = Q} a (commit w) (commit-DonePost {Q = Q} t w i q)

module _ {D : Type 0} {d : D} where
  rolled :
      {A : Type 0} {Q : A → D → Type 0} (r : Result A × World D)
      → DonePost d Q r
      → DonePost d Q (elim r.0 [ ok a ↦ (ok a, r.1) | err e ↦ (err e, rollback r.1) ])
  rolled (ok a, w) h = record { done = h.done }
  rolled (err e, w) h = record { done = h.done }

  pub rolling_back-DonePost :
      {A : Type 0} {Q : A → D → Type 0} (m : Action D A) (w : World D)
      → DonePost d Q (m w)
      → DonePost d Q (rolling_back m w)
  unfolding rolling_back
  rolling_back-DonePost m w h = rolled (m w) h

  renamed :
      {A : Type 0} {Q : A → D → Type 0} (r : Result A × World D) (f : Error → Error)
      → DonePost d Q r
      → DonePost d Q (elim r.0 [ ok a ↦ (ok a, r.1) | err e ↦ (err (f e), r.1) ])
  renamed (ok a, w) f h = record { done = h.done }
  renamed (err e, w) f h = record { done = h.done }

  pub or_else-DonePost :
      {A : Type 0} {Q : A → D → Type 0} (m : Action D A) (f : Error → Error) (w : World D)
      → DonePost d Q (m w)
      → DonePost d Q (or_else m f w)
  unfolding or_else
  or_else-DonePost m f w h = renamed (m w) f h

  -- What a transaction that has returned a value has done.
  pub DonePost-ok :
      {A : Type 0} {Q : A → D → Type 0} (r : Result A × World D) (a : A)
      → DonePost d Q r
      → r.0 ≡ ok a
      → Q a r.1.db
  DonePost-ok {Q = Q} (ok b, w) a h e = let same : b ≡ a = cc in subst (λ x. Q x w.db) same h.done
  DonePost-ok (err x, w) a h e = cc

  ended :
      {A : Type 0} {Q : A → D → Type 0} (a : A) (r : Result (Unit {0}) × World D)
      → DonePost d (λ _. Q a) r
      → DonePost d Q (elim r.0 [ ok _ ↦ (ok a, r.1) | err e ↦ (err e, r.1) ])
  ended a (ok _, w) h = record { done = h.done }
  ended a (err e, w) h = record { done = h.done }

module _ {D : Type 0} {n : ℕ} {d : D} where
  -- COMMIT, its error reported as another, and then the value.
  pub finish-DonePost :
      {A : Type 0} {Q : A → D → Type 0} (a : A) (f : Error → Error) (t : D) (w : World D)
      → InTx n d t w
      → Q a t
      → DonePost d Q ((or_else commit f >> pure a) w)
  unfolding ◌>>◌ pure
  finish-DonePost {Q = Q} a f t w i q =
      ended {Q = Q} a (or_else commit f w)
        (or_else-DonePost commit f w (commit-DonePost {Q = Q a} t w i q))

  begun :
      {A : Type 0} {Q : A → D → Type 0} (m : Action D A) (r : Result (Unit {0}) × World D)
      → r.1.db ≡ d
      → r.1.now ≡ n
      → ((w' : World D) → InTx n d d w' → DonePost d Q (m w'))
      → DonePost d Q (((λ _. r) >> open_tx >> m) r.1)
  unfolding open_tx ◌>>◌
  begun m (ok _, w) e k body =
      body (record w { tx = some w.db }) (record { committed = e; sees = ap some e; clock = k })
  begun m (err x, w) e k body = record { done = e }

module _ {D : Type 0} where
  -- A transaction from its beginning, by what its body does.
  pub begin-DonePost :
      {A : Type 0} {Q : A → D → Type 0} (m : Action D A) (w : World D)
      → ((w' : World D) → InTx w.now w.db w.db w' → DonePost w.db Q (m w'))
      → DonePost w.db Q ((begin_tx >> m) w)
  unfolding begin_tx ◌>>◌
  begin-DonePost m w body = begun m (call w) (call-db w) (call-now w) body

  -- A body between BEGIN and COMMIT.
  pub begin_commit-DonePost :
      {Q : D → Type 0} (fn : Action D (Unit {0})) (w : World D)
      → ((w' : World D) → InTx w.now w.db w.db w' → TxPost w.now w.db (λ _. Q) (fn w'))
      → DonePost w.db (λ _. Q) ((begin_tx >> (fn >> commit)) w)
  begin_commit-DonePost {Q} fn w body = begin-DonePost _ w λ w₁ n₁.
      then-DonePost fn commit w₁ (body w₁ n₁) λ _ t w₂ n₂ q. commit-DonePost {Q = Q} t w₂ n₂ q

  -- The same for a body with a value.
  pub begin_finish-DonePost :
      {A : Type 0} {Q : A → D → Type 0} (fn : Action D A) (w : World D)
      → ((w' : World D) → InTx w.now w.db w.db w' → TxPost w.now w.db Q (fn w'))
      → DonePost w.db Q ((begin_tx >> (fn >>= λ a. commit >> pure a)) w)
  unfolding ◌>>◌ pure
  begin_finish-DonePost {Q = Q} fn w body = begin-DonePost _ w λ w₁ n₁.
      bind-DonePost fn _ w₁ (body w₁ n₁)
        λ a t w₂ n₂ q. ended {Q = Q} a (commit w₂) (commit-DonePost {Q = Q a} t w₂ n₂ q)
