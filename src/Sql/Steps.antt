-- ===== src/Sql/Steps.antt =====
-- The equations by which an action whose calls go through is followed step by step.
use mini_wallet.Base.{some, none, [], ℕ, Bool, false, ◌≡◌, refl, ap}
use mini_wallet.RichError.{Error}
use mini_wallet.Sql.{
  World, Result, ok, err, Action, ◌>>=◌, ◌>>◌, rolling_back, or_else, look_up, or_no_rows, rollback,
  sql, in_open_tx, begin_tx, open_tx, commit, commit_result, raise_if, tx_exec, returned,
}

module _ {D A : Type 0} where
  pub bind_ok :
      {B : Type 0} (m : Action D A) (f : A → Action D B) {w w' : World D} {a : A}
      → m w ≡ (ok a, w')
      → (m >>= f) w ≡ f a w'
  unfolding ◌>>=◌
  bind_ok m f e = ap (λ r. elim r.0 [ ok a ↦ f a r.1 | err x ↦ (err x, r.1) ]) e

  pub then_ok :
      {B : Type 0} (m : Action D A) (k : Action D B) {w w' : World D} {a : A}
      → m w ≡ (ok a, w')
      → (m >> k) w ≡ k w'
  unfolding ◌>>◌
  then_ok m k e = bind_ok m (λ _. k) e

  pub or_else_ok :
      (m : Action D A) (f : Error → Error) {w w' : World D} {a : A}
      → m w ≡ (ok a, w')
      → or_else m f w ≡ (ok a, w')
  unfolding or_else
  or_else_ok m f e = ap (λ r. elim r.0 [ ok a ↦ (ok a, r.1) | err x ↦ (err (f x), r.1) ]) e

  pub rolling_back_ok :
      (m : Action D A) {w w' : World D} {a : A} → m w ≡ (ok a, w') → rolling_back m w ≡ (ok a, w')
  unfolding rolling_back
  rolling_back_ok m e = ap (λ r. elim r.0 [ ok a ↦ (ok a, r.1) | err x ↦ (err x, rollback r.1) ]) e

  pub look_up_ok :
      (f : D → Result A) (d t : D) (now : ℕ) {a : A}
      → f t ≡ ok a
      → look_up f (record { db = d; tx = some t; faults = []; now = now })
        ≡ (ok (some a), record { db = d; tx = some t; faults = []; now = now })
  unfolding sql in_open_tx
  look_up_ok f d t now e =
      ap (λ r. or_no_rows (r, record { db = d; tx = some t; faults = []; now = now })) e

  pub tx_exec_ok :
      (f : D → Result A × D) (d t : D) (now : ℕ) {a : A} {t' : D}
      → f t ≡ (ok a, t')
      → tx_exec f (record { db = d; tx = some t; faults = []; now = now })
        ≡ (ok a, record { db = d; tx = some t'; faults = []; now = now })
  unfolding sql in_open_tx
  tx_exec_ok f d t now e =
      ap (λ r. (r.0, record { db = d; tx = some r.1; faults = []; now = now })) e

  pub returned_ok : (r : Result A) (w : World D) {a : A} → r ≡ ok a → returned r w ≡ (ok a, w)
  unfolding returned
  returned_ok r w e = ap (λ x. (x, w)) e

module _ {D : Type 0} where
  pub raise_if_ok :
      (test : Bool) (e : Error) (w : World D) → test ≡ false → raise_if test e w ≡ (ok tt, w)
  unfolding raise_if
  raise_if_ok test e w h = ap (λ b. raise_if b e w) h

  pub begin_tx_ok :
      (d : D) (now : ℕ)
      → begin_tx (record { db = d; tx = none; faults = []; now = now })
        ≡ (ok tt, record { db = d; tx = some d; faults = []; now = now })
  unfolding sql open_tx
  begin_tx_ok d now = refl

  pub commit_ok :
      (d t : D) (now : ℕ)
      → commit (record { db = d; tx = some t; faults = []; now = now })
        ≡ (ok tt, record { db = t; tx = none; faults = []; now = now })
  unfolding sql commit_result
  commit_ok d t now = refl
