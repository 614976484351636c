-- ===== src/Sql/Calls.antt =====
-- Rules for actions that run their statements outside a transaction, one for each construct of
-- `Sql`: `Q` of the value and of the world where the action returns one, `E` of the error and of
-- the world where it fails.
use mini_wallet.Base.{Bool, true, false, ◌≡◌, refl, ap, sym, subst, Bool-cases, inl, inr, ◌⊎◌, ◌∙◌}
use mini_wallet.RichError.{Error}
use mini_wallet.Sql.{
  World, Result, ok, err, Action, ◌>>=◌, ◌>>◌, pure, call, exec, autocommit, is_nil, first_fault,
  or_else, raise_if,
}

module _ {D : Type 0} where
  abbrev Holds :
      {A : Type 0}
      → (A → World D → Type 0)
      → (Error → World D → Type 0)
      → Result A × World D
      → Type 0
  Holds Q E (ok a, w) = Q a w
  Holds Q E (err e, w) = E e w

  pub record Post {A : Type 0} (Q : A → World D → Type 0) (E : Error → World D → Type 0)
      (r : Result A × World D) : Type 0 where
    pub holds : Holds Q E r

  -- Only the list of faults has moved on.
  pub record Same (w w' : World D) : Type 0 where
    pub db : w'.db ≡ w.db
    pub tx : w'.tx ≡ w.tx
    pub now : w'.now ≡ w.now

module _ {D : Type 0} where
  resume :
      {A B : Type 0} {Q : A → World D → Type 0} {R : B → World D → Type 0}
      {E F : Error → World D → Type 0} (r : Result A × World D) (f : A → Action D B)
      → Post Q F r
      → ((e : Error) (w : World D) → F e w → E e w)
      → ((a : A) (w : World D) → Q a w → Post R E (f a w))
      → Post R E (elim r.0 [ ok a ↦ f a r.1 | err e ↦ (err e, r.1) ])
  resume (ok a, w) f h fails next = next a w h.holds
  resume (err e, w) f h fails next = record { holds = fails e w h.holds }

  pub bind-Post :
      {A B : Type 0} {Q : A → World D → Type 0} {R : B → World D → Type 0}
      {E F : Error → World D → Type 0} (m : Action D A) (f : A → Action D B) (w : World D)
      → Post Q F (m w)
      → ((e : Error) (w' : World D) → F e w' → E e w')
      → ((a : A) (w' : World D) → Q a w' → Post R E (f a w'))
      → Post R E ((m >>= f) w)
  unfolding ◌>>=◌
  bind-Post m f w h fails next = resume (m w) f h fails next

  pub then-Post :
      {A B : Type 0} {Q : A → World D → Type 0} {R : B → World D → Type 0}
      {E F : Error → World D → Type 0} (m : Action D A) (k : Action D B) (w : World D)
      → Post Q F (m w)
      → ((e : Error) (w' : World D) → F e w' → E e w')
      → ((a : A) (w' : World D) → Q a w' → Post R E (k w'))
      → Post R E ((m >> k) w)
  unfolding ◌>>◌
  then-Post m k w h fails next = resume (m w) (λ _. k) h fails next

  renamed :
      {A : Type 0} {Q : A → World D → Type 0} {E F : Error → World D → Type 0}
      (r : Result A × World D) (f : Error → Error)
      → Post Q F r
      → ((e : Error) (w : World D) → F e w → E (f e) w)
      → Post Q E (elim r.0 [ ok a ↦ (ok a, r.1) | err e ↦ (err (f e), r.1) ])
  renamed (ok a, w) f h fails = record { holds = h.holds }
  renamed (err e, w) f h fails = record { holds = fails e w h.holds }

  pub or_else-Post :
      {A : Type 0} {Q : A → World D → Type 0} {E F : Error → World D → Type 0} (m : Action D A)
      (f : Error → Error) (w : World D)
      → Post Q F (m w)
      → ((e : Error) (w' : World D) → F e w' → E (f e) w')
      → Post Q E (or_else m f w)
  unfolding or_else
  or_else-Post m f w h fails = renamed (m w) f h fails

  pub pure-Post :
      {A : Type 0} {Q : A → World D → Type 0} {E : Error → World D → Type 0} (a : A) (w : World D)
      → Q a w
      → Post Q E (pure a w)
  unfolding pure
  pure-Post a w q = record { holds = q }

  pub weaker-Post :
      {A : Type 0} {Q R : A → World D → Type 0} {E F : Error → World D → Type 0}
      (r : Result A × World D)
      → Post Q E r
      → ((a : A) (w : World D) → Q a w → R a w)
      → ((e : Error) (w : World D) → E e w → F e w)
      → Post R F r
  weaker-Post (ok a, w) h use_q use_e = record { holds = use_q a w h.holds }
  weaker-Post (err e, w) h use_q use_e = record { holds = use_e e w h.holds }

  -- Past a check the test was false.
  pub raise_if-Post :
      {Q : Unit {0} → World D → Type 0} {E : Error → World D → Type 0} (test : Bool) (e : Error)
      (w : World D)
      → (test ≡ true → E e w)
      → (test ≡ false → Q tt w)
      → Post Q E (raise_if test e w)
  unfolding raise_if
  raise_if-Post true e w fails next = record { holds = fails refl }
  raise_if-Post false e w fails next = record { holds = next refl }

  -- A call goes through, or reports an error that is not nil.
  pub call-Post :
      (w : World D) → Post (λ _. Same w) (λ e w'. Same w w' × (is_nil e ≡ false)) (call w)
  unfolding call
  call-Post w = elim (Bool-cases (is_nil (first_fault w.faults))) [
    | inl fine ↦ record { holds = rw fine (record { db = refl; tx = refl; now = refl }) }
    | inr fails ↦ record { holds = rw fails (record { db = refl; tx = refl; now = refl }, fails) }
  ]

  ran :
      {A : Type 0} (f : D → Result A × D) (w w₁ : World D)
      → Same w w₁
      → (r : Result A × D) → f w₁.db ≡ r
      → Post
          (λ a w'. (f w.db ≡ (ok a, w'.db)) × (w'.tx ≡ w.tx) × (w'.now ≡ w.now))
          (λ e w'. ((w'.db ≡ w.db) × (is_nil e ≡ false)) ⊎ (f w.db ≡ (err e, w'.db)))
          (r.0, record w₁ { db = r.1 })
  ran f w w₁ same (ok a, d) e = record { holds = (ap f (sym same.db) ∙ e, same.tx, same.now) }
  ran f w w₁ same (err x, d) e = record { holds = inr (ap f (sym same.db) ∙ e) }

  -- A statement runs, or its call reports an error and nothing has changed.
  pub exec-Post :
      {A : Type 0} (f : D → Result A × D) (w : World D)
      → Post
          (λ a w'. (f w.db ≡ (ok a, w'.db)) × (w'.tx ≡ w.tx) × (w'.now ≡ w.now))
          (λ e w'. ((w'.db ≡ w.db) × (is_nil e ≡ false)) ⊎ (f w.db ≡ (err e, w'.db)))
          (exec f w)
  unfolding exec
  exec-Post f w =
      then-Post call (autocommit f) w (call-Post w) (λ e w' h. inl (h.0.db, h.1))
        λ _ w' same. ran f w w' same (f w'.db) refl

  -- What holds of the tables before a statement and of what the statement makes of them holds after
  -- it, whether or not its call went through.
  pub exec-db :
      {A : Type 0} (P : D → Type 0) (f : D → Result A × D) (w : World D)
      → P w.db
      → P (f w.db).1
      → P (exec f w).1.db
  exec-db {A} P f w before after = ran_or_not (exec f w) (exec-Post f w)
    where
      ran_or_not :
          (r : Result A × World D)
          → Post
              (λ a w'. (f w.db ≡ (ok a, w'.db)) × (w'.tx ≡ w.tx) × (w'.now ≡ w.now))
              (λ e w'. ((w'.db ≡ w.db) × (is_nil e ≡ false)) ⊎ (f w.db ≡ (err e, w'.db)))
              r
          → P r.1.db
      ran_or_not (ok a, w') h = subst P (ap (λ x. x.1) h.holds.0) after
      ran_or_not (err e, w') h = elim h.holds [
        | inl same ↦ subst P (sym same.0) before
        | inr made ↦ subst P (ap (λ x. x.1) made) after
      ]

  renamed_db :
      {A : Type 0} (P : D → Type 0) (r : Result A × World D) (f : Error → Error)
      → P r.1.db
      → P (
          (elim r.0 as (λ _. Result A × World D) [
            | ok a ↦ (ok a, r.1)
            | err e ↦ (err (f e), r.1)
          ]).1.db)
  renamed_db P (ok a, w) f p = p
  renamed_db P (err e, w) f p = p

  pub or_else-db :
      {A : Type 0} (P : D → Type 0) (m : Action D A) (f : Error → Error) (w : World D)
      → P (m w).1.db
      → P (or_else m f w).1.db
  unfolding or_else
  or_else-db P m f w p = renamed_db P (m w) f p

  pub bind-db :
      {A B : Type 0} (P : D → Type 0) (m : Action D A) (f : A → Action D B) (w : World D)
      → P (m w).1.db
      → ((a : A) (w' : World D) → P w'.db → P (f a w').1.db)
      → P ((m >>= f) w).1.db
  unfolding ◌>>=◌
  bind-db {A} {B} P m f w p next = resumed (m w) p
    where
      resumed :
          (r : Result A × World D)
          → P r.1.db
          → P (elim r.0 as (λ _. Result B × World D) [ ok a ↦ f a r.1 | err e ↦ (err e, r.1) ]).1.db
      resumed (ok a, w') q = next a w' q
      resumed (err e, w') q = q

  pub then-db :
      {A B : Type 0} (P : D → Type 0) (m : Action D A) (k : Action D B) (w : World D)
      → P (m w).1.db
      → ((w' : World D) → P w'.db → P (k w').1.db)
      → P ((m >> k) w).1.db
  unfolding ◌>>◌
  then-db P m k w p next = bind-db P m (λ _. k) w p (λ _. next)

  pub call-db : (P : D → Type 0) (w : World D) → P w.db → P (call w).1.db
  call-db P w p = stayed (call w) (call-Post w)
    where
      stayed :
          (r : Result (Unit {0}) × World D)
          → Post (λ _. Same w) (λ e w'. Same w w' × (is_nil e ≡ false)) r
          → P r.1.db
      stayed (ok a, w') q = subst P (sym q.holds.db) p
      stayed (err e, w') q = subst P (sym q.holds.0.db) p
