-- ===== src/Auth/Credentials.antt =====
-- `Login` and `maskEmail` (internal/auth/service/auth/service.go): who is let in, and what a log
-- shows of an email.
use mini_wallet.Base.{
  ℕ, List, [], ◌∷◌, ◌++◌, String, Bool, true, false, ◌==◌, ◌≡◌, refl, sym, ap, ◌∙◌, subst, any,
  length, take,
}
use mini_wallet.Base.Bytes.{split, split-one, split-append}
use mini_wallet.RichError.{Error}
use mini_wallet.Sql.{
  World, Result, ok, err, Action, ◌>>=◌, ◌>>◌, pure, or_else, raise_if, at_now, returned,
}
use mini_wallet.Sql.Calls.{Post, exec-Post}
use mini_wallet.Outbox.Table.{OutboxEvent}
use mini_wallet.Auth.Tables.{DeviceContext, User, Db}
use mini_wallet.Auth.Repository.Statements.{select_user}
use mini_wallet.Auth.Repository.Users.{get_user_by_email, run_in_tx}
use mini_wallet.Auth.Service.Requests.{
  Config, Library, Drawn, LoginRequest, LoginResponse, Response, mask_email, masked,
}
use mini_wallet.Auth.Service.Login.{login, login_body}

-- What holds of the value of an action where it returns one.
abbrev Holds : {A : Type 0} → (A → Type 0) → Result A × World Db → Type 0
Holds P (ok a, w) = P a
Holds P (err e, w) = Unit

record Gives {A : Type 0} (P : A → Type 0) (r : Result A × World Db) : Type 0 where
  holds : Holds P r

any-Gives : {A : Type 0} (r : Result A × World Db) → Gives (λ _. Unit {0}) r
any-Gives (ok b, w') = record { holds = tt }
any-Gives (err e, w') = record { holds = tt }

module _ {A : Type 0} {P : A → Type 0} where
  bind-Gives :
      {B : Type 0} {Q : B → Type 0} (m : Action Db B) (f : B → Action Db A) (w : World Db)
      → Gives Q (m w)
      → ((b : B) (w' : World Db) → Q b → Gives P (f b w'))
      → Gives P ((m >>= f) w)
  unfolding ◌>>=◌
  bind-Gives {B} {Q} m f w h next = resume (m w) h
    where
      resume :
          (r : Result B × World Db)
          → Gives Q r
          → Gives P (elim r.0 [ ok b ↦ f b r.1 | err e ↦ (err e, r.1) ])
      resume (ok b, w') k = next b w' k.holds
      resume (err e, w') k = record { holds = tt }

  checked-Gives :
      {B : Type 0} {Q : B → Type 0} (m : Action Db B) (k : Action Db A) (w : World Db)
      → Gives Q (m w)
      → ((b : B) (w' : World Db) → Q b → Gives P (k w'))
      → Gives P ((m >> k) w)
  unfolding ◌>>◌
  checked-Gives m k w h next = bind-Gives m (λ _. k) w h next

  then-Gives :
      {B : Type 0} (m : Action Db B) (k : Action Db A) (w : World Db)
      → ((w' : World Db) → Gives P (k w'))
      → Gives P ((m >> k) w)
  unfolding ◌>>◌
  then-Gives {B} m k w next =
      bind-Gives {Q = λ _. Unit} m (λ _. k) w (any-Gives (m w)) (λ _ w' _. next w')

  or_else-Gives :
      (m : Action Db A) (f : Error → Error) (w : World Db) → Gives P (m w) → Gives P (or_else m f w)
  unfolding or_else
  or_else-Gives m f w h = renamed (m w) h
    where
      renamed :
          (r : Result A × World Db)
          → Gives P r
          → Gives P (elim r.0 [ ok a ↦ (ok a, r.1) | err e ↦ (err (f e), r.1) ])
      renamed (ok a, w') k = record { holds = k.holds }
      renamed (err e, w') k = record { holds = tt }

  pure-Gives : (a : A) (w : World Db) → P a → Gives P (pure a w)
  unfolding pure
  pure-Gives a w p = record { holds = p }

  raise_if-Gives :
      (test : Bool) (e : Error) (k : Action Db A) (w : World Db)
      → Gives P (k w)
      → Gives P ((raise_if test e >> k) w)
  unfolding raise_if ◌>>◌
  raise_if-Gives true e k w h = record { holds = tt }
  raise_if-Gives false e k w h = h

returned-Gives : {A : Type 0} (r : Result A) (w : World Db) → Gives (λ a. r ≡ ok a) (returned r w)
unfolding returned
returned-Gives (ok a) w = record { holds = refl }
returned-Gives (err e) w = record { holds = tt }

get_user_by_email-Gives :
    (email : String) (w : World Db)
    → Gives (λ u. select_user email w.db ≡ ok u) (get_user_by_email email w)
unfolding get_user_by_email
get_user_by_email-Gives email w =
    or_else-Gives _ _ w (asked _ (exec-Post (λ d. (select_user email d, d)) w))
  where
    asked :
        {E : Error → World Db → Type 0} (r : Result User × World Db)
        → Post
            (λ u w'.
              ◌≡◌ {A = Result User × Db} (select_user email w.db, w.db) (ok u, w'.db)
              × (w'.tx ≡ w.tx)
              × (w'.now ≡ w.now))
            E
            r
        → Gives (λ u. select_user email w.db ≡ ok u) r
    asked (ok u, w') h = record { holds = ap (λ x. x.0) h.holds.0 }
    asked (err e, w') h = record { holds = tt }

module _ (lib : Library) (config : Config) (drawn : Drawn) (ctx : DeviceContext)
    (req : LoginRequest) where
  login_body-Gives :
      (user : User) (w : World Db)
      → Gives (λ out. out.0.user ≡ user) (login_body lib config drawn ctx req user w)
  unfolding login_body at_now
  login_body-Gives user w = bind-Gives _ _ w (any-Gives _) λ token w₁ _.
      bind-Gives _ _ w₁ (any-Gives _) λ stored w₂ _. bind-Gives _ _ w₂ (any-Gives _) λ access w₃ _.
        bind-Gives _ _ w₃ (any-Gives _) λ envelope w₄ _.
          bind-Gives _ _ w₄ (any-Gives _) λ body w₅ _. then-Gives _ _ w₅ λ w₆. pure-Gives _ w₆ refl

  run_in_tx-Gives :
      {A : Type 0} {P : A → Type 0} (fn : Action Db A) (w : World Db)
      → ((w' : World Db) → Gives P (fn w'))
      → Gives P (run_in_tx fn w)
  unfolding run_in_tx
  run_in_tx-Gives fn w h =
      then-Gives _ _ w
        λ w₁. bind-Gives fn _ w₁ (h w₁) λ a w₂ p. then-Gives _ _ w₂ λ w₃. pure-Gives a w₃ p

  -- Whichever calls fail, a login that succeeds is answered 200 with the user whose email the request
  -- has, and the hash of that user's password was compared with the request's password and matched.
  pub login_checks :
      (w : World Db) (out : Response LoginResponse × OutboxEvent)
      → (login lib config drawn ctx req w).0 ≡ ok out
      → (out.0.code ≡ 200)
        × (select_user req.email w.db ≡ ok out.0.body.user)
        × (lib.compare_hash_and_password out.0.body.user.password_hash req.password ≡ ok tt)
  unfolding login
  login_checks w out e =
      settle (login lib config drawn ctx req w)
        (raise_if-Gives _ _ _ w (
          bind-Gives _ _ w (or_else-Gives _ _ w (get_user_by_email-Gives req.email w))
            λ user w₁ found.
              checked-Gives _ _ w₁
                (or_else-Gives _ _ w₁ (
                  returned-Gives (lib.compare_hash_and_password user.password_hash req.password)
                    w₁))
                λ u w₂ matched.
                  bind-Gives _ _ w₂
                    (or_else-Gives _ _ w₂ (run_in_tx-Gives _ w₂ (login_body-Gives user)))
                    λ made w₃ same. pure-Gives _ w₃ (
                      refl,
                      subst (λ x. select_user req.email w.db ≡ ok x) (sym same) found,
                      subst
                          (λ x. lib.compare_hash_and_password x.password_hash req.password ≡ ok tt)
                          (sym same) matched,
                    )))
        e
    where
      Checked : Response LoginResponse × OutboxEvent → Type 0
      Checked x =
          (x.0.code ≡ 200)
          × (select_user req.email w.db ≡ ok x.0.body.user)
          × (lib.compare_hash_and_password x.0.body.user.password_hash req.password ≡ ok tt)

      settle :
          (r : Result (Response LoginResponse × OutboxEvent) × World Db)
          → Gives Checked r
          → r.0 ≡ ok out
          → Checked out
      settle (ok x, w') h k = let same : x ≡ out = cc in subst Checked same h.holds
      settle (err x, w') h k = cc

-- The mask of an email shows no more of its local part than the first two bytes and the length: two
-- emails of one domain that agree in these have the same mask.
mask_email_hides :
    (local local' domain : List ℕ)
    → any (λ b. b == 64) local ≡ false
    → any (λ b. b == 64) local' ≡ false
    → any (λ b. b == 64) domain ≡ false
    → length local ≡ length local'
    → take 2 local ≡ take 2 local'
    → mask_email (local ++ 64 ∷ domain) ≡ mask_email (local' ++ 64 ∷ domain)
unfolding mask_email
mask_email_hides local local' domain one one' none_in same start =
    ap masked (parts local one) ∙ rw (same, start) refl ∙ sym (ap masked (parts local' one'))
  where
    parts :
        (l : List ℕ) → any (λ b. b == 64) l ≡ false → split 64 (l ++ 64 ∷ domain) ≡ l ∷ domain ∷ []
    parts l h = split-append 64 l domain h ∙ ap (λ ps. l ∷ ps) (split-one 64 domain none_in)
