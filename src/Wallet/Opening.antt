-- ===== src/Wallet/Opening.antt =====
-- `InitWallet` and `CreateWallet` (internal/wallet/service/wallet/service.go,
-- internal/wallet/repository/wallet.go): one wallet a user, opened empty.
use text.Mathlib.Text.{◌==◌ as str_eq}
use mini_wallet.Base.{
  ℕ, suc, ◌==◌, ◌≡◌, refl, Bool, true, false, List, [], ◌∷◌, ◌++◌, arith, any, inl, inr, Bool-cases,
  if◌then◌else◌, ◌≢◌, ◌&&◌, ◌⊎◌,
}
use mini_wallet.Base.Int.{pos}
use mini_wallet.RichError.{Error, as_conflict, mysql_error, report_new, conflict, report, internal}
use mini_wallet.Sql.{World, Result, ok, err, is_nil}
use mini_wallet.Sql.Calls.{
  Post, bind-Post, then-Post, or_else-Post, pure-Post, call-Post, exec-Post,
}
use mini_wallet.Wallet.Tables.{Wallet, CreateWalletRequest, Db}
use mini_wallet.Wallet.Repository.{create_wallet, insert_wallet, clashes}
use mini_wallet.Wallet.Service.{init_wallet, default_currency}

abbrev pub opening : ℕ → ℕ → CreateWalletRequest
opening uuid user = record {
  user_id = user;
  uuid = uuid;
  balance = pos 0;
  currency = default_currency;
}

abbrev pub opened : ℕ → ℕ → Db → Db
opened uuid user d = record d {
  wallets =
      d.wallets
      ++ record {
        id = d.next_wallet;
        uuid = uuid;
        user_id = user;
        balance = pos 0;
        currency = default_currency;
      }
        ∷ [];
  next_wallet = suc d.next_wallet;
}

insert_wallet-cases :
    (uuid user : ℕ) (d : Db)
    → ((any (clashes (opening uuid user)) d.wallets ≡ true)
        × (insert_wallet (opening uuid user) d ≡ (err (mysql_error 1062 "Duplicate entry"), d)))
      ⊎ ((any (clashes (opening uuid user)) d.wallets ≡ false)
          × (insert_wallet (opening uuid user) d ≡ (ok d.next_wallet, opened uuid user d)))
unfolding insert_wallet
insert_wallet-cases uuid user d = elim (Bool-cases (any (clashes (opening uuid user)) d.wallets)) [
  | inl h ↦ inl (h, rw h refl)
  | inr h ↦ inr (h, rw h refl)
]

-- What opening a wallet has done when it ends. An error may come after the row was inserted, from
-- `LastInsertId`; a conflict never does.
abbrev pub InitPost : ℕ → ℕ → Db → Result ℕ × World Db → Type 0
InitPost uuid user d (ok x, w) =
    (x ≡ uuid) × (any (clashes (opening uuid user)) d.wallets ≡ false) × (w.db ≡ opened uuid user d)
InitPost uuid user d (err e, w) =
    (w.db ≡ d)
    ⊎ ((any (clashes (opening uuid user)) d.wallets ≡ false)
        × (w.db ≡ opened uuid user d)
        × (as_conflict e ≡ false))

create_wallet-Post :
    (uuid user : ℕ) (w : World Db)
    → Post
        (λ _ w'. InitPost uuid user w.db (ok uuid, w'))
        (λ e w'. InitPost uuid user w.db (err e, w'))
        (create_wallet (opening uuid user) w)
unfolding create_wallet
create_wallet-Post uuid user w =
    bind-Post _ _ w (or_else-Post _ _ w (exec-Post _ w) (λ e w' h. inl (not_inserted e w' h)))
      (λ e w' h. h)
      λ id w₁ h₁.
        then-Post _ _ w₁
          (or_else-Post _ _ w₁ (call-Post w₁) (λ e w' h. inr (
            ground (arith, insert_wallet-cases uuid user w.db),
            ground (arith, h.0.db, insert_wallet-cases uuid user w.db),
            refl,
          )))
          (λ e w' h. h)
          λ _ w₂ h₂. pure-Post id w₂ (
            refl,
            ground (arith, insert_wallet-cases uuid user w.db),
            ground (arith, h₂.db, insert_wallet-cases uuid user w.db),
          )
  where
    not_inserted :
        (e : Error) (w' : World Db)
        → ((w'.db ≡ w.db) × (is_nil e ≡ false))
          ⊎ (insert_wallet (opening uuid user) w.db ≡ (err e, w'.db))
        → w'.db ≡ w.db
    not_inserted e w' h = ground (arith, insert_wallet-cases uuid user w.db)

-- Opening a wallet, whichever calls fail, inserts the one empty wallet of the request, where no row
-- clashes with it, or leaves the tables as they were; it returns the UUID only after inserting, and
-- reports a conflict only after inserting nothing.
pub init_wallet_outcome :
    (uuid user : ℕ) (w : World Db) → InitPost uuid user w.db (init_wallet uuid user w)
unfolding init_wallet
init_wallet_outcome uuid user w = conclude (init_wallet uuid user w) post
  where
    not_conflict :
        (e : Error) (w' : World Db)
        → InitPost uuid user w.db (err e, w')
        → InitPost uuid user w.db (
          err (
              if as_conflict e
              then report_new "Service.InitWallet" "wallet already exists" conflict
              else report "Service.InitWallet" e "wallet creation failed" internal),
          w',
        )
    not_conflict e w' (inl same) = inl same
    not_conflict e w' (inr (a, b, k)) = inr (a, b, ground arith)

    post :
        Post
          (λ x w'. InitPost uuid user w.db (ok x, w'))
          (λ e w'. InitPost uuid user w.db (err e, w'))
          (init_wallet uuid user w)
    post =
        then-Post _ _ w
          (or_else-Post _ _ w (create_wallet-Post uuid user w) λ e w' h. not_conflict e w' h)
          (λ e w' h. h) λ _ w₁ h₁. pure-Post uuid w₁ h₁

    conclude :
        (r : Result ℕ × World Db)
        → Post
            (λ x w'. InitPost uuid user w.db (ok x, w'))
            (λ e w'. InitPost uuid user w.db (err e, w'))
            r
        → InitPost uuid user w.db r
    conclude (ok x, w') h = h.holds
    conclude (err e, w') h = h.holds

-- A wallet of the user in the default currency.
abbrev pub owns : ℕ → Wallet → Bool
owns user r = r.user_id == user && str_eq r.currency default_currency

clashes_of_owns :
    (uuid user : ℕ) (rs : List Wallet)
    → any (owns user) rs ≡ true
    → any (clashes (opening uuid user)) rs ≡ true
clashes_of_owns uuid user [] h = h
clashes_of_owns uuid user (r ∷ rs) h = ground (arith, clashes_of_owns uuid user rs)

-- A user who has a wallet gets no second one, whatever the new UUID and whichever calls fail: the
-- tables stay as they were and no UUID is returned.
pub init_wallet_again :
    (uuid user : ℕ) (w : World Db)
    → any (owns user) w.db.wallets ≡ true
    → ((init_wallet uuid user w).1.db ≡ w.db) × ((x : ℕ) → (init_wallet uuid user w).0 ≢ ok x)
init_wallet_again uuid user w h =
    settle (init_wallet uuid user w) (init_wallet_outcome uuid user w)
      (clashes_of_owns uuid user w.db.wallets h)
  where
    settle :
        (r : Result ℕ × World Db)
        → InitPost uuid user w.db r
        → any (clashes (opening uuid user)) w.db.wallets ≡ true
        → (r.1.db ≡ w.db) × ((x : ℕ) → r.0 ≢ ok x)
    settle (ok x, w') p c = cc
    settle (err e, w') p c = (ground arith, λ x q. cc)
