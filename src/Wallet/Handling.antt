-- ===== src/Wallet/Handling.antt =====
-- What handling the messages of the auth service does to the wallets
-- (internal/wallet/subscriber/handler.go).
use text.Mathlib.Text.{◌==◌ as str_eq}
use mini_wallet.Base.{ℕ, List, ◌≡◌, refl, sym, subst, ap, any, true, Bool-cases, inl, inr, ◌∙◌}
use mini_wallet.RichError.{as_conflict}
use mini_wallet.Sql.{World, Result, ok, err}
use mini_wallet.Inbox.Table.{Message}
use mini_wallet.Inbox.Handling.{Delivered}
use mini_wallet.Inbox.Keeping.{handle-keeps}
use mini_wallet.Wallet.Tables.{Db, store}
use mini_wallet.Wallet.Service.{init_wallet}
use mini_wallet.Wallet.Subscriber.{
  Envelope, RegisterNewUser, uint64_of, handle, handle_event, handle_register_new_user, registered,
  skip_conflict, register_new_user,
}
use mini_wallet.Wallet.Conservation.{IsValid}
use mini_wallet.Wallet.Opening.{owns, init_wallet_again}
use mini_wallet.Wallet.Owners.{OneEach, init_wallet-IsValid}

skip_conflict-db : (r : Result ℕ × World Db) → (skip_conflict r).1.db ≡ r.1.db
unfolding skip_conflict
skip_conflict-db (ok x, w) = refl
skip_conflict-db (err e, w) = elim (Bool-cases (as_conflict e)) [
  | inl h ↦ rw h refl
  | inr h ↦ rw h refl
]

module _ (unmarshal : List ℕ → Result Envelope) (unmarshal_to : List ℕ → Result RegisterNewUser)
    (wallet_uuid : ℕ) where
  -- What every opening of a wallet keeps, the handling of any event keeps.
  pub handle_event-keeps :
      (P : Db → Type 0)
      → ((user : ℕ) (w : World Db) → P w.db → P (init_wallet wallet_uuid user w).1.db)
      → (ev : Envelope) (w : World Db) → P w.db
      → P (handle_event unmarshal unmarshal_to wallet_uuid ev w).1.db
  unfolding handle_event handle_register_new_user registered
  handle_event-keeps P opens ev w p = elim (Bool-cases (str_eq ev.event_type register_new_user)) [
    | inl here ↦ rw here (go (unmarshal_to ev.payload))
    | inr other ↦ rw other p
  ]
    where
      go : (r : Result RegisterNewUser) → P (registered unmarshal unmarshal_to wallet_uuid r w).1.db
      go (err e) = p
      go (ok reg) =
          subst P (sym (skip_conflict-db (init_wallet wallet_uuid (uint64_of reg.id) w)))
            (opens (uint64_of reg.id) w p)

  -- Handling any message, whichever calls fail and however it decodes, keeps the keys and the books
  -- and gives no user a second wallet in the default currency.
  pub handle-IsValid :
      (msg : Delivered) (w : World Db)
      → IsValid w.db
      → OneEach w.db
      → IsValid (handle unmarshal unmarshal_to wallet_uuid msg w).1.db
        × OneEach (handle unmarshal unmarshal_to wallet_uuid msg w).1.db
  unfolding handle
  handle-IsValid msg w v one =
      handle-keeps store Sound with_messages unmarshal _ msg
        (λ ev u e p.
          handle_event-keeps Sound (λ user u₁ p₁. init_wallet-IsValid wallet_uuid user u₁ p₁.0 p₁.1)
            ev u p)
        w (v, one)
    where
      Sound : Db → Type 0
      Sound d = IsValid d × OneEach d

      with_messages : (d : Db) (ms : List Message) → Sound d → Sound (record d { messages = ms })
      with_messages d ms p = (
        record {
          unique = p.0.unique;
          balanced = p.0.balanced;
          wallets_below = p.0.wallets_below;
          bookings_below = p.0.bookings_below;
        },
        p.1,
      )

  -- Where the user whom a message names, if any, has a wallet already, as where the message is
  -- delivered again, handling it, whichever calls fail, leaves wallets and transactions as they were.
  pub handle_again :
      (msg : Delivered) (w : World Db)
      → ((ev : Envelope) (reg : RegisterNewUser)
          → unmarshal msg.body ≡ ok ev
          → unmarshal_to ev.payload ≡ ok reg
          → any (owns (uint64_of reg.id)) w.db.wallets ≡ true)
      → ((handle unmarshal unmarshal_to wallet_uuid msg w).1.db.wallets ≡ w.db.wallets)
        × ((handle unmarshal unmarshal_to wallet_uuid msg w).1.db.transactions ≡ w.db.transactions)
  unfolding handle handle_event handle_register_new_user registered
  handle_again msg w owned =
      handle-keeps store Before (λ d ms p. p) unmarshal _ msg opens w (refl, refl)
    where
      Before : Db → Type 0
      Before d = (d.wallets ≡ w.db.wallets) × (d.transactions ≡ w.db.transactions)

      same : (d d' : Db) → d' ≡ d → Before d → Before d'
      same d d' e p = subst Before (sym e) p

      registers :
          (ev : Envelope) (u : World Db)
          → unmarshal msg.body ≡ ok ev
          → Before u.db
          → (r : Result RegisterNewUser) → unmarshal_to ev.payload ≡ r
          → Before (registered unmarshal unmarshal_to wallet_uuid r u).1.db
      registers ev u d p (err e) h = p
      registers ev u d p (ok reg) h =
          same _ _
            (skip_conflict-db (init_wallet wallet_uuid (uint64_of reg.id) u)
              ∙ (init_wallet_again wallet_uuid (uint64_of reg.id) u
                  (ap (any (owns (uint64_of reg.id))) p.0 ∙ owned ev reg d h)).0)
            p

      opens :
          (ev : Envelope) (u : World Db)
          → unmarshal msg.body ≡ ok ev
          → Before u.db
          → Before (handle_event unmarshal unmarshal_to wallet_uuid ev u).1.db
      opens ev u d p = elim (Bool-cases (str_eq ev.event_type register_new_user)) [
        | inl here ↦ rw here (registers ev u d p (unmarshal_to ev.payload) refl)
        | inr other ↦ rw other p
      ]
