-- ===== src/Wallet/Ledger.antt =====
-- The wallet service as a ledger: what its requests and messages do to the balances, apart from how
-- its tables keep them (internal/wallet/service/wallet/service.go, internal/wallet/subscriber/handler.go).
use mini_wallet.Base.{ℕ, sym, subst, none, List, [], ◌∷◌, inl, inr}
use mini_wallet.RichError.{Error}
use mini_wallet.Sql.{World, Result, ok, err}
use mini_wallet.Inbox.Table.{Message}
use mini_wallet.Inbox.Handling.{Delivered}
use mini_wallet.Inbox.Keeping.{handle-keeps}
use mini_wallet.Wallet.Tables.{TransferRequest, Db, store}
use mini_wallet.Wallet.Service.{transfer, init_wallet}
use mini_wallet.Wallet.Subscriber.{Envelope, RegisterNewUser, handle}
use mini_wallet.Wallet.Conservation.{IsValid, after_transfer, transfer-IsValid}
use mini_wallet.Wallet.Opening.{opened, InitPost, init_wallet_outcome}
use mini_wallet.Wallet.Owners.{opened-IsValid}
use mini_wallet.Wallet.Handling.{handle_event-keeps}
use mini_wallet.Wallet.Moves.{
  Ledger, Moves, stays, then_move, balances, opened-Move, Transferred-Move,
}

-- The books are valid, and the ledger has come from `l` by moves alone.
abbrev Follows : Ledger → Db → Type 0
Follows l d = IsValid d × Moves l (balances d)

init_wallet-Follows :
    (l : Ledger) (uuid user : ℕ) (w : World Db)
    → Follows l w.db
    → Follows l (init_wallet uuid user w).1.db
init_wallet-Follows l uuid user w h =
    settle (init_wallet uuid user w) (init_wallet_outcome uuid user w)
  where
    inserted : Follows l (opened uuid user w.db)
    inserted = (opened-IsValid uuid user w.db h.0, then_move h.1 (opened-Move uuid user w.db h.0))

    settle : (r : Result ℕ × World Db) → InitPost uuid user w.db r → Follows l r.1.db
    settle (ok x, w') p = subst (Follows l) (sym p.2) inserted
    settle (err e, w') (inl same) = subst (Follows l) (sym same) h
    settle (err e, w') (inr (_, e', _)) = subst (Follows l) (sym e') inserted

transfer-Follows :
    (l : Ledger) (op o i user : ℕ) (req : TransferRequest) (w : World Db)
    → Follows l w.db
    → Follows l (transfer op o i user req w).1.db
transfer-Follows l op o i user req w h = (
  transfer-IsValid op o i user req w h.0,
  after_transfer (λ d. Moves l (balances d)) op o i user req w h.1
      (λ d' s. then_move h.1 (Transferred-Move s)),
)

-- What the service is asked to do: a transfer, with the ids that are drawn for it and the user who
-- asks, or a message to handle, with the UUID drawn.
pub data Task : Type 0 where
  transfers : (op out_reference in_reference user : ℕ) → TransferRequest → Task
  receives : (wallet_uuid : ℕ) → Delivered → Task

-- One task after the other, each at its own time and with its own faults.
pub record Turn : Type 0 where
  pub task : Task
  pub at : ℕ
  pub faults : List Error

module _ (unmarshal : List ℕ → Result Envelope)
    (unmarshal_to : List ℕ → Result RegisterNewUser) where
  abbrev carry_out : Task → World Db → World Db
  carry_out (transfers op o i user req) w = (transfer op o i user req w).1
  carry_out (receives uuid msg) w = (handle unmarshal unmarshal_to uuid msg w).1

  abbrev take_turn : Turn → Db → Db
  take_turn t d =
      (carry_out t.task (record { db = d; tx = none; faults = t.faults; now = t.at })).db

  unfoldable pub serve : List Turn → Db → Db
  serve [] d = d
  serve (t ∷ ts) d = serve ts (take_turn t d)

  carry_out-Follows :
      (l : Ledger) (t : Task) (w : World Db) → Follows l w.db → Follows l (carry_out t w).db
  unfolding handle
  carry_out-Follows l (transfers op o i user req) w h = transfer-Follows l op o i user req w h
  carry_out-Follows l (receives uuid msg) w h =
      handle-keeps store (Follows l) with_messages unmarshal _ msg
        (λ ev u e p.
          handle_event-keeps unmarshal unmarshal_to uuid (Follows l)
            (λ user u₁ p₁. init_wallet-Follows l uuid user u₁ p₁) ev u p)
        w h
    where
      with_messages :
          (d : Db) (ms : List Message) → Follows l d → Follows l (record d { messages = ms })
      with_messages d ms p = (
        record {
          unique = p.0.unique;
          balanced = p.0.balanced;
          wallets_below = p.0.wallets_below;
          bookings_below = p.0.bookings_below;
        },
        p.1,
      )

  serve-Follows : (ts : List Turn) (l : Ledger) (d : Db) → Follows l d → Follows l (serve ts d)
  unfolding serve
  serve-Follows [] l d h = h
  serve-Follows (t ∷ ts) l d h = serve-Follows ts l (take_turn t d) (carry_out-Follows l t.task _ h)

  -- The wallet service does to its balances what a ledger allows: whatever it serves, one request or
  -- message after the other, and whichever calls fail, the balances change only by opening an empty
  -- wallet where there was none, and by payments from a wallet to a wallet, each of an amount, which
  -- may be negative, that the source has; and the books stay valid.
  pub serve_refines :
      (ts : List Turn) (d : Db)
      → IsValid d
      → IsValid (serve ts d) × Moves (balances d) (balances (serve ts d))
  serve_refines ts d v = serve-Follows ts (balances d) d (v, stays)
