-- ===== src/Inbox/Failing.antt =====
-- What `Handle` answers and leaves, by what the handling of the event returned (internal/wallet/subscriber/handler.go,
-- internal/notification/subscriber/handler.go).
use mini_wallet.Base.{ℕ, ◌==◌, List, [], some, ◌≡◌, refl, sym, subst, ap, ◌∙◌, update}
use mini_wallet.RichError.{Error, nil}
use mini_wallet.Sql.{World, Result, ok, err, Action, sql, autocommit}
use mini_wallet.Inbox.Table.{Message, failed, completed, Store}
use mini_wallet.Inbox.Repository
use mini_wallet.Inbox.Service
use mini_wallet.Inbox.Handling.{Delivered, handle, started, decoded, settle}

-- The message marked by what the handling of its event returned, and the others as they are.
abbrev pub marked : ℕ → ℕ → Result (Unit {0}) → List Message → List Message
marked id now (err e) = update (λ m. m.message_id == id) (λ m. record m { status = failed })
marked id now (ok _) =
    update (λ m. m.message_id == id) (λ m. record m { status = completed; completed_at = some now })

module _ {D : Type 0} (s : Store D) where
  open s use {rows, with_rows}

  module _ {Envelope : Type 0} (unmarshal : List ℕ → Result Envelope)
      (handle_event : Envelope → Action D (Unit {0})) where
    -- The answer, and the tables that are left.
    abbrev Ends : ℕ → Result (Unit {0}) → World D → Error × World D → Type 0
    Ends id r w q = (q.0 ≡ nil) × (q.1.db ≡ with_rows w.db (marked id w.now r (rows w.db)))

    settle-Ends :
        (id : ℕ) (r : Result (Unit {0})) (w : World D)
        → w.faults ≡ []
        → Ends id r w (settle s unmarshal handle_event id (r, w))
    unfolding settle Service.mark_failed Repository.mark_failed Repository.fail Service.mark_sent
        Repository.mark_sent Repository.complete sql autocommit
    settle-Ends id (err e) w calm = rw calm (refl, refl)
    settle-Ends id (ok _) w calm = rw calm (refl, refl)

    -- Where the message was recorded and its event was read, and no call after the handling of the
    -- event fails, `Handle` returns nil whether the handling failed or not. Only the row of the
    -- message tells: it is failed, or it is completed with its time, and no other row changes.
    pub handle_hides_failure :
        (msg : Delivered) (w w₁ w₂ : World D) (ev : Envelope) (r : Result (Unit {0}))
        → Service.run_process s msg.id msg.body w ≡ (ok tt, w₁)
        → unmarshal msg.body ≡ ok ev
        → handle_event ev w₁ ≡ (r, w₂)
        → w₂.faults ≡ []
        → let end = handle s unmarshal handle_event msg w in
          (end.0 ≡ nil) × (end.1.db ≡ with_rows w₂.db (marked msg.id w₂.now r (rows w₂.db)))
    unfolding handle started decoded
    handle_hides_failure msg w w₁ w₂ ev r recorded read returned calm =
        subst (Ends msg.id r w₂)
          (sym (
            ap (λ q. started s unmarshal handle_event msg q) recorded
            ∙ ap (λ q. decoded s unmarshal handle_event msg.id q w₁) read
            ∙ ap (λ q. settle s unmarshal handle_event msg.id q) returned))
          (settle-Ends msg.id r w₂ calm)
