-- ===== src/Inbox/Keeping.antt =====
-- What handling a message keeps: a property of the tables that neither the table of messages nor
-- the handling of the event can break, whichever calls fail.
use mini_wallet.Base.{ℕ, List, ◌≡◌, refl, sym, subst}
use mini_wallet.Sql.{World, Result, ok, err, Action, exec, at_now}
use mini_wallet.Sql.Calls.{exec-db, or_else-db}
use mini_wallet.Sql.Transactions.{DonePost}
use mini_wallet.Inbox.Table.{Message, Store}
use mini_wallet.Inbox.Repository
use mini_wallet.Inbox.Repository.{changing, complete, fail}
use mini_wallet.Inbox.Service
use mini_wallet.Inbox.Handling.{Delivered, handle, started, decoded, settle}
use mini_wallet.Inbox.Laws.{run_process_outcome, Records}

module _ {D : Type 0} (s : Store D) (P : D → Type 0)
    (keeps : (d : D) (ms : List Message) → P d → P (s.with_rows d ms)) where
  exec-keeps :
      (f : List Message → List Message) (w : World D) → P w.db → P (exec (changing s f) w).1.db
  exec-keeps f w p = exec-db P (changing s f) w p (keeps w.db _ p)

  mark_sent-keeps : (id : ℕ) (w : World D) → P w.db → P (Service.mark_sent s id w).1.db
  unfolding Service.mark_sent Repository.mark_sent at_now
  mark_sent-keeps id w p =
      or_else-db P _ _ w (or_else-db P _ _ w (exec-keeps (complete id w.now) w p))

  mark_failed-keeps : (id : ℕ) (w : World D) → P w.db → P (Service.mark_failed s id w).1.db
  unfolding Service.mark_failed Repository.mark_failed
  mark_failed-keeps id w p = or_else-db P _ _ w (or_else-db P _ _ w (exec-keeps (fail id) w p))

  run_process-keeps :
      (id : ℕ) (payload : List ℕ) (w : World D)
      → P w.db
      → P (Service.run_process s id payload w).1.db
  unfolding Service.run_process
  run_process-keeps id payload w p =
      or_else-db P _ _ w
        (go (Repository.run_process s id payload w) (run_process_outcome s id payload w))
    where
      go : (r : Result (Unit {0}) × World D) → DonePost w.db (λ _. Records s id w.db) r → P r.1.db
      go (ok a, w') h = subst P (sym h.done.tables) (keeps w.db _ p)
      go (err e, w') h = subst P (sym h.done) p

  module _ {Envelope : Type 0} (unmarshal : List ℕ → Result Envelope)
      (handle_event : Envelope → Action D (Unit {0})) (msg : Delivered)
      (handles : (ev : Envelope) (w : World D)
        → unmarshal msg.body ≡ ok ev
        → P w.db
        → P (handle_event ev w).1.db) where
    settle-keeps :
        (id : ℕ) (r : Result (Unit {0}) × World D)
        → P r.1.db
        → P (settle s unmarshal handle_event id r).1.db
    unfolding settle
    settle-keeps id (ok _, w) p = mark_sent-keeps id w p
    settle-keeps id (err e, w) p = mark_failed-keeps id w p

    decoded-keeps :
        (r : Result Envelope) (w : World D)
        → unmarshal msg.body ≡ r
        → P w.db
        → P (decoded s unmarshal handle_event msg.id r w).1.db
    unfolding decoded
    decoded-keeps (ok ev) w e p = settle-keeps msg.id (handle_event ev w) (handles ev w e p)
    decoded-keeps (err x) w e p = p

    started-keeps :
        (r : Result (Unit {0}) × World D)
        → P r.1.db
        → P (started s unmarshal handle_event msg r).1.db
    unfolding started
    started-keeps (ok _, w) p = decoded-keeps (unmarshal msg.body) w refl p
    started-keeps (err e, w) p = p

    -- Handling a message, whichever calls fail, keeps what the handling of its event keeps and does
    -- not depend on the table of messages.
    pub handle-keeps : (w : World D) → P w.db → P (handle s unmarshal handle_event msg w).1.db
    unfolding handle
    handle-keeps w p =
        started-keeps (Service.run_process s msg.id msg.body w)
          (run_process-keeps msg.id msg.body w p)
