-- ===== src/Inbox/Handling.antt =====
-- `Handler.Handle` of internal/wallet/subscriber/handler.go and of
-- internal/notification/subscriber/handler.go, which differ in what `handleEvent` does: that, and
-- `proto.Unmarshal`, are parameters here.
use mini_wallet.Base.{ℕ, List, if◌then◌else◌}
use mini_wallet.RichError.{Error, nil, as_conflict}
use mini_wallet.Sql.{World, Result, ok, err, Action}
use mini_wallet.Inbox.Table.{Store}
use mini_wallet.Inbox.Service.{run_process, mark_sent, mark_failed}

-- `broker.Message`, as far as a handler reads it.
pub record Delivered : Type 0 where
  pub id : ℕ
  pub body : List ℕ

-- The error that `MarkSent` or `MarkFailed` returns.
abbrev pub error_of : {A : Type 0} → Result A → Error
error_of (ok _) = nil
error_of (err e) = e

module _ {D Envelope : Type 0} (s : Store D) (unmarshal : List ℕ → Result Envelope)
    (handle_event : Envelope → Action D (Unit {0})) where
  -- The end of `Handle`, by what `handleEvent` returned.
  unfoldable pub settle : ℕ → Result (Unit {0}) × World D → Error × World D
  settle id (err _, w) = let (r, w') = mark_failed s id w in (error_of r, w')
  settle id (ok _, w) = let (_, w') = mark_sent s id w in (nil, w')

  unfoldable pub decoded : ℕ → Result Envelope → World D → Error × World D
  unfolding settle
  decoded id (err e) w = (e, w)
  decoded id (ok ev) w = settle id (handle_event ev w)

  unfoldable pub started : Delivered → Result (Unit {0}) × World D → Error × World D
  unfolding decoded
  started msg (err e, w) = (if as_conflict e then nil else e, w)
  started msg (ok _, w) = decoded msg.id (unmarshal msg.body) w

  -- The error that `Handle` returns, nil where the message was handled.
  unfoldable pub handle : Delivered → World D → Error × World D
  unfolding started
  handle msg w = started msg (run_process s msg.id msg.body w)
