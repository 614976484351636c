-- ===== src/Auth/Tests.antt =====
-- An outbox of the auth service, on which the theorem about its worker is applied
-- (internal/auth/workers/outbox).
use mini_wallet.Base.{
  ℕ, List, [], ◌∷◌, none, some, ◌≡◌, refl, find, true, subst, Bool-cases, inl, inr, ◌==◌,
}
use mini_wallet.RichError.{nil, plain}
use mini_wallet.Sql.{World}
use mini_wallet.Outbox.Table.{OutboxEvent, pending, has_id, is_processed}
use mini_wallet.Outbox.Worker.{Tick, batch_due, recovery_due, start}
use mini_wallet.Outbox.Soundness.{Sound}
use mini_wallet.Auth.Tables.{Db, store}
use mini_wallet.Auth.Outbox.{process_event, publishes, Taken, publication}
use mini_wallet.Outbox.Content.{content}
use mini_wallet.Auth.Delivery.{start-publishes}

abbrev registered : OutboxEvent
registered = record {
  event_id = 1;
  event_type = "auth.v1.RegisterNewUser";
  payload = 5 ∷ [];
  aggregate_type = "user";
  aggregate_id = "7";
  status = pending;
  created_at = 30;
  processed_at = none;
  locked_until = none;
}

abbrev outbox : Db
outbox = record {
  users = [];
  devices = [];
  sessions = [];
  history = [];
  events = registered ∷ [];
  published = [];
  next_user = 1;
  next_device = 1;
  next_session = 1;
}

-- The second statement of the claim goes through; the publication does not.
abbrev flaky : World Db
flaky = record {
  db = outbox;
  tx = none;
  faults = nil ∷ nil ∷ nil ∷ nil ∷ plain "connection refused" ∷ [];
  now = 40;
}

outbox-Sound : Sound store process_event publishes outbox
outbox-Sound = record {
  unique = (refl, tt);
  sent = λ k r found done. none_processed k r found done;
}
  where
    none_processed :
        (k : ℕ) (r : OutboxEvent)
        → find (has_id k) outbox.events ≡ some r
        → is_processed r.status ≡ true
        → Taken (publication (content r)) outbox
    none_processed k r found done = elim (Bool-cases (1 == k)) [
      | inl hit ↦
          let first : find (has_id k) outbox.events ≡ some registered = rw hit refl in
          let same : r ≡ registered = cc in
          let odd : is_processed registered.status ≡ true =
            subst (λ (x : OutboxEvent). is_processed x.status ≡ true) same done in
          cc
      | inr miss ↦ let absent : find (has_id k) outbox.events ≡ none = rw miss refl in cc
    ]

-- A batch whose publication fails, a recovery, and a batch that publishes the event.
abbrev ticks : List Tick
ticks = batch_due 40 (λ es. es) ∷ recovery_due 70 ∷ batch_due 80 (λ es. es) ∷ []

start-publishes_example :
    Sound store process_event publishes (start store process_event 10 60 ticks flaky).db
start-publishes_example =
    start-publishes 10 60 ticks flaky ((λ P es h. h), (tt, ((λ P es h. h), tt))) outbox-Sound
