-- ===== src/Outbox/Tests.antt =====
-- Rows of an outbox, on which the theorems about claims are applied
-- (internal/auth/repository/outbox.go).
use mini_wallet.Base.{ℕ, List, [], ◌∷◌, none, refl, arith}
use mini_wallet.Outbox.Repository.{select_pending, claim}
use mini_wallet.Outbox.Locks.{State, put, Reachable, start, after, selects, commits}
use mini_wallet.Outbox.Hands.{Exclusive}
use mini_wallet.Outbox.Exclusion.{Reachable-Exclusive}
use mini_wallet.Outbox.Table.{OutboxEvent, EventStatus, pending, processed}

abbrev row : ℕ → EventStatus → ℕ → OutboxEvent
row id status created_at = record {
  event_id = id;
  event_type = "auth.v1.RegisterNewUser";
  payload = id ∷ [];
  aggregate_type = "user";
  aggregate_id = "7";
  status = status;
  created_at = created_at;
  processed_at = none;
  locked_until = none;
}

abbrev rows : List OutboxEvent
rows = row 1 pending 30 ∷ row 2 processed 10 ∷ row 3 pending 20 ∷ []

-- Two workers query at once, and the first one commits.
abbrev queried : State
queried = record { rows = rows; holds = put 1 (1 ∷ []) (put 0 (3 ∷ []) (λ k. [])); taken = [] }

abbrev claimed_once : State
claimed_once = record {
  rows = claim (3 ∷ []) 90 rows;
  holds = put 0 [] queried.holds;
  taken = 3 ∷ [];
}

claimed_once-Reachable : Reachable 2 claimed_once
unfolding select_pending
claimed_once-Reachable =
    after
      (after (after (start rows) (selects 0 1 (ground arith) refl))
        (selects 1 1 (ground arith) refl))
      (commits 0 90 (ground arith))

Reachable-Exclusive_example : Exclusive 2 claimed_once
Reachable-Exclusive_example = Reachable-Exclusive 2 claimed_once claimed_once-Reachable
