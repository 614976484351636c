-- ===== src/Outbox/Locks.antt =====
-- Workers that claim events at the same time (`ClaimOutboxEvents`, internal/auth/repository/outbox.go,
-- run by several instances of internal/auth/workers/outbox): the query of each locks the rows that it
-- yields until its transaction ends, and skips those that others have locked.
use mini_wallet.Base.{
  ℕ, zero, suc, ◌<◌, List, [], ◌∷◌, ◌++◌, Bool, false, not, ◌&&◌, ◌||◌, ◌==◌, ◌≡◌, any, reject,
  if◌then◌else◌,
}
use mini_wallet.Outbox.Table.{OutboxEvent, ids_of}
use mini_wallet.Outbox.Repository.{select_pending, claim, finish, release}

abbrev pub in_list : ℕ → List ℕ → Bool
in_list id ks = any (λ k. id == k) ks

pub record State : Type 0 where
  pub rows : List OutboxEvent
  -- the events whose rows a worker's open transaction has locked
  pub holds : ℕ → List ℕ
  -- the events that were claimed, by claims that are committed, and not released since
  pub taken : List ℕ

-- Whether one of so many workers, other than this one, has locked the event's row.
abbrev pub locked : ℕ → ℕ → (ℕ → List ℕ) → ℕ → Bool
locked zero k holds id = false
locked (suc n) k holds id =
    let rest = locked n k holds id in (not (n == k) && in_list id (holds n)) || rest

abbrev pub put : ℕ → List ℕ → (ℕ → List ℕ) → ℕ → List ℕ
put k ids holds j = if j == k then ids else holds j

-- The query of a claim; its UPDATE and COMMIT; its ROLLBACK, which is also where a call fails; and the
-- marks of any events, processed or failed, with the recovery of stale ones as a release; and the
-- insertion of an event with a new id.
pub data Step (workers : ℕ) : State → State → Type 0 where
  selects :
      {s : State} (k count : ℕ)
      → k < workers
      → s.holds k ≡ []
      → Step workers s (record s {
        holds = put k (ids_of (select_pending (locked workers k s.holds) count s.rows)) s.holds;
      })
  commits :
      {s : State} (k until : ℕ)
      → k < workers
      → Step workers s (record s {
        rows = claim (s.holds k) until s.rows;
        holds = put k [] s.holds;
        taken = s.holds k ++ s.taken;
      })
  rolls_back :
      {s : State} (k : ℕ) → k < workers → Step workers s (record s { holds = put k [] s.holds })
  finishes :
      {s : State} (ids : List ℕ) (now : ℕ)
      → Step workers s (record s { rows = finish ids now s.rows })
  releases :
      {s : State} (ids : List ℕ)
      → Step workers s
          (record s { rows = release ids s.rows; taken = reject (λ id. in_list id ids) s.taken })
  inserts :
      {s : State} (e : OutboxEvent)
      → in_list e.event_id s.taken ≡ false
      → Step workers s (record s { rows = s.rows ++ e ∷ [] })

pub data Reachable (workers : ℕ) : State → Type 0 where
  start :
      (rows : List OutboxEvent)
      → Reachable workers (record { rows = rows; holds = λ k. []; taken = [] })
  after : {s t : State} → Reachable workers s → Step workers s t → Reachable workers t
