-- ===== src/Outbox/Claims.antt =====
-- What a claim selects and what it does to the rows (`ClaimOutboxEvents`,
-- internal/auth/repository/outbox.go).
use mini_wallet.Base.{
  ℕ, zero, suc, ◌≤◌, ◌&&◌, not, leb, Bool, true, List, [], ◌∷◌, length, take, select, All, ◌≡◌,
  Bool-cases, inl, inr, arith, All-map,
}
use mini_wallet.Outbox.Table.{OutboxEvent, is_pending}
use mini_wallet.Outbox.Repository.{insert_by_time, by_time, select_pending}

module _ (P : OutboxEvent → Type 0) where
  All-insert :
      (e : OutboxEvent) (es : List OutboxEvent) → P e → All P es → All P (insert_by_time e es)
  All-insert e [] p h = (p, tt)
  All-insert e (x ∷ xs) p h = elim (Bool-cases (leb e.created_at x.created_at)) [
    | inl le ↦ rw le (p, h)
    | inr gt ↦ rw gt (h.0, All-insert e xs p h.1)
  ]

  All-by_time : (es : List OutboxEvent) → All P es → All P (by_time es)
  All-by_time [] h = tt
  All-by_time (e ∷ es) h = All-insert e (by_time es) h.0 (All-by_time es h.1)

  All-take : (n : ℕ) (es : List OutboxEvent) → All P es → All P (take n es)
  All-take zero es h = tt
  All-take (suc n) [] h = tt
  All-take (suc n) (e ∷ es) h = (h.0, All-take n es h.1)

  All-select : (p : OutboxEvent → Bool) (es : List OutboxEvent) → All P es → All P (select p es)
  All-select p [] h = tt
  All-select p (e ∷ es) h = elim (Bool-cases (p e)) [
    | inl hit ↦ rw hit (h.0, All-select p es h.1)
    | inr miss ↦ rw miss (All-select p es h.1)
  ]

  -- What holds of every row holds of every selected one.
  pub All-select_pending :
      (locked : ℕ → Bool) (n : ℕ) (rows : List OutboxEvent)
      → All P rows
      → All P (select_pending locked n rows)
  unfolding select_pending
  All-select_pending locked n rows h =
      All-take n _
        (All-by_time _ (All-select (λ e. is_pending e.status && not (locked e.event_id)) rows h))

selected_are :
    (p : OutboxEvent → Bool) (es : List OutboxEvent) → All (λ e. p e ≡ true) (select p es)
selected_are p [] = tt
selected_are p (e ∷ es) = elim (Bool-cases (p e)) [
  | inl hit ↦ rw hit (hit, selected_are p es)
  | inr miss ↦ rw miss (selected_are p es)
]

length-take : (n : ℕ) (es : List OutboxEvent) → length (take n es) ≤ n
length-take zero es = ground arith
length-take (suc n) [] = ground arith
length-take (suc n) (e ∷ es) = ground (arith, length-take n es)

-- The older events first.
abbrev pub Ordered : List OutboxEvent → Type 0
Ordered [] = Unit
Ordered (e ∷ es) = All (λ x. e.created_at ≤ x.created_at) es × Ordered es

insert_by_time-Ordered :
    (e : OutboxEvent) (es : List OutboxEvent) → Ordered es → Ordered (insert_by_time e es)
insert_by_time-Ordered e [] h = (tt, tt)
insert_by_time-Ordered e (x ∷ xs) h = elim (Bool-cases (leb e.created_at x.created_at)) [
  | inl le ↦
      let e_le : e.created_at ≤ x.created_at = ground arith in
      rw le (
        (
          e_le,
          All-map (λ y. x.created_at ≤ y.created_at) (λ y. e.created_at ≤ y.created_at)
              (λ y q. omega (arith, e_le, q)) xs h.0,
        ),
        h,
      )
  | inr gt ↦ rw gt (
    All-insert (λ y. x.created_at ≤ y.created_at) e xs (ground arith) h.0,
    insert_by_time-Ordered e xs h.1,
  )
]

by_time-Ordered : (es : List OutboxEvent) → Ordered (by_time es)
by_time-Ordered [] = tt
by_time-Ordered (e ∷ es) = insert_by_time-Ordered e (by_time es) (by_time-Ordered es)

take-Ordered : (n : ℕ) (es : List OutboxEvent) → Ordered es → Ordered (take n es)
take-Ordered zero es h = tt
take-Ordered (suc n) [] h = tt
take-Ordered (suc n) (e ∷ es) h =
    (All-take (λ x. e.created_at ≤ x.created_at) n es h.0, take-Ordered n es h.1)

-- The query of a claim yields at most as many events as it is asked for, all of them pending and none
-- of them locked, the older ones first.
pub select_pending_outcome :
    (locked : ℕ → Bool) (n : ℕ) (rows : List OutboxEvent)
    → (length (select_pending locked n rows) ≤ n)
      × All
          (λ e. (is_pending e.status && not (locked e.event_id)) ≡ true)
          (select_pending locked n rows)
      × Ordered (select_pending locked n rows)
unfolding select_pending
select_pending_outcome locked n rows = (
  length-take n _,
  All-take _ n _
      (All-by_time _ _ (selected_are (λ e. is_pending e.status && not (locked e.event_id)) rows)),
  take-Ordered n _
      (by_time-Ordered (select (λ e. is_pending e.status && not (locked e.event_id)) rows)),
)
