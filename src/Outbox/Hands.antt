-- ===== src/Outbox/Hands.antt =====
-- Whose hands an event is in while workers claim events (internal/auth/repository/outbox.go).
use mini_wallet.Base.{
  ℕ, zero, suc, ◌<◌, List, [], ◌∷◌, ◌++◌, Bool, true, false, ◌&&◌, ◌||◌, ◌==◌, ◌≡◌, ◌≢◌, refl, sym,
  subst, any, update, All, arith, Bool-cases, inl, inr, ==_iff,
}
use mini_wallet.Outbox.Table.{OutboxEvent, is_pending, ids_of}
use mini_wallet.Outbox.Locks.{in_list, State, locked, put}

-- No event is in two hands: those of two open transactions, or of one and of a claim before.
pub record Exclusive (workers : ℕ) (s : State) : Type 0 where
  pub apart :
      (j k id : ℕ)
      → j < workers
      → k < workers
      → j ≢ k
      → (in_list id (s.holds j) && in_list id (s.holds k)) ≡ false
  pub untaken : (j id : ℕ) → j < workers → (in_list id (s.holds j) && in_list id s.taken) ≡ false
  -- what is taken is not pending
  pub claimed : All (λ e. (is_pending e.status && in_list e.event_id s.taken) ≡ false) s.rows

pub put-cases :
    (P : List ℕ → Type 0) (k : ℕ) (ids : List ℕ) (holds : ℕ → List ℕ) (j : ℕ)
    → (j ≡ k → P ids)
    → (j ≢ k → P (holds j))
    → P (put k ids holds j)
put-cases P k ids holds j same other = elim (Bool-cases (j == k)) [
  | inl hit ↦ rw hit (same ((==_iff j k).0 hit))
  | inr miss ↦ rw miss (other (λ e. ground (arith, miss, e)))
]

pub and_swap : (a b : Bool) → (a && b) ≡ (b && a)
and_swap true true = refl
and_swap true false = refl
and_swap false true = refl
and_swap false false = refl

pub any-append : (p : ℕ → Bool) (xs ys : List ℕ) → any p (xs ++ ys) ≡ (any p xs || any p ys)
any-append p [] ys = refl
any-append p (x ∷ xs) ys = ground (arith, any-append p xs ys)

pub unlocked_row :
    (n k : ℕ) (holds : ℕ → List ℕ) (id : ℕ)
    → locked n k holds id ≡ false
    → (j : ℕ) → j < n
    → j ≢ k
    → in_list id (holds j) ≡ false
unlocked_row zero k holds id h j lt differ = ground (arith, lt)
unlocked_row (suc n) k holds id h j lt differ = elim (Bool-cases (j == n)) [
  | inl last ↦
      let here : j ≡ n = (==_iff j n).0 last in
      let mine : (n == k) ≡ false = ground (arith, here, differ) in
      subst (λ (x : ℕ). in_list id (holds x) ≡ false) (sym here) (ground (arith, mine, h))
  | inr other ↦ unlocked_row n k holds id (ground (arith, h)) j (ground (arith, lt, other)) differ
]

pub of_ids :
    (Q : ℕ → Type 0) (es : List OutboxEvent) (id : ℕ)
    → All (λ e. Q e.event_id) es
    → in_list id (ids_of es) ≡ true
    → Q id
of_ids Q [] id h e = cc
of_ids Q (x ∷ es) id h e = elim (Bool-cases (id == x.event_id)) [
  | inl hit ↦ subst Q (sym ((==_iff id x.event_id).0 hit)) h.0
  | inr miss ↦ of_ids Q es id h.1 (ground (arith, miss, e))
]

pub All-changed :
    (Q R : OutboxEvent → Type 0) (p : OutboxEvent → Bool) (f : OutboxEvent → OutboxEvent)
    → ((e : OutboxEvent) → Q e → p e ≡ true → R (f e))
    → ((e : OutboxEvent) → Q e → p e ≡ false → R e)
    → (es : List OutboxEvent) → All Q es
    → All R (update p f es)
All-changed Q R p f hit miss [] h = tt
All-changed Q R p f hit miss (e ∷ es) h = elim (Bool-cases (p e)) [
  | inl met ↦ rw met (hit e h.0 met, All-changed Q R p f hit miss es h.1)
  | inr unmet ↦ rw unmet (miss e h.0 unmet, All-changed Q R p f hit miss es h.1)
]
