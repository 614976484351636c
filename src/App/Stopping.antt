-- ===== src/App/Stopping.antt =====
-- Whether the `Start` of internal/auth/app.go, internal/wallet/app.go and internal/notification/app.go
-- returns after the signal to stop.
use mini_wallet.Base.{
  ℕ, ◌≤◌, List, [], ◌∷◌, ◌++◌, Bool, true, false, not, ◌||◌, ◌≡◌, ◌⊎◌, refl, sym, ap, ◌∙◌, any,
  arith,
}
use mini_wallet.App.{
  Call, Goroutine, Body, State, Run, begin, step, signals, calls_next, answers, ends, returns,
  can_end, stop_grpc, has, notification_start,
}
use mini_wallet.App.Runs.{Run-size, Run-Divided, can_end-more}

-- While RPCs are pending, the gRPC server is not stopped and `Start` has not returned.
abbrev Waits : State → Type 0
Waits s = (s.pending ≡ 0) ⊎ ((s.returned ≡ false) × (has stop_grpc s.made ≡ false))

-- A goroutine that no call of the body ends is left where another one ends.
stays :
    (p : Goroutine → Bool) (before : List Goroutine) (g : Goroutine) (after : List Goroutine)
    → p g ≡ false
    → any p (before ++ g ∷ after) ≡ any p (before ++ after)
stays p [] g after h = ground (arith, h)
stays p (x ∷ before) g after h = ground (arith, stays p before g after h)

abbrev waiting_on : Body → State → Bool
waiting_on b s = any (λ g. not (can_end b.calls g)) s.running

made_in :
    (b : Body) {n : ℕ} {s : State}
    → Run b n s
    → s.returned ≡ false
    → (c : Call) → has c s.made ≡ true
    → has c b.calls ≡ true
made_in b {n} {s} r k c h = sym (Run-Divided b r k c) ∙ ap (λ x. x || has c s.left) h

not-false : (a : Bool) → a ≡ true → not a ≡ false
not-false true e = refl
not-false false e = cc

-- Where the calls leave a goroutine running, `Start` never returns.
never_returns :
    (b : Body)
    → any (λ g. not (can_end b.calls g)) b.goroutines ≡ true
    → {n : ℕ} {s : State} → Run b n s
    → (s.returned ≡ false) × (waiting_on b s ≡ true)
never_returns b h begin = (refl, h)
never_returns b h (step r (signals k) e) = never_returns b h r
never_returns b h (step r (calls_next c cs k l f) e) = never_returns b h r
never_returns b h (step r (answers k q) e) = never_returns b h r
never_returns b h (step {s = s} r (ends before g after k c) e) =
    let still = never_returns b h r in
    let ended : can_end b.calls g ≡ true = can_end-more s.made b.calls g (made_in b r still.0) c in
    (
      still.0,
      sym (stays (λ x. not (can_end b.calls x)) before g after (not-false _ ended))
          ∙ ap (any (λ x. not (can_end b.calls x))) (sym k)
          ∙ still.1,
    )
never_returns b h (step {s = s} r (returns k l m n) e) =
    let none_left : false ≡ true =
      ap (any (λ x. not (can_end b.calls x))) (sym m) ∙ (never_returns b h r).1 in
    cc

-- However its steps interleave with those of its goroutines, `Start` of the notification service
-- never returns: it has no more than eleven steps, and after none of them has it returned, since the
-- listener and the heartbeat of the hub wait for a context that only its return cancels.
pub notification_hangs :
    (n : ℕ) (s : State) → Run notification_start n s → (n ≤ 11) × (s.returned ≡ false)
notification_hangs n s r =
    let still = never_returns notification_start refl r in
    (ground (arith, Run-size notification_start r, still.0), still.0)
