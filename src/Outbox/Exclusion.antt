-- ===== src/Outbox/Exclusion.antt =====
-- That no event is claimed twice at a time (`ClaimOutboxEvents`, internal/auth/repository/outbox.go).
use mini_wallet.Base.{
  ℕ, ◌<◌, List, [], ◌∷◌, ◌++◌, Bool, true, false, not, ◌&&◌, ◌==◌, ◌≡◌, ◌≢◌, refl, sym, ap, ◌∙◌,
  reject, All, All-append, arith, Bool-cases, inl, inr, ==_iff,
}
use mini_wallet.Outbox.Table.{OutboxEvent, is_pending, id_in, ids_of}
use mini_wallet.Outbox.Repository.{
  select_pending, claim, finish, release, claimed_until, finished_at, released,
}
use mini_wallet.Outbox.Claims.{All-select_pending, select_pending_outcome}
use mini_wallet.Outbox.Locks.{
  in_list, State, locked, put, Step, selects, commits, rolls_back, finishes, releases, inserts,
  Reachable, start, after,
}
use mini_wallet.Outbox.Hands.{
  Exclusive, put-cases, and_swap, any-append, unlocked_row, of_ids, All-changed,
}

module _ (workers : ℕ) where
  -- Another list of locks for one worker, that has nothing of the others' or of what is taken.
  Exclusive-put :
      (s : State) (k : ℕ) (ids : List ℕ)
      → k < workers
      → ((j id : ℕ) → j < workers → j ≢ k → (in_list id ids && in_list id (s.holds j)) ≡ false)
      → ((id : ℕ) → (in_list id ids && in_list id s.taken) ≡ false)
      → Exclusive workers s
      → Exclusive workers (record s { holds = put k ids s.holds })
  Exclusive-put s k ids below free new v = record {
    apart = λ i j id li lj differ.
        put-cases (λ xs. (in_list id xs && in_list id (put k ids s.holds j)) ≡ false) k ids s.holds
          i
          (λ here.
            put-cases (λ ys. (in_list id ids && in_list id ys) ≡ false) k ids s.holds j
              (λ there. absurd i j differ (here ∙ sym there)) (λ other. free j id lj other))
          (λ away.
            put-cases (λ ys. (in_list id (s.holds i) && in_list id ys) ≡ false) k ids s.holds j
              (λ there. and_swap (in_list id (s.holds i)) (in_list id ids) ∙ free i id li away)
              (λ other. v.apart i j id li lj differ));
    untaken = λ j id lj.
        put-cases (λ xs. (in_list id xs && in_list id s.taken) ≡ false) k ids s.holds j
          (λ here. new id) (λ other. v.untaken j id lj);
    claimed = v.claimed;
  }
    where
      absurd : {A : Type 0} (i j : ℕ) → i ≢ j → i ≡ j → A
      absurd i j differ same = ground (arith, differ, same)

  selects-Exclusive :
      (s : State) (k count : ℕ)
      → k < workers
      → Exclusive workers s
      → Exclusive workers (record s {
        holds = put k (ids_of (select_pending (locked workers k s.holds) count s.rows)) s.holds;
      })
  selects-Exclusive s k count below v =
      Exclusive-put s k (ids_of found) below
        (λ j id lj differ. elim (Bool-cases (in_list id (ids_of found))) [
          | inl hit ↦
              let out : in_list id (s.holds j) ≡ false =
                unlocked_row workers k s.holds id (chosen id hit).0 j lj differ in
              ground (arith, out)
          | inr miss ↦ ground (arith, miss)
        ])
        (λ id. elim (Bool-cases (in_list id (ids_of found))) [
          | inl hit ↦ ground (arith, (chosen id hit).1)
          | inr miss ↦ ground (arith, miss)
        ])
        v
    where
      found : List OutboxEvent
      found = select_pending (locked workers k s.holds) count s.rows

      Chosen : ℕ → Type 0
      Chosen id = (locked workers k s.holds id ≡ false) × (in_list id s.taken ≡ false)

      each :
          (es : List OutboxEvent)
          → All (λ e. (is_pending e.status && not (locked workers k s.holds e.event_id)) ≡ true) es
          → All (λ e. (is_pending e.status && in_list e.event_id s.taken) ≡ false) es
          → All (λ e. Chosen e.event_id) es
      each [] h q = tt
      each (e ∷ es) h q = ((ground (arith, h.0), ground (arith, h.0, q.0)), each es h.1 q.1)

      chosen : (id : ℕ) → in_list id (ids_of found) ≡ true → Chosen id
      chosen id h =
          of_ids Chosen found id
            (each found (select_pending_outcome (locked workers k s.holds) count s.rows).1 (
              All-select_pending (λ e. (is_pending e.status && in_list e.event_id s.taken) ≡ false)
                (locked workers k s.holds) count s.rows v.claimed))
            h

  none_held :
      (s : State) (k : ℕ)
      → k < workers
      → Exclusive workers s
      → Exclusive workers (record s { holds = put k [] s.holds })
  none_held s k below v = Exclusive-put s k [] below (λ j id lj differ. refl) (λ id. refl) v

  commits-Exclusive :
      (s : State) (k until : ℕ)
      → k < workers
      → Exclusive workers s
      → Exclusive workers (record s {
        rows = claim (s.holds k) until s.rows;
        holds = put k [] s.holds;
        taken = s.holds k ++ s.taken;
      })
  unfolding claim
  commits-Exclusive s k until below v = record {
    apart = (none_held s k below v).apart;
    untaken = λ j id lj.
        put-cases (λ xs. (in_list id xs && in_list id (s.holds k ++ s.taken)) ≡ false) k [] s.holds
          j (λ here. refl)
          (λ other. ground (
            arith,
            any-append (λ x. id == x) (s.holds k) s.taken,
            v.apart j k id lj below other,
            v.untaken j id lj,
          ));
    claimed =
        All-changed (λ e. (is_pending e.status && in_list e.event_id s.taken) ≡ false)
          (λ e. (is_pending e.status && in_list e.event_id (s.holds k ++ s.taken)) ≡ false)
          (id_in (s.holds k)) (claimed_until until) (λ e q met. refl)
          (λ e q unmet.
            ground (arith, any-append (λ x. e.event_id == x) (s.holds k) s.taken, unmet, q))
          s.rows v.claimed;
  }

  in_list-reject :
      (id : ℕ) (p : ℕ → Bool) (ks : List ℕ)
      → in_list id (reject p ks) ≡ (not (p id) && in_list id ks)
  in_list-reject id p [] = and_swap false (not (p id))
  in_list-reject id p (k ∷ ks) = elim (Bool-cases (id == k)) [
    | inl hit ↦
        let same : p k ≡ p id = ap p (sym ((==_iff id k).0 hit)) in
        ground (arith, same, hit, in_list-reject id p ks)
    | inr miss ↦ ground (arith, miss, in_list-reject id p ks)
  ]

  releases-Exclusive :
      (s : State) (ids : List ℕ)
      → Exclusive workers s
      → Exclusive workers
          (record s { rows = release ids s.rows; taken = reject (λ id. in_list id ids) s.taken })
  unfolding release
  releases-Exclusive s ids v = record {
    apart = v.apart;
    untaken = λ j id lj.
        ground (arith, in_list-reject id (λ x. in_list x ids) s.taken, v.untaken j id lj);
    claimed =
        All-changed (λ e. (is_pending e.status && in_list e.event_id s.taken) ≡ false)
          (λ e.
            (is_pending e.status && in_list e.event_id (reject (λ id. in_list id ids) s.taken))
            ≡ false)
          (id_in ids) released
          (λ e q met. ground (arith, in_list-reject e.event_id (λ x. in_list x ids) s.taken, met))
          (λ e q unmet.
            ground (arith, in_list-reject e.event_id (λ x. in_list x ids) s.taken, unmet, q))
          s.rows v.claimed;
  }

  finishes-Exclusive :
      (s : State) (ids : List ℕ) (now : ℕ)
      → Exclusive workers s
      → Exclusive workers (record s { rows = finish ids now s.rows })
  unfolding finish
  finishes-Exclusive s ids now v = record {
    apart = v.apart;
    untaken = v.untaken;
    claimed =
        All-changed (λ e. (is_pending e.status && in_list e.event_id s.taken) ≡ false)
          (λ e. (is_pending e.status && in_list e.event_id s.taken) ≡ false) (id_in ids)
          (finished_at now) (λ e q met. refl) (λ e q unmet. q) s.rows v.claimed;
  }

  Step-Exclusive : {s t : State} → Step workers s t → Exclusive workers s → Exclusive workers t
  Step-Exclusive {s} (selects k count below idle) v = selects-Exclusive s k count below v
  Step-Exclusive {s} (commits k until below) v = commits-Exclusive s k until below v
  Step-Exclusive {s} (rolls_back k below) v = none_held s k below v
  Step-Exclusive {s} (finishes ids now) v = finishes-Exclusive s ids now v
  Step-Exclusive {s} (releases ids) v = releases-Exclusive s ids v
  Step-Exclusive {s} (inserts e fresh) v = record {
    apart = v.apart;
    untaken = v.untaken;
    claimed = All-append _ s.rows (e ∷ []) v.claimed (ground (arith, fresh), tt);
  }

  nothing_taken :
      (rows : List OutboxEvent)
      → All (λ e. (is_pending e.status && in_list e.event_id []) ≡ false) rows
  nothing_taken [] = tt
  nothing_taken (e ∷ es) = (and_swap (is_pending e.status) false, nothing_taken es)

  -- However many workers claim events at once, and however their queries, commits and rollbacks
  -- interleave with each other, with marks and releases of any events and with new events, no event
  -- is in two hands: none is in two workers' open claims, and none in an open claim that was claimed
  -- before, by a claim that is committed, and not released since. The rows that are taken are not
  -- pending.
  pub Reachable-Exclusive : (s : State) → Reachable workers s → Exclusive workers s
  Reachable-Exclusive s (start rows) = record {
    apart = λ j k id lj lk differ. refl;
    untaken = λ j id lj. refl;
    claimed = nothing_taken rows;
  }
  Reachable-Exclusive s (after r st) = Step-Exclusive st (Reachable-Exclusive _ r)
