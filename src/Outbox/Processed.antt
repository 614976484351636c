-- ===== src/Outbox/Processed.antt =====
-- A whole batch, from the claim to the marks (`ProcessBatch` of the outbox workers).
use mini_wallet.Base.{ℕ, ◌+◌, List, [], ◌∷◌, All, All-map, ◌≡◌, refl, sym, ap, ◌∙◌, subst}
use mini_wallet.Sql.{World, Result, ok, err, Action, pure, rollback}
use mini_wallet.Sql.Transactions.{
  InTx, DonePost, or_else-TxPost, begin_tx-TxPost, statement-TxPost, at_now-TxPost,
}
use mini_wallet.Sql.Commits.{then-DonePost, bind-DonePost, commit-pure-DonePost, or_else-DonePost}
use mini_wallet.Outbox.Table.{OutboxEvent, id_in, ids_of, Store}
use mini_wallet.Outbox.Repository
use mini_wallet.Outbox.Repository.{
  claim, claimed_until, select_pending, unlocked, changing, rolling_back_always, claim_selected,
}
use mini_wallet.Outbox.Content.{Stands, Stands-update, All-Stand}
use mini_wallet.Outbox.Claims.{All-select_pending}
use mini_wallet.Outbox.Service
use mini_wallet.Outbox.Worker.{process_claimed, process_batch}
use mini_wallet.Outbox.Soundness.{Publishes, Sound, claim-Sound}
use mini_wallet.Outbox.Batch.{process_all-Progressed, mark_outcome-Sound}

module _ {D A : Type 0} {d : D} where
  weaker_done :
      {Q R : A → D → Type 0} (r : Result A × World D)
      → DonePost d Q r
      → ((a : A) (t : D) → Q a t → R a t)
      → DonePost d R r
  weaker_done (ok a, w) h f = record { done = f a w.db h.done }
  weaker_done (err e, w) h f = record { done = h.done }

  always-DonePost :
      {Q : A → D → Type 0} (m : Action D A) (w : World D)
      → DonePost d Q (m w)
      → DonePost d Q (rolling_back_always m w)
  unfolding rolling_back_always
  always-DonePost {Q} m w h = go (m w) h
    where
      go : (r : Result A × World D) → DonePost d Q r → DonePost d Q (r.0, rollback r.1)
      go (ok a, w') k = record { done = k.done }
      go (err e, w') k = record { done = k.done }

module _ {D : Type 0} (s : Store D) (process_event : OutboxEvent → Action D (Unit {0}))
    (p : Publishes s process_event) where
  open s use {rows, with_rows}

  -- The events of a claim stand in a sound table.
  abbrev Claimed : List OutboxEvent → D → Type 0
  Claimed es d = Sound s process_event p d × All (Stands (rows d)) es

  claim_selected-Claimed :
      {now : ℕ} (lock_timeout : ℕ) (d t : D) (es : List OutboxEvent) (w : World D)
      → InTx now d t w
      → t ≡ d
      → Claimed es d
      → DonePost d Claimed (claim_selected s lock_timeout es w)
  unfolding claim_selected pure claim
  claim_selected-Claimed lock_timeout d t [] w i same h = record {
    done = subst (Claimed []) (sym i.committed) h;
  }
  claim_selected-Claimed lock_timeout d t (e ∷ es) w i same h =
      then-DonePost _ _ w
        (or_else-TxPost _ _ w
          (at_now-TxPost _ w (statement-TxPost _ t w i (λ _ t' made. of_claim t' made))))
        λ _ t₁ w₁ i₁ q.
          weaker_done _ (commit-pure-DonePost {Q = Claimed (e ∷ es)} (e ∷ es) t₁ w₁ i₁ q)
            (λ a t₂ k. subst (λ xs. Claimed xs t₂) (sym k.0) k.1)
    where
      ids : List ℕ
      ids = ids_of (e ∷ es)

      after : D
      after = with_rows d (claim ids (w.now + lock_timeout) (rows d))

      standing : All (Stands (rows after)) (e ∷ es)
      standing =
          All-map (Stands (rows d)) (Stands (rows after))
            (λ x st.
              subst (λ rs. Stands rs x) (sym (p.rows-with_rows d _))
                (Stands-update (id_in ids) (claimed_until (w.now + lock_timeout)) (rows d) x
                  (λ _. (refl, refl)) st))
            (e ∷ es) h.1

      of_claim :
          (t' : D) {a : Unit {0}}
          → changing s (claim ids (w.now + lock_timeout)) t ≡ (ok a, t')
          → Claimed (e ∷ es) t'
      of_claim t' made =
          subst (Claimed (e ∷ es))
            (ap (λ x. with_rows x (claim ids (w.now + lock_timeout) (rows x))) (sym same)
              ∙ ap (λ x. x.1) made)
            (claim-Sound s process_event p ids (w.now + lock_timeout) d h.0, standing)

  abbrev found : ℕ → D → Result (List OutboxEvent) × D
  found n t = (ok (select_pending unlocked n (rows t)), t)

  claim_outbox_events-Claimed :
      (batch_size lock_timeout : ℕ) (w : World D)
      → Sound s process_event p w.db
      → DonePost w.db Claimed (Service.claim_outbox_events s batch_size lock_timeout w)
  unfolding Service.claim_outbox_events Repository.claim_outbox_events
  claim_outbox_events-Claimed batch_size lock_timeout w h = or_else-DonePost _ _ w (
      then-DonePost _ _ w (or_else-TxPost _ _ w (begin_tx-TxPost w)) λ _ t w₁ i₁ begun.
        always-DonePost _ w₁ (
          bind-DonePost _ _ w₁
            (or_else-TxPost _ _ w₁ (statement-TxPost _ t w₁ i₁ (selected t begun)))
            λ es t₂ w₂ i₂ q. claim_selected-Claimed lock_timeout w.db t₂ es w₂ i₂ q.0 (h, q.1)))
    where
      selected :
          (t : D)
          → t ≡ w.db
          → (es : List OutboxEvent) (t' : D) → found batch_size t ≡ (ok es, t')
          → (t' ≡ w.db) × All (Stands (rows w.db)) es
      selected t begun es t' e = (
        sym (ap (λ x. x.1) e) ∙ begun,
        (let which : select_pending unlocked batch_size (rows t) ≡ es = cc in
            subst (λ xs. All (Stands (rows w.db)) xs) which
              (All-select_pending (Stands (rows w.db)) unlocked batch_size (rows t) (
                subst (λ x. All (Stands (rows w.db)) (rows x)) (sym begun)
                  (All-Stand (rows w.db) h.unique)))),
      )

  -- A batch, in whatever order its events are processed and whichever calls fail, keeps the outbox
  -- sound: an event is marked as processed only after it was sent.
  pub process_batch-Sound :
      (arrange : List OutboxEvent → List OutboxEvent)
      → ((P : OutboxEvent → Type 0) (es : List OutboxEvent) → All P es → All P (arrange es))
      → (batch_size lock_timeout : ℕ) (w : World D) → Sound s process_event p w.db
      → Sound s process_event p (process_batch s process_event arrange batch_size lock_timeout w).db
  unfolding process_batch process_claimed
  process_batch-Sound arrange arranges batch_size lock_timeout w h =
      by_claim (Service.claim_outbox_events s batch_size lock_timeout w)
        (claim_outbox_events-Claimed batch_size lock_timeout w h)
    where
      by_claim :
          (r : Result (List OutboxEvent) × World D)
          → DonePost w.db Claimed r
          → Sound s process_event p (process_claimed s process_event arrange r).db
      by_claim (err e, w') k = subst (Sound s process_event p) (sym k.done) h
      by_claim (ok [], w') k = k.done.0
      by_claim (ok (e ∷ es), w') k =
          mark_outcome-Sound s process_event p arrange w' _
            (process_all-Progressed s process_event p arrange (arrange (e ∷ es)) _ w'
              (arranges (Stands (rows w'.db)) (e ∷ es) k.done.1) tt)
            k.done.0
