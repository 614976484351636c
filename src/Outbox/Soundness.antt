-- ===== src/Outbox/Soundness.antt =====
-- When an outbox is sound, and that its statements keep it so (internal/auth/workers/outbox, and
-- internal/notification/workers/outbox): an event is marked as processed only after it was published.
use mini_wallet.Base.{
  ℕ, ◌==◌, Bool, true, some, List, [], ◌∷◌, String, find, update, All, ◌≡◌, refl, sym, ap, ◌∙◌,
  subst, if◌then◌else◌, Bool-cases, inl, inr, arith, ==_iff,
}
use mini_wallet.Sql.{World, Action, pure, at_now}
use mini_wallet.Sql.Calls.{Post, exec-db, or_else-db}
use mini_wallet.Outbox.Table.{OutboxEvent, is_processed, has_id, id_in, Store}
use mini_wallet.Outbox.Repository
use mini_wallet.Outbox.Repository.{
  claim, finish, release, finished_at, released, claimed_until, select_pending, changing,
}
use mini_wallet.Outbox.Content.{
  content, UniqueEvents, UniqueEvents-update, Keeping, changed, find-update_cases, find_id,
  changed_same,
}
use mini_wallet.Outbox.Service

-- What a service's outbox promises: where its table is, what it is to have sent an event of some
-- type and payload, and that `ProcessEvent` leaves the table, forgets nothing that was sent, and has
-- sent the event where it returns nil.
pub record Publishes {D : Type 0} (s : Store D) (process_event : OutboxEvent → Action D (Unit {0}))
    : Type 1 where
  pub Sent : String × List ℕ → D → Type 0
  pub rows-with_rows : (d : D) (es : List OutboxEvent) → s.rows (s.with_rows d es) ≡ es
  pub Sent-with_rows :
      (c : String × List ℕ) (d : D) (es : List OutboxEvent) → Sent c d → Sent c (s.with_rows d es)
  pub sends :
      (e : OutboxEvent) (w : World D)
      → Post
          (λ _ w'.
            (s.rows w'.db ≡ s.rows w.db)
            × ((c : String × List ℕ) → Sent c w.db → Sent c w'.db)
            × Sent (content e) w'.db)
          (λ _ w'.
            (s.rows w'.db ≡ s.rows w.db) × ((c : String × List ℕ) → Sent c w.db → Sent c w'.db))
          (process_event e w)

module _ {D : Type 0} (s : Store D) (process_event : OutboxEvent → Action D (Unit {0}))
    (p : Publishes s process_event) where
  open s use {rows, with_rows}
  open p use {Sent, rows-with_rows, Sent-with_rows, sends}

  -- The ids of the events are a key of the table, and every event that is marked as processed was
  -- sent.
  pub record Sound (d : D) : Type 0 where
    pub unique : UniqueEvents (rows d)
    pub sent :
        (k : ℕ) (r : OutboxEvent)
        → find (has_id k) (rows d) ≡ some r
        → is_processed r.status ≡ true
        → Sent (content r) d

  -- The event of this id, if any, was sent.
  abbrev pub SentId : D → ℕ → Type 0
  SentId d k = (r : OutboxEvent) → find (has_id k) (rows d) ≡ some r → Sent (content r) d

  abbrev if_else : Bool → OutboxEvent → OutboxEvent → OutboxEvent
  if_else b x y = if b then x else y

  pub update-Sound :
      (q : OutboxEvent → Bool) (f : OutboxEvent → OutboxEvent) (d : D)
      → Keeping f
      → ((k : ℕ) (x : OutboxEvent)
          → find (has_id k) (rows d) ≡ some x
          → q x ≡ true
          → is_processed (f x).status ≡ true
          → Sent (content x) d)
      → Sound d
      → Sound (with_rows d (update q f (rows d)))
  update-Sound q f d keep now_sent h = record {
    unique =
        subst UniqueEvents (sym (rows-with_rows d _))
          (UniqueEvents-update q f (rows d) keep h.unique);
    sent = λ k r found done.
        let (x, old, made) =
          find-update_cases q f k (rows d) r keep
            (subst (λ es. find (has_id k) es ≡ some r) (rows-with_rows d _) found) in
        let of_x : Sent (content x) d =
          by_case k x old (subst (λ y. is_processed y.status ≡ true) made done) in
        Sent-with_rows _ d _
          (subst (λ c. Sent c d) (sym (ap content made ∙ (changed_same q f keep x).1)) of_x);
  }
    where
      by_case :
          (k : ℕ) (x : OutboxEvent)
          → find (has_id k) (rows d) ≡ some x
          → is_processed (changed q f x).status ≡ true
          → Sent (content x) d
      by_case k x old done = elim (Bool-cases (q x)) [
        | inl hit ↦
            now_sent k x old hit
              (subst (λ b. is_processed (if_else b (f x) x).status ≡ true) hit done)
        | inr miss ↦
            h.sent k x old (subst (λ b. is_processed (if_else b (f x) x).status ≡ true) miss done)
      ]

  pub claim-Sound :
      (ids : List ℕ) (until : ℕ) (d : D) → Sound d → Sound (with_rows d (claim ids until (rows d)))
  unfolding claim
  claim-Sound ids until d h =
      update-Sound (id_in ids) (claimed_until until) d (λ e. (refl, refl)) (λ k x old hit done. cc)
        h

  release-Sound : (ids : List ℕ) (d : D) → Sound d → Sound (with_rows d (release ids (rows d)))
  unfolding release
  release-Sound ids d h =
      update-Sound (id_in ids) released d (λ e. (refl, refl)) (λ k x old hit done. cc) h

  sent_of_ids :
      (ids : List ℕ) (d : D) (k : ℕ) (x : OutboxEvent)
      → All (SentId d) ids
      → find (has_id k) (rows d) ≡ some x
      → id_in ids x ≡ true
      → Sent (content x) d
  sent_of_ids [] d k x all old hit = cc
  sent_of_ids (i ∷ is) d k x all old hit = elim (Bool-cases (x.event_id == i)) [
    | inl here ↦ all.0 x (
        subst (λ (j : ℕ). find (has_id j) (rows d) ≡ some x)
          (sym (find_id k (rows d) x old) ∙ (==_iff x.event_id i).0 here) old)
    | inr later ↦ sent_of_ids is d k x all.1 old (ground arith)
  ]

  finish-Sound :
      (ids : List ℕ) (now : ℕ) (d : D)
      → All (SentId d) ids
      → Sound d
      → Sound (with_rows d (finish ids now (rows d)))
  unfolding finish
  finish-Sound ids now d all h =
      update-Sound (id_in ids) (finished_at now) d (λ e. (refl, refl))
        (λ k x old hit done. sent_of_ids ids d k x all old hit) h

  pub marked_processed-Sound :
      (ids : List ℕ) (w : World D)
      → All (SentId w.db) ids
      → Sound w.db
      → Sound (Service.mark_events_processed s ids w).1.db
  unfolding Service.mark_events_processed Repository.mark_outbox_events_processed pure at_now
  marked_processed-Sound [] w all h = h
  marked_processed-Sound (k ∷ ks) w all h = or_else-db Sound _ _ w (
      or_else-db Sound _ _ w (
        exec-db Sound (changing s (finish (k ∷ ks) w.now)) w h
          (finish-Sound (k ∷ ks) w.now w.db all h)))

  pub marked_failed-Sound :
      (ids : List ℕ) (w : World D) → Sound w.db → Sound (Service.mark_events_failed s ids w).1.db
  unfolding Service.mark_events_failed Repository.mark_outbox_events_failed pure
  marked_failed-Sound [] w h = h
  marked_failed-Sound (k ∷ ks) w h = or_else-db Sound _ _ w (
      or_else-db Sound _ _ w
        (exec-db Sound (changing s (release (k ∷ ks))) w h (release-Sound (k ∷ ks) w.db h)))
