-- ===== src/Outbox/Batch.antt =====
-- What a batch does (`ProcessBatch` of internal/auth/workers/outbox, and of
-- internal/notification/workers/outbox): an event is marked as processed only after it was published.
use mini_wallet.Base.{
  ℕ, some, List, [], ◌∷◌, String, find, All, All-append, All-map, ◌≡◌, refl, sym, ◌∙◌, subst,
}
use mini_wallet.Sql.{World, Result, ok, err, Action}
use mini_wallet.Sql.Calls.{Post}
use mini_wallet.Outbox.Table.{OutboxEvent, has_id, Store}
use mini_wallet.Outbox.Content.{content, UniqueEvents, Stands}
use mini_wallet.Outbox.Worker.{Outcome, noted, process_all, mark_outcome}
use mini_wallet.Outbox.Soundness.{
  Publishes, Sound, SentId, marked_processed-Sound, marked_failed-Sound,
}

module _ {D : Type 0} (s : Store D) (process_event : OutboxEvent → Action D (Unit {0}))
    (p : Publishes s process_event) where
  open s use {rows}
  open p use {Sent, sends}

  -- What processing events has done: the table stands, nothing sent is forgotten, and the events
  -- noted as processed were sent.
  pub record Progressed (w : World D) (r : Outcome × World D) : Type 0 where
    rows_stand : rows r.1.db ≡ rows w.db
    still_sent : (c : String × List ℕ) → Sent c w.db → Sent c r.1.db
    all_sent : All (SentId s process_event p r.1.db) r.0.processed

  Sound-Progressed :
      (w : World D) (r : Outcome × World D)
      → Progressed w r
      → Sound s process_event p w.db
      → Sound s process_event p r.1.db
  Sound-Progressed w r g h = record {
    unique = subst UniqueEvents (sym g.rows_stand) h.unique;
    sent = λ k x found done.
        g.still_sent _
          (h.sent k x (subst (λ es. find (has_id k) es ≡ some x) g.rows_stand found) done);
  }

  module _ (arrange : List OutboxEvent → List OutboxEvent) where
    SentId-later :
        (d d' : D)
        → rows d' ≡ rows d
        → ((c : String × List ℕ) → Sent c d → Sent c d')
        → (k : ℕ) → SentId s process_event p d k
        → SentId s process_event p d' k
    SentId-later d d' e still k h x found =
        still _ (h x (subst (λ es. find (has_id k) es ≡ some x) e found))

    pub process_all-Progressed :
        (es : List OutboxEvent) (o : Outcome) (w : World D)
        → All (Stands (rows w.db)) es
        → All (SentId s process_event p w.db) o.processed
        → Progressed w (process_all s process_event arrange es o w)
    unfolding process_all
    process_all-Progressed [] o w stand all = record {
      rows_stand = refl;
      still_sent = λ c h. h;
      all_sent = all;
    }
    process_all-Progressed (e ∷ es) o w stand all =
        one (process_event e w) (sends e w) (λ o' w' st now. process_all-Progressed es o' w' st now)
      where
        Next : Type 0
        Next =
            (o' : Outcome) (w' : World D)
            → All (Stands (rows w'.db)) es
            → All (SentId s process_event p w'.db) o'.processed
            → Progressed w' (process_all s process_event arrange es o' w')

        chain :
            (next : Next) (o' : Outcome) (w' : World D)
            → rows w'.db ≡ rows w.db
            → ((c : String × List ℕ) → Sent c w.db → Sent c w'.db)
            → All (SentId s process_event p w'.db) o'.processed
            → Progressed w (process_all s process_event arrange es o' w')
        chain next o' w' same still now =
            let rest : Progressed w' (process_all s process_event arrange es o' w') =
              next o' w' (subst (λ rs. All (Stands rs) es) (sym same) stand.1) now in
            record {
              rows_stand = rest.rows_stand ∙ same;
              still_sent = λ c h. rest.still_sent c (still c h);
              all_sent = rest.all_sent;
            }

        kept :
            (w' : World D)
            → rows w'.db ≡ rows w.db
            → ((c : String × List ℕ) → Sent c w.db → Sent c w'.db)
            → All (SentId s process_event p w'.db) o.processed
        kept w' same still =
            All-map (SentId s process_event p w.db) (SentId s process_event p w'.db)
              (SentId-later w.db w'.db same still) o.processed all

        one :
            (r : Result (Unit {0}) × World D)
            → Post
                (λ _ w'.
                  (rows w'.db ≡ rows w.db)
                  × ((c : String × List ℕ) → Sent c w.db → Sent c w'.db)
                  × Sent (content e) w'.db)
                (λ _ w'.
                  (rows w'.db ≡ rows w.db) × ((c : String × List ℕ) → Sent c w.db → Sent c w'.db))
                r
            → Next
            → Progressed w (process_all s process_event arrange es (noted e.event_id r.0 o) r.1)
        one (ok _, w') h next = chain next _ w' h.holds.0 h.holds.1 (
            All-append (SentId s process_event p w'.db) o.processed (e.event_id ∷ [])
              (kept w' h.holds.0 h.holds.1)
              (
                λ x found.
                    subst (λ c. Sent c w'.db)
                      (sym (
                        stand.0 x
                          (subst (λ rs. find (has_id e.event_id) rs ≡ some x) h.holds.0 found)))
                      h.holds.2,
                tt,
              ))
        one (err x, w') h next = chain next _ w' h.holds.0 h.holds.1 (kept w' h.holds.0 h.holds.1)

    pub mark_outcome-Sound :
        (w : World D) (r : Outcome × World D)
        → Progressed w r
        → Sound s process_event p w.db
        → Sound s process_event p (mark_outcome s process_event arrange r).db
    unfolding mark_outcome
    mark_outcome-Sound w (o, w') g h = marked_failed-Sound s process_event p o.failed _ (
        marked_processed-Sound s process_event p o.processed w' g.all_sent
          (Sound-Progressed w (o, w') g h))
