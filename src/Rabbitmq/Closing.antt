-- ===== src/Rabbitmq/Closing.antt =====
-- `Close` of pkg/rabbitmq/subscriber.go, and a `Subscribe` that it overtakes.
use mini_wallet.Base.{
  ℕ, List, [], ◌∷◌, true, false, ◌==◌, ◌≡◌, refl, sym, ap, ◌∙◌, subst, any, reject, All, All-reject,
  arith,
}
use mini_wallet.RichError.{Error, wrapped}
use mini_wallet.Sql.{World, Result, ok, err, exec, or_else, raise_if, ◌>>◌, ◌>>=◌, sql}
use mini_wallet.Sql.Calls.{exec-db, or_else-db}
use mini_wallet.Rabbitmq.Names.{QueueNames}
use mini_wallet.Rabbitmq.Worker.{WorkerConfig}
use mini_wallet.Rabbitmq.Subscriber.{
  ConsumerGroup, Subscriber, without_channel, close_channel, cancelling, close_group, close_groups,
  shut, close_open, close, admit, subscribe, err_closed, consume, start_workers, channel, or_close,
  append_group, group_on,
}
use mini_wallet.Rabbitmq.Lifecycle.{
  Held, owned, close_channel-db, without_channel-Held, closing-backed,
}
use mini_wallet.Rabbitmq.Subscribing.{Working, Consumes}

-- While `Close` runs, the channels of these groups are still to be closed.
record Leaving (p : ℕ) (gs : List ConsumerGroup) (d : Subscriber) : Type 0 where
  held : Held gs d
  ended : d.closed ≡ true
  publish : d.publish_ch ≡ p

cancelling-Leaving :
    (p : ℕ) (gs : List ConsumerGroup) (g : ConsumerGroup) (d : Subscriber)
    → Leaving p gs d
    → Leaving p gs (cancelling g d).1
cancelling-Leaving p gs g d l = record {
  held = record {
    channels = l.held.channels;
    backed =
        All-reject (λ x. any (λ c. c == x.ch) d.channels ≡ true) (λ x. x.tag == g.tag) d.consuming
          l.held.backed;
  };
  ended = l.ended;
  publish = l.publish;
}

close_group-Leaving :
    (p : ℕ) (gs : List ConsumerGroup) (g : ConsumerGroup) (w : World Subscriber)
    → Leaving p (g ∷ gs) w.db
    → Leaving p gs (close_group g w).1.db
unfolding close_group
close_group-Leaving p gs g w l = or_else-db (Leaving p gs) (close_channel g.ch) _ w₁ (
    subst (Leaving p gs) (sym (close_channel-db g.ch w₁)) (record {
      held = without_channel-Held g gs w₁.db l₁.held;
      ended = l₁.ended;
      publish = l₁.publish;
    }))
  where
    w₁ : World Subscriber
    w₁ = (or_else (exec (cancelling g)) (wrapped "rabbitmq: cancel consumer") w).1

    l₁ : Leaving p (g ∷ gs) w₁.db
    l₁ =
        or_else-db (Leaving p (g ∷ gs)) (exec (cancelling g)) _ w
          (exec-db (Leaving p (g ∷ gs)) (cancelling g) w l (cancelling-Leaving p (g ∷ gs) g w.db l))

close_groups-Leaving :
    (p : ℕ) (gs : List ConsumerGroup) (errs : List Error) (w : World Subscriber)
    → Leaving p gs w.db
    → Leaving p [] (close_groups gs errs w).1.db
unfolding close_groups
close_groups-Leaving p [] errs w l = l
close_groups-Leaving p (g ∷ gs) errs w l =
    close_groups-Leaving p gs _ _ (close_group-Leaving p gs g w l)

only_this : (p : ℕ) (cs : List ℕ) → All (λ c. owned p [] c ≡ true) cs → reject (λ c. c == p) cs ≡ []
only_this p [] h = refl
only_this p (c ∷ cs) h = ground (arith, h.0, only_this p cs h.1)

none_backed :
    (gs : List ConsumerGroup) (cs : List ℕ)
    → cs ≡ []
    → All (λ g. any (λ c. c == g.ch) cs ≡ true) gs
    → gs ≡ []
none_backed [] cs e h = refl
none_backed (g ∷ gs) cs e h =
    let absurd_open : false ≡ true = ap (any (λ c. c == g.ch)) (sym e) ∙ h.0 in cc

-- A closed subscriber, with no channel open and nothing that consumes.
abbrev pub Ended : Subscriber → Type 0
Ended d = (d.closed ≡ true) × (d.channels ≡ []) × (d.consuming ≡ [])

last_channel : (p : ℕ) (d : Subscriber) → Leaving p [] d → Ended (without_channel p d)
last_channel p d l =
    (l.ended, none, none_backed _ _ none (closing-backed p d.channels d.consuming l.held.backed))
  where
    none : reject (λ c. c == p) d.channels ≡ []
    none =
        only_this p d.channels
          (subst (λ x. All (λ c. owned x [] c ≡ true) d.channels) l.publish l.held.channels)

close_open-Ended : (w : World Subscriber) → Held w.db.consumers w.db → Ended (close_open w).1.db
unfolding close_open
close_open-Ended w h = or_else-db Ended (close_channel w.db.publish_ch) _ w₁ (
    subst Ended (sym (close_channel-db w.db.publish_ch w₁)) (
      last_channel w.db.publish_ch w₁.db (
        close_groups-Leaving w.db.publish_ch w.db.consumers [] (record w { db = shut w.db })
          (record {
            held = record { channels = h.channels; backed = h.backed };
            ended = refl;
            publish = refl;
          }))))
  where
    w₁ : World Subscriber
    w₁ = (close_groups w.db.consumers [] (record w { db = shut w.db })).1

close-Ended : (w : World Subscriber) → Working w.db → Ended (close w).1.db
unfolding close
close-Ended w working = rw working.0 (close_open-Ended w working.1)

close_again : (w : World Subscriber) → w.db.closed ≡ true → close w ≡ (ok tt, w)
unfolding close
close_again w h = rw h refl

subscribe_refused :
    (cfg : WorkerConfig) (n : QueueNames) (tag : ℕ) (w : World Subscriber)
    → w.db.closed ≡ true
    → subscribe cfg n tag w ≡ (err err_closed, w)
unfolding subscribe admit raise_if ◌>>◌ ◌>>=◌
subscribe_refused cfg n tag w h = rw h refl

-- `Close` ends a subscriber that has no channels but its own, whichever calls fail: no channel is
-- open any more and nothing consumes. Closed again it returns nil, and asked to subscribe it
-- returns `ErrClosed`; neither changes anything.
pub close_outcome :
    (cfg : WorkerConfig) (n : QueueNames) (tag : ℕ) (w : World Subscriber)
    → Working w.db
    → Ended (close w).1.db
      × (close (close w).1 ≡ (ok tt, (close w).1))
      × (subscribe cfg n tag (close w).1 ≡ (err err_closed, (close w).1))
close_outcome cfg n tag w working =
    let ended = close-Ended w working in
    (ended, close_again (close w).1 ended.0, subscribe_refused cfg n tag (close w).1 ended.0)

-- A subscriber that is closed and yet consumes, and that closing does not change.
abbrev pub Leaking : QueueNames → Result (Unit {0}) × World Subscriber → Type 0
Leaking n r =
    (r.0 ≡ ok tt) × (r.1.db.closed ≡ true) × Consumes n r.1.db × (close r.1 ≡ (ok tt, r.1))

consume_closed :
    (cfg : WorkerConfig) (n : QueueNames) (tag : ℕ) (w : World Subscriber)
    → w.db.closed ≡ true
    → Leaking n (consume cfg n tag (record w { faults = [] }))
unfolding consume start_workers channel or_close append_group sql
consume_closed cfg n tag w h =
    (refl, h, (group_on cfg n tag w.db.next, w.db.consuming, refl, refl), close_again _ h)

-- A `Subscribe` that has found the subscriber open, and goes on when `Close` has ended it and no
-- later call fails, returns nil and leaves a consumer on the queue, though the subscriber is closed
-- and closing it again does nothing.
pub late_subscribe_leaks :
    (cfg : WorkerConfig) (n : QueueNames) (tag : ℕ) (w : World Subscriber)
    → Working w.db
    → (close w).1.faults ≡ []
    → (admit w ≡ (ok tt, w)) × Leaking n (consume cfg n tag (close w).1)
unfolding admit raise_if
late_subscribe_leaks cfg n tag w working quiet = (
  rw working.0 refl,
  subst (λ fs. Leaking n (consume cfg n tag (record (close w).1 { faults = fs }))) (sym quiet)
      (consume_closed cfg n tag (close w).1 (close-Ended w working).0),
)
