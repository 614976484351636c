-- ===== src/Rabbitmq/Subscribing.antt =====
-- `Subscribe` of pkg/rabbitmq/subscriber.go, whichever calls of the AMQP library fail.

use mini_wallet.Base.{
  ℕ, suc, List, [], ◌∷◌, ◌++◌, true, false, ◌==◌, ◌≡◌, ◌⊎◌, inl, inr, refl, sym, ap, subst, any,
  arith,
}
use mini_wallet.RichError.{Error, wrapped}
use mini_wallet.Sql.{World, ok, err, is_nil, call, exec, or_else}
use mini_wallet.Sql.Calls.{
  Post, Same, bind-Post, then-Post, or_else-Post, pure-Post, weaker-Post, raise_if-Post, exec-Post,
  call-Post,
}
use mini_wallet.Rabbitmq.Names.{QueueNames}
use mini_wallet.Rabbitmq.Worker.{WorkerConfig}
use mini_wallet.Rabbitmq.Subscriber.{
  ConsumerGroup, Subscriber, channel, opened, delivers, group_on, start_workers, append_group,
  admit, consume, subscribe,
}
use mini_wallet.Rabbitmq.Lifecycle.{
  Held, Serving, or_close-Post, Serving-without, opened-Serving, delivered-Serving, appended-Held,
}

-- A subscriber that is not closed, whose channels are its own.
abbrev pub Working : Subscriber → Type 0
Working d = (d.closed ≡ false) × Held d.consumers d

module _ (cfg : WorkerConfig) (n : QueueNames) (tag : ℕ) (gs : List ConsumerGroup) where
  abbrev On : ℕ → World Subscriber → Type 0
  On c w = Serving gs (group_on cfg n tag c ∷ []) w.db × (any (λ x. x == c) w.db.channels ≡ true)

  abbrev Off : Error → World Subscriber → Type 0
  Off e w = Serving gs [] w.db

  channel-Post :
      (w : World Subscriber)
      → Serving gs [] w.db
      → Post On Off (or_else channel (wrapped "rabbitmq: open consume channel") w)
  unfolding channel
  channel-Post w s =
      or_else-Post _ _ w
        (or_else-Post _ _ w
          (weaker-Post (exec opened w) (exec-Post opened w) (λ c w' h. gained c w' h.0)
            (λ e w' h. lost e w' h))
          (λ e w' h. h))
        (λ e w' h. h)
    where
      gained : (c : ℕ) (w' : World Subscriber) → opened w.db ≡ (ok c, w'.db) → On c w'
      gained c w' e =
          let at : w.db.next ≡ c = ground (arith, e) in
          let made : w'.db
              ≡ record w.db { channels = w.db.next ∷ w.db.channels; next = suc w.db.next } =
            sym (ap (λ x. x.1) e) in
          (
            opened-Serving gs w.db w'.db (group_on cfg n tag c) s (sym at) made,
            subst (λ d. any (λ x. x == c) d.channels ≡ true) (sym made) (ground (arith, at)),
          )

      lost :
          (e : Error) (w' : World Subscriber)
          → ((w'.db ≡ w.db) × (is_nil e ≡ false)) ⊎ (opened w.db ≡ (err e, w'.db))
          → Off e w'
      lost e w' (inl h) = subst (Serving gs []) (sym h.0) s
      lost e w' (inr h) = cc

  qos-Post :
      (c : ℕ) (w : World Subscriber)
      → On c w
      → Post (λ _. On c) (λ e. On c) (or_else call (wrapped "rabbitmq: set qos") w)
  qos-Post c w on =
      or_else-Post _ _ w
        (weaker-Post (call w) (call-Post w) (λ _ w' same. moved w' same) (λ e w' h. moved w' h.0))
        (λ e w' h. h)
    where
      moved : (w' : World Subscriber) → Same w w' → On c w'
      moved w' same =
          subst
            (λ d. Serving gs (group_on cfg n tag c ∷ []) d × (any (λ x. x == c) d.channels ≡ true))
            (sym same.db) on

  delivers-Post :
      (c : ℕ) (w : World Subscriber)
      → On c w
      → Post
          (λ _ w'.
            Serving gs (group_on cfg n tag c ∷ []) w'.db
            × (w'.db.consuming ≡ group_on cfg n tag c ∷ w.db.consuming))
          (λ e w'. Serving gs (group_on cfg n tag c ∷ []) w'.db)
          (or_else (exec (delivers (group_on cfg n tag c))) (wrapped "rabbitmq: consume") w)
  delivers-Post c w on =
      or_else-Post _ _ w
        (weaker-Post (exec (delivers g) w) (exec-Post (delivers g) w) (λ u w' h. added u w' h.0)
          (λ e w' h. lost e w' h))
        (λ e w' h. h)
    where
      g : ConsumerGroup
      g = group_on cfg n tag c

      added :
          (u : Unit {0}) (w' : World Subscriber)
          → delivers (group_on cfg n tag c) w.db ≡ (ok u, w'.db)
          → Serving gs (group_on cfg n tag c ∷ []) w'.db
            × (w'.db.consuming ≡ group_on cfg n tag c ∷ w.db.consuming)
      added u w' e =
          let made : w'.db ≡ record w.db { consuming = group_on cfg n tag c ∷ w.db.consuming } =
            sym (ap (λ x. x.1) e) in
          (
            delivered-Serving gs w.db w'.db (group_on cfg n tag c) on.0 on.1 made,
            ap (λ d. d.consuming) made,
          )

      lost :
          (e : Error) (w' : World Subscriber)
          → ((w'.db ≡ w.db) × (is_nil e ≡ false))
            ⊎ (delivers (group_on cfg n tag c) w.db ≡ (err e, w'.db))
          → Serving gs (group_on cfg n tag c ∷ []) w'.db
      lost e w' (inl h) = subst (Serving gs (group_on cfg n tag c ∷ [])) (sym h.0) on.0
      lost e w' (inr h) = cc

  start_workers-Post :
      (w : World Subscriber)
      → Serving gs [] w.db
      → Post
          (λ g w'.
            Serving gs (g ∷ []) w'.db
            × ((c : ℕ) × (rest : List ConsumerGroup) × (g ≡ group_on cfg n tag c)
                × (w'.db.consuming ≡ g ∷ rest)))
          Off
          (start_workers cfg n tag w)
  unfolding start_workers
  start_workers-Post w s =
      bind-Post _ _ w (channel-Post w s) (λ e w' h. h)
        λ c w₁ on.
          then-Post _ _ w₁
            (or_close-Post c (or_else call (wrapped "rabbitmq: set qos")) w₁ (qos-Post c w₁ on)
              λ e w' h. Serving-without gs (group_on cfg n tag c) w' h.0)
            (λ e w' h. h)
            λ _ w₂ on₂.
              then-Post _ _ w₂
                (or_close-Post c
                  (or_else (exec (delivers (group_on cfg n tag c))) (wrapped "rabbitmq: consume"))
                  w₂ (delivers-Post c w₂ on₂)
                  λ e w' h. Serving-without gs (group_on cfg n tag c) w' h)
                (λ e w' h. h)
                λ _ w₃ h. pure-Post (group_on cfg n tag c) w₃ (h.0, (c, w₂.db.consuming, refl, h.1))

  appended :
      (g : ConsumerGroup) (w : World Subscriber)
      → Serving gs (g ∷ []) w.db
      → Working (append_group g w).1.db
  unfolding append_group
  appended g w s =
      let h : Held (gs ++ g ∷ []) w.db = appended-Held g gs w.db s.held in
      (
        s.going,
        subst (λ x. Held (x ++ g ∷ []) (append_group g w).1.db) (sym s.groups)
            (record { channels = h.channels; backed = h.backed }),
      )

abbrev pub Consumes : QueueNames → Subscriber → Type 0
Consumes n d =
    (g : ConsumerGroup) × (rest : List ConsumerGroup) × (d.consuming ≡ g ∷ rest)
    × (g.queue ≡ n.main_queue)

Serving-Working : (gs : List ConsumerGroup) (d : Subscriber) → Serving gs [] d → Working d
Serving-Working gs d s = (s.going, subst (λ x. Held x d) (sym s.groups) s.held)

consume-Post :
    (cfg : WorkerConfig) (n : QueueNames) (tag : ℕ) (w : World Subscriber)
    → Working w.db
    → Post (λ _ w'. Working w'.db × Consumes n w'.db) (λ _ w'. Working w'.db) (consume cfg n tag w)
unfolding consume append_group
consume-Post cfg n tag w working =
    bind-Post _ _ w
      (start_workers-Post cfg n tag w.db.consumers w
        (record { going = working.0; groups = refl; held = working.1 }))
      (λ e w' h. Serving-Working w.db.consumers w'.db h)
      λ g w' h. record {
        holds = (
          appended cfg n tag w.db.consumers g w' h.0,
          (g, h.1.1, h.1.3, ap (λ x. x.queue) h.1.2),
        );
      }

-- `Subscribe`, of a subscriber that is not closed and has no channels but its own, and whichever
-- calls fail, leaves it like that; where it returns nil, a new consumer group reads the queue.
subscribe_outcome :
    (cfg : WorkerConfig) (n : QueueNames) (tag : ℕ) (w : World Subscriber)
    → Working w.db
    → Post
        (λ _ w'. Working w'.db × Consumes n w'.db)
        (λ _ w'. Working w'.db)
        (subscribe cfg n tag w)
unfolding subscribe admit
subscribe_outcome cfg n tag w working =
    then-Post {Q = λ _ w'. Working w'.db} {F = λ _ w'. Working w'.db} _ _ w
      (raise_if-Post _ _ w (λ _. working) (λ _. working)) (λ e w' h. h)
      λ _ w₁ h. consume-Post cfg n tag w₁ h
