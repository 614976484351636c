-- ===== src/Rabbitmq/Routing.antt =====
-- Where a message that a worker rejects goes by what pkg/rabbitmq/topology.go declares: the main
-- queue's dead-letter address leads to the retry queue, and the retry queue's, when the message
-- expires, should lead back. The broker routes a message to the queues that are bound to its
-- exchange by a key that matches the message's; on a direct exchange equal keys match, and on a
-- topic exchange a pattern does, which is a parameter.
use Prim.Native.String.{String, ◌++◌ as join}
use text.Mathlib.Text.{◌==◌ as str_eq}
use text.Mathlib.TextPositions.{eq_refl}
use mini_wallet.Base.{
  ℕ, List, [], ◌∷◌, ◌++◌, Bool, true, false, ◌&&◌, ◌||◌, ◌≡◌, refl, ap, ◌∙◌, subst, any, All,
  All-map, none, some, arith, if◌then◌else◌,
}
use mini_wallet.Sql.{World, Result, ok}
use mini_wallet.Rabbitmq.Names.{build_names}
use mini_wallet.Rabbitmq.Topology.{
  Declaration, exchange, queue, binding, declare_direct, declare_topic, TopicBinding,
}
use mini_wallet.Rabbitmq.Subscriber.{direct_names, topic_names}
use mini_wallet.Rabbitmq.Declared.{
  Adds, direct_plan, topic_queue_plan, topic_bindings_plan, topic_plan, declare_direct_plan,
  declare_topic_plan,
}

-- Whether a binding takes a message for this exchange and key to a queue with such a name.
abbrev pub takes : (String → String → Bool) → String → String → (String → Bool) → Declaration → Bool
takes matches from key into (exchange name kind) = false
takes matches from key into (queue name ttl address) = false
takes matches from key into (binding q pattern e) = str_eq e from && (matches pattern key && into q)

abbrev pub any_queue : String → Bool
any_queue q = true

-- Whether a queue is one whose messages expire, with a name as given, and with a dead-letter address
-- as given.
abbrev pub expires_to : (String → Bool) → (String → String → Bool) → Declaration → Bool
expires_to named leads (exchange name kind) = false
expires_to named leads (queue name none address) = false
expires_to named leads (queue name (some ttl) none) = false
expires_to named leads (queue name (some ttl) (some a)) = named name && leads a.0 a.1
expires_to named leads (binding q pattern e) = false

-- Whether these declarations have a retry queue with this name, and what expires there goes to a queue
-- with such a name.
abbrev pub returns :
    (String → String → Bool) → (String → Bool) → (String → Bool) → List Declaration → Bool
returns matches retry into ds =
    any (expires_to retry (λ from key. any (takes matches from key into) ds)) ds

any-append :
    (p : Declaration → Bool) (xs ys : List Declaration) → any p (xs ++ ys) ≡ (any p xs || any p ys)
any-append p [] ys = refl
any-append p (x ∷ xs) ys = ground (arith, any-append p xs ys)

-- No pattern that the binding's queues are bound by matches this key.
abbrev pub Apart : (String → String → Bool) → String → TopicBinding → Type 0
Apart matches key b =
    (matches b.routing_key key ≡ false)
    × (matches (join b.queue_base ".retry.queue") key ≡ false)
    × (matches (join b.queue_base ".dlq") key ≡ false)

neither :
    (p : Declaration → Bool) (xs ys : List Declaration)
    → any p xs ≡ false
    → any p ys ≡ false
    → any p (xs ++ ys) ≡ false
neither p xs ys h k = ground (arith, any-append p xs ys, h, k)

module _ (event_name : String) (ttl : ℕ) where
  abbrev bound : TopicBinding → Declaration
  bound b =
      binding (build_names event_name b.queue_base).main_queue b.routing_key
        (join event_name ".exchange")

  -- What none of the queues of a base and no binding is, none of the declarations is.
  nowhere :
      (p : Declaration → Bool) (seen : List String) (bs : List TopicBinding)
      → All
          (λ b.
            (any p (topic_queue_plan event_name ttl b.queue_base) ≡ false)
            × (any p (bound b ∷ []) ≡ false))
          bs
      → any p (topic_bindings_plan event_name ttl seen bs) ≡ false
  nowhere p seen [] h = refl
  nowhere p seen (b ∷ bs) h =
      neither p
        ((if any (str_eq b.queue_base) seen
            then []
            else topic_queue_plan event_name ttl b.queue_base)
          ++ bound b ∷ [])
        (topic_bindings_plan event_name ttl (b.queue_base ∷ seen) bs)
        (neither p
          (if any (str_eq b.queue_base) seen
            then []
            else topic_queue_plan event_name ttl b.queue_base)
          (bound b ∷ []) (first (any (str_eq b.queue_base) seen)) h.0.1)
        (nowhere p (b.queue_base ∷ seen) bs h.1)
    where
      first :
          (known : Bool)
          → any p (if known then [] else topic_queue_plan event_name ttl b.queue_base) ≡ false
      first true = refl
      first false = h.0.0

  module _ (matches : String → String → Bool) (from key : String) where
    abbrev taken : Declaration → Bool
    taken = takes matches from key any_queue

    binding-Apart :
        (b : TopicBinding)
        → Apart matches key b
        → (any taken (topic_queue_plan event_name ttl b.queue_base) ≡ false)
          × (any taken (bound b ∷ []) ≡ false)
    binding-Apart b h = (ground (arith, h.1, h.2), ground (arith, h.0))

    topic_plan-Apart :
        (bs : List TopicBinding)
        → All (Apart matches key) bs
        → any taken (topic_plan event_name ttl bs) ≡ false
    topic_plan-Apart bs h = nowhere taken [] bs (All-map (Apart matches key) _ binding-Apart bs h)

  -- The retry queues of a topic have the addresses that these lead nowhere.
  topic_plan-ends :
      (leads : String → String → Bool) (bs : List TopicBinding)
      → All (λ b. leads (join event_name ".exchange") (join b.queue_base ".queue") ≡ false) bs
      → any (expires_to any_queue leads) (topic_plan event_name ttl bs) ≡ false
  topic_plan-ends leads bs h = nowhere (expires_to any_queue leads) [] bs (
      All-map (λ b. leads (join event_name ".exchange") (join b.queue_base ".queue") ≡ false) _
        (λ b e. (ground (arith, e), refl)) bs h)

-- After `DeclareDirect`, a rejected message comes back to the main queue from the retry queue.
direct_returns :
    (event_name : String) (ttl : ℕ)
    → returns str_eq
        (str_eq (direct_names event_name).retry_queue)
        (str_eq (direct_names event_name).main_queue)
        (direct_plan event_name ttl)
      ≡ true
direct_returns event_name ttl = ground (
  arith,
  eq_refl (join event_name ".exchange"),
  eq_refl (join event_name ".queue"),
  eq_refl (join event_name ".retry.queue"),
)

added :
    (ds : List Declaration) (w w' : World (List Declaration)) (u : Unit {0})
    (r : Result (Unit {0}) × World (List Declaration))
    → r ≡ (ok u, w')
    → Adds ds w r
    → w.db ≡ []
    → w'.db ≡ ds
added ds w w' u r e h empty =
    let h' : Adds ds w (ok u, w') = subst (Adds ds w) e h in h'.holds ∙ ap (λ l. l ++ ds) empty

-- Whether a retry queue of this name is among the declarations.
abbrev pub has_retry : String → List Declaration → Bool
has_retry name ds = any (expires_to (str_eq name) (λ from key. true)) ds

-- On a broker with no declarations before: where `DeclareDirect` has returned nil, what expires in the
-- retry queue goes by the queue's dead-letter address back to the main queue. Where `DeclareTopic`
-- has returned nil, its first queue has a retry queue too, but nothing that expires in any retry queue
-- goes to any queue, so it is lost: that is if none of the patterns by which queues are bound, those
-- of the configuration and the names of the retry and dead-letter queues, matches a main queue's name.
pub retries_return :
    (matches : String → String → Bool) (event_name : String) (ttl : ℕ) (b : TopicBinding)
    (bs : List TopicBinding) (w w₁ w₂ : World (List Declaration)) (u : Unit {0})
    → w.db ≡ []
    → All (λ c. All (Apart matches (join c.queue_base ".queue")) (b ∷ bs)) (b ∷ bs)
    → declare_direct event_name ttl w ≡ (ok u, w₁)
    → declare_topic event_name ttl (b ∷ bs) w ≡ (ok u, w₂)
    → (returns str_eq
          (str_eq (direct_names event_name).retry_queue)
          (str_eq (direct_names event_name).main_queue)
          w₁.db
        ≡ true)
      × (has_retry (topic_names event_name b.queue_base).retry_queue w₂.db ≡ true)
      × (returns matches any_queue any_queue w₂.db ≡ false)
retries_return matches event_name ttl b bs w w₁ w₂ u empty apart direct topic = (
  ap
        (returns str_eq (str_eq (direct_names event_name).retry_queue)
          (str_eq (direct_names event_name).main_queue))
        (added (direct_plan event_name ttl) w w₁ u _ direct (declare_direct_plan event_name ttl w)
          empty)
      ∙ direct_returns event_name ttl,
  ap (has_retry (topic_names event_name b.queue_base).retry_queue) declared
      ∙ ground (arith, eq_refl (join b.queue_base ".retry.queue")),
  ap (returns matches any_queue any_queue) declared
      ∙ topic_plan-ends event_name ttl leads (b ∷ bs) (
          All-map (λ c. All (Apart matches (join c.queue_base ".queue")) (b ∷ bs)) _
            (λ c h.
              topic_plan-Apart event_name ttl matches (join event_name ".exchange")
                (join c.queue_base ".queue") (b ∷ bs) h)
            (b ∷ bs) apart),
)
  where
    declared : w₂.db ≡ topic_plan event_name ttl (b ∷ bs)
    declared =
        added (topic_plan event_name ttl (b ∷ bs)) w w₂ u _ topic
          (declare_topic_plan event_name ttl (b ∷ bs) w) empty

    leads : String → String → Bool
    leads from key = any (takes matches from key any_queue) (topic_plan event_name ttl (b ∷ bs))
