-- ===== src/Rabbitmq/Declared.antt =====
-- What the topology declares (pkg/rabbitmq/topology.go), as a list that is written down apart from
-- the calls, and where its messages go.
use Prim.Native.String.{String, ◌++◌ as join}
use text.Mathlib.Text.{◌==◌ as str_eq}
use mini_wallet.Base.{
  ℕ, List, [], ◌∷◌, ◌++◌, none, some, ◌≡◌, refl, sym, ap, ◌∙◌, any, Bool, true, false,
  if◌then◌else◌, ◌⊎◌,
}
use mini_wallet.RichError.{Error}
use mini_wallet.Sql.{World, Result, ok, err, ◌>>◌, pure, or_else, exec, is_nil}
use mini_wallet.Sql.Calls.{Post, then-Post, or_else-Post, pure-Post, exec-Post}
use mini_wallet.Rabbitmq.Names.{QueueNames, build_names}
use mini_wallet.Rabbitmq.Topology.{
  Declaration, exchange, queue, binding, Declaring, declare, declare_direct, declare_fanout,
  fanout_queues, declare_topic, topic_queue, topic_bindings, TopicBinding,
}

-- An action that returns nil has added exactly these declarations.
abbrev pub Adds :
    List Declaration
    → World (List Declaration)
    → Result (Unit {0}) × World (List Declaration)
    → Type 0
Adds ds w r = Post (λ _ w'. w'.db ≡ w.db ++ ds) (λ _ _. Unit) r

append_assoc : (xs ys zs : List Declaration) → (xs ++ ys) ++ zs ≡ xs ++ (ys ++ zs)
append_assoc [] ys zs = refl
append_assoc (x ∷ xs) ys zs = ap (λ l. x ∷ l) (append_assoc xs ys zs)

append_nil : (xs : List Declaration) → xs ++ [] ≡ xs
append_nil [] = refl
append_nil (x ∷ xs) = ap (λ l. x ∷ l) (append_nil xs)

strengthened :
    (w w₁ : World (List Declaration)) (xs ys : List Declaration)
    (r : Result (Unit {0}) × World (List Declaration))
    → w₁.db ≡ w.db ++ xs
    → Adds ys w₁ r
    → Adds (xs ++ ys) w r
strengthened w w₁ xs ys (ok _, w₂) e h = record {
  holds = h.holds ∙ ap (λ l. l ++ ys) e ∙ append_assoc w.db xs ys;
}
strengthened w w₁ xs ys (err x, w₂) e h = record { holds = tt }

then-Adds :
    (m k : Declaring) (xs ys : List Declaration) (w : World (List Declaration))
    → Adds xs w (m w)
    → ((w' : World (List Declaration)) → Adds ys w' (k w'))
    → Adds (xs ++ ys) w ((m >> k) w)
then-Adds m k xs ys w h next =
    then-Post m k w h (λ e w' _. tt) λ _ w₁ e. strengthened w w₁ xs ys (k w₁) e (next w₁)

abbrev issue : Declaration → List Declaration → Result (Unit {0}) × List Declaration
issue d ds = (ok tt, ds ++ d ∷ [])

added :
    (d : Declaration) (w : World (List Declaration))
    (r : Result (Unit {0}) × World (List Declaration))
    → Post
        (λ a w'. (issue d w.db ≡ (ok a, w'.db)) × (w'.tx ≡ w.tx) × (w'.now ≡ w.now))
        (λ e w'. ((w'.db ≡ w.db) × (is_nil e ≡ false)) ⊎ (issue d w.db ≡ (err e, w'.db)))
        r
    → Adds (d ∷ []) w r
added d w (ok a, w') h = record { holds = sym (ap (λ x. x.1) h.holds.0) }
added d w (err e, w') h = record { holds = tt }

declare-Adds : (d : Declaration) (w : World (List Declaration)) → Adds (d ∷ []) w (declare d w)
unfolding declare
declare-Adds d w = added d w (exec _ w) (exec-Post _ w)

bind-Adds :
    (d : Declaration) (f : Error → Error) (w : World (List Declaration))
    → Adds (d ∷ []) w (or_else (declare d) f w)
bind-Adds d f w = or_else-Post _ f w (declare-Adds d w) (λ e w' _. tt)

pure-Adds : (w : World (List Declaration)) → Adds [] w (pure tt w)
pure-Adds w = pure-Post tt w (sym (append_nil w.db))

also :
    {xs ys : List Declaration} (m k : Declaring)
    → ((w : World (List Declaration)) → Adds xs w (m w))
    → ((w : World (List Declaration)) → Adds ys w (k w))
    → (w : World (List Declaration)) → Adds (xs ++ ys) w ((m >> k) w)
also {xs} {ys} m k h next w = then-Adds m k xs ys w (h w) next

-- The queues of one name: rejected messages go to the retry queue by `retry_exchange`, expired ones to
-- the same exchange under the main queue's name, and the dead-letter queue keeps its messages.
abbrev pub queues : QueueNames → String → ℕ → List Declaration
queues n retry_exchange retry_ttl =
    queue n.main_queue none (some (retry_exchange, n.retry_queue))
    ∷ queue n.retry_queue (some retry_ttl) (some (retry_exchange, n.main_queue))
    ∷ queue n.dlq none none
    ∷ []

abbrev pub direct_plan : String → ℕ → List Declaration
direct_plan event_name retry_ttl =
    let n = build_names event_name event_name in
    (exchange n.main_exchange "direct" ∷ exchange n.dlx_exchange "direct" ∷ [])
    ++ queues n n.main_exchange retry_ttl
    ++ binding n.main_queue n.main_queue n.main_exchange
      ∷ binding n.retry_queue n.retry_queue n.main_exchange
      ∷ binding n.dlq n.dlq n.dlx_exchange
      ∷ []

-- `DeclareDirect`, where it returns nil, has declared exactly the plan: the exchanges before the
-- queues, these before their bindings, and each dead-letter address one that is bound.
pub declare_direct_plan :
    (event_name : String) (retry_ttl : ℕ) (w : World (List Declaration))
    → Adds (direct_plan event_name retry_ttl) w (declare_direct event_name retry_ttl w)
unfolding declare_direct
declare_direct_plan event_name retry_ttl =
    also _ _
      (also _ _
        (also _ _
          (also _ _
            (also _ _ (also _ _ (also _ _ (declare-Adds _) (declare-Adds _)) (declare-Adds _))
              (declare-Adds _))
            (declare-Adds _))
          (bind-Adds _ _))
        (bind-Adds _ _))
      (bind-Adds _ _)

abbrev pub fanout_queues_plan : String → ℕ → List String → List Declaration
fanout_queues_plan event_name retry_ttl [] = []
fanout_queues_plan event_name retry_ttl (queue_base ∷ bases) =
    let n = build_names event_name queue_base in
    let retry_exchange = join event_name ".retry.exchange" in
    (queues n retry_exchange retry_ttl
      ++ binding n.main_queue "" (join event_name ".exchange")
        ∷ binding n.retry_queue n.retry_queue retry_exchange
        ∷ binding n.dlq n.dlq (join event_name ".dlx")
        ∷ [])
    ++ fanout_queues_plan event_name retry_ttl bases

abbrev pub fanout_plan : String → ℕ → List String → List Declaration
fanout_plan event_name retry_ttl bases =
    exchange (join event_name ".exchange") "fanout"
    ∷ exchange (join event_name ".retry.exchange") "direct"
    ∷ exchange (join event_name ".dlx") "direct"
    ∷ fanout_queues_plan event_name retry_ttl bases

fanout_queues-Adds :
    (event_name : String) (retry_ttl : ℕ) (bases : List String) (w : World (List Declaration))
    → Adds
        (fanout_queues_plan event_name retry_ttl bases)
        w
        (fanout_queues event_name retry_ttl bases w)
unfolding fanout_queues
fanout_queues-Adds event_name retry_ttl [] = pure-Adds
fanout_queues-Adds event_name retry_ttl (queue_base ∷ bases) =
    also _ _
      (also _ _
        (also _ _
          (also _ _ (also _ _ (also _ _ (declare-Adds _) (declare-Adds _)) (declare-Adds _))
            (bind-Adds _ _))
          (bind-Adds _ _))
        (bind-Adds _ _))
      (fanout_queues-Adds event_name retry_ttl bases)

-- `DeclareFanout`, where it returns nil, has declared exactly the plan: the three exchanges, and for
-- each queue base its queues and their bindings, with the retry exchange as the dead-letter address.
declare_fanout_plan :
    (event_name : String) (retry_ttl : ℕ) (bases : List String) (w : World (List Declaration))
    → Adds (fanout_plan event_name retry_ttl bases) w (declare_fanout event_name retry_ttl bases w)
unfolding declare_fanout
declare_fanout_plan event_name retry_ttl bases =
    also _ _ (also _ _ (also _ _ (declare-Adds _) (declare-Adds _)) (declare-Adds _))
      (fanout_queues-Adds event_name retry_ttl bases)

abbrev pub topic_queue_plan : String → ℕ → String → List Declaration
topic_queue_plan event_name retry_ttl queue_base =
    let n = build_names event_name queue_base in
    queues n (join event_name ".exchange") retry_ttl
    ++ binding n.retry_queue n.retry_queue (join event_name ".exchange")
      ∷ binding n.dlq n.dlq (join event_name ".dlx")
      ∷ []

-- The bindings in order, and before the first of a queue base its queues; the third argument is the
-- bases seen.
abbrev pub topic_bindings_plan : String → ℕ → List String → List TopicBinding → List Declaration
topic_bindings_plan event_name retry_ttl seen [] = []
topic_bindings_plan event_name retry_ttl seen (b ∷ bs) =
    ((if any (str_eq b.queue_base) seen
        then []
        else topic_queue_plan event_name retry_ttl b.queue_base)
      ++ binding (build_names event_name b.queue_base).main_queue b.routing_key
          (join event_name ".exchange")
        ∷ [])
    ++ topic_bindings_plan event_name retry_ttl (b.queue_base ∷ seen) bs

abbrev pub topic_plan : String → ℕ → List TopicBinding → List Declaration
topic_plan event_name retry_ttl bs =
    exchange (join event_name ".exchange") "topic"
    ∷ exchange (join event_name ".dlx") "direct"
    ∷ topic_bindings_plan event_name retry_ttl [] bs

topic_queue-Adds :
    (event_name : String) (retry_ttl : ℕ) (queue_base : String) (w : World (List Declaration))
    → Adds
        (topic_queue_plan event_name retry_ttl queue_base)
        w
        (topic_queue event_name retry_ttl queue_base w)
unfolding topic_queue
topic_queue-Adds event_name retry_ttl queue_base =
    also _ _
      (also _ _ (also _ _ (also _ _ (declare-Adds _) (declare-Adds _)) (declare-Adds _))
        (bind-Adds _ _))
      (bind-Adds _ _)

first_time-Adds :
    (known : Bool) (event_name : String) (retry_ttl : ℕ) (queue_base : String)
    (w : World (List Declaration))
    → Adds
        (if known then [] else topic_queue_plan event_name retry_ttl queue_base)
        w
        ((if known then pure tt else topic_queue event_name retry_ttl queue_base) w)
first_time-Adds true event_name retry_ttl queue_base = pure-Adds
first_time-Adds false event_name retry_ttl queue_base =
    topic_queue-Adds event_name retry_ttl queue_base

topic_bindings-Adds :
    (event_name : String) (retry_ttl : ℕ) (seen : List String) (bs : List TopicBinding)
    (w : World (List Declaration))
    → Adds
        (topic_bindings_plan event_name retry_ttl seen bs)
        w
        (topic_bindings event_name retry_ttl seen bs w)
unfolding topic_bindings
topic_bindings-Adds event_name retry_ttl seen [] = pure-Adds
topic_bindings-Adds event_name retry_ttl seen (b ∷ bs) =
    also _ _
      (also _ _ (first_time-Adds (any (str_eq b.queue_base) seen) event_name retry_ttl b.queue_base)
        (bind-Adds _ _))
      (topic_bindings-Adds event_name retry_ttl (b.queue_base ∷ seen) bs)

-- `DeclareTopic`, where it returns nil, has declared exactly the plan: the queues of each base once,
-- before its first binding, and every binding of the configuration, in its order.
pub declare_topic_plan :
    (event_name : String) (retry_ttl : ℕ) (bs : List TopicBinding) (w : World (List Declaration))
    → Adds (topic_plan event_name retry_ttl bs) w (declare_topic event_name retry_ttl bs w)
unfolding declare_topic
declare_topic_plan event_name retry_ttl bs =
    also _ _ (also _ _ (declare-Adds _) (declare-Adds _))
      (topic_bindings-Adds event_name retry_ttl [] bs)
