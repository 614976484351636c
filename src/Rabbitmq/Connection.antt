-- ===== src/Rabbitmq/Connection.antt =====
-- pkg/rabbitmq/connection.go: the connection to the broker and the goroutine that makes it anew. AMQP
-- connections are numbers in the order in which they are made; what `amqp.Dial` and the broker do is
-- an argument. A read of `NotifyClose` gives nil where the connection was closed by `Close`; where it
-- was lost, an error, or nil if it was lost before the read began. The goroutine's steps interleave with the losses and with `Close`.
use mini_wallet.Base.{
  ℕ, suc, List, [], ◌∷◌, Bool, true, false, ◌==◌, ◌||◌, ◌≡◌, any, reject, if◌then◌else◌,
}
use mini_wallet.RichError.{Error, nil, plain, wrapped}
use mini_wallet.Sql.{is_nil}

-- Where `watchReconnect` is: before it loads the connection, at its read of `NotifyClose`, before a
-- pass of the inner loop, or past its return.
pub data Watcher : Type 0 where
  loading : Watcher
  listening : ℕ → Watcher
  retrying : Watcher
  returned : Watcher

pub record Connection : Type 0 where
  pub conn : ℕ
  pub closed : Bool
  -- the AMQP connections that are open, and those that `Close` has closed
  pub alive : List ℕ
  pub clean : List ℕ
  pub next : ℕ
  pub watcher : Watcher

abbrev pub is_in : ℕ → List ℕ → Bool
is_in k ks = any (λ x. x == k) ks

-- `connect`, with what `amqp.Dial` reports
unfoldable pub connect : Error → Connection → Error × Connection
connect dialled c =
    if is_nil dialled
    then (nil, record c { conn = c.next; alive = c.next ∷ c.alive; next = suc c.next })
    else (wrapped "rabbitmq: dial" dialled, c)

abbrev unconnected : Connection
unconnected = record {
  conn = 0;
  closed = false;
  alive = [];
  clean = [];
  next = 0;
  watcher = loading;
}

-- `NewConnection`, which starts the watcher where it could connect
unfoldable pub new_connection : Error → Error × Connection
unfolding connect
new_connection dialled = connect dialled unconnected

-- The outer loop of `watchReconnect`, to its read.
unfoldable pub load : Connection → Connection
load c = record c { watcher = if c.closed then returned else listening c.conn }

-- What follows the read of `NotifyClose`.
unfoldable pub notified : Error → Connection → Connection
notified reason c = record c { watcher = if is_nil reason || c.closed then returned else retrying }

abbrev pub after_dial : Error × Connection → Connection
after_dial (e, c) = record c { watcher = if is_nil e then loading else retrying }

-- A pass of the inner loop.
unfoldable pub retry : Error → Connection → Connection
unfolding connect
retry dialled c =
    if c.closed then record c { watcher = returned } else after_dial (connect dialled c)

-- The broker or the network ends a connection.
abbrev pub lose : ℕ → Connection → Connection
lose k c = record c { alive = reject (λ x. x == k) c.alive }

-- `Close`
unfoldable pub close : Connection → Error × Connection
close c =
    if is_in c.conn c.alive
    then (nil, record (lose c.conn c) { clean = c.conn ∷ c.clean })
    else (wrapped "rabbitmq: close connection" (plain "channel/connection is not open"), c)

pub data Step : Connection → Connection → Type 0 where
  loads : {c : Connection} → c.watcher ≡ loading → Step c (load c)
  loses : {c : Connection} (k : ℕ) → Step c (lose k c)
  reads :
      {c : Connection} (k : ℕ) (reason : Error)
      → c.watcher ≡ listening k
      → is_in k c.alive ≡ false
      → (is_in k c.clean ≡ true → is_nil reason ≡ true)
      → Step c (notified reason c)
  retries : {c : Connection} (dialled : Error) → c.watcher ≡ retrying → Step c (retry dialled c)
  closes : {c : Connection} → Step c (close c).1

pub data Reachable : Connection → Type 0 where
  start : (dialled : Error) → is_nil dialled ≡ true → Reachable (new_connection dialled).1
  after : {c d : Connection} → Reachable c → Step c d → Reachable d
