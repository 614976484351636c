-- ===== src/App.antt =====
-- `Application.Start` of internal/auth/app.go, internal/notification/app.go and
-- internal/wallet/app.go: what each starts in its WaitGroup, and what it does between the signal to
-- stop and its return. `grpcServer.Stop` is `GracefulStop` without a deadline and returns
-- when no RPC is being answered any more; the other calls after the signal are taken to return,
-- whatever they report: the source logs their errors. A goroutine that the WaitGroup counts ends, and `wg.Wait()` ends when
-- all have; the steps of `Start` and of the goroutines interleave.
pub mod Runs
pub mod Stopping
mod Tests
use mini_wallet.Base.{
  ℕ, zero, suc, not, List, [], ◌∷◌, ◌++◌, Option, none, some, Bool, true, false, ◌==◌, ◌||◌, ◌≡◌,
  any,
}

-- The calls by which `Start` stops what runs; `cancel` is that of its own context.
pub data Call : Type 0 where
  stop_http : Call
  stop_grpc : Call
  close_user_publisher : Call
  close_notification_publisher : Call
  close_device_publisher : Call
  close_subscriber : Call
  close_hub : Call
  worker_cancel : Call
  http_cancel : Call
  sub_cancel : Call
  cancel : Call

abbrev code : Call → ℕ
code stop_http = 0
code stop_grpc = 1
code close_user_publisher = 2
code close_notification_publisher = 3
code close_device_publisher = 4
code close_subscriber = 5
code close_hub = 6
code worker_cancel = 7
code http_cancel = 8
code sub_cancel = 9
code cancel = 10

pub data Goroutine : Type 0 where
  -- `hub.StartListener(ctx)` and `hub.StartHeartbeat(ctx)`
  start_listener : Goroutine
  start_heartbeat : Goroutine
  -- `Subscribe`, which starts its workers and returns
  subscribe : Goroutine
  run_http : Goroutine
  serve_grpc : Goroutine
  -- `worker.Start(workerCtx)`
  start_worker : Goroutine

-- The call that makes the goroutine return, where one has to: its loop ends only by its context, or
-- the server is told to stop.
abbrev pub ended_by : Goroutine → Option Call
ended_by start_listener = some cancel
ended_by start_heartbeat = some cancel
ended_by subscribe = none
ended_by run_http = some stop_http
ended_by serve_grpc = some stop_grpc
ended_by start_worker = some worker_cancel

-- A server returns also where it cannot listen.
abbrev pub may_fail : Goroutine → Bool
may_fail run_http = true
may_fail serve_grpc = true
may_fail start_listener = false
may_fail start_heartbeat = false
may_fail subscribe = false
may_fail start_worker = false

abbrev pub has : Call → List Call → Bool
has c cs = any (λ m. code m == code c) cs

abbrev pub ended_in : List Call → Option Call → Bool
ended_in made none = true
ended_in made (some c) = has c made

-- Whether the goroutine can return once these calls are made.
abbrev pub can_end : List Call → Goroutine → Bool
can_end made g = may_fail g || ended_in made (ended_by g)

-- The body of a `Start`: its calls between the signal and `wg.Wait()`, those that it defers, in the
-- order in which they run, and the goroutines of its WaitGroup.
pub record Body : Type 0 where
  pub calls : List Call
  pub deferred : List Call
  pub goroutines : List Goroutine
  -- the RPCs that the gRPC server takes in before it is stopped
  pub rpcs : ℕ

abbrev pub auth_start : ℕ → Body
auth_start rpcs = record {
  calls =
      stop_http ∷ stop_grpc ∷ close_user_publisher ∷ close_notification_publisher
      ∷ close_device_publisher ∷ worker_cancel ∷ [];
  deferred = http_cancel ∷ worker_cancel ∷ [];
  goroutines = run_http ∷ serve_grpc ∷ start_worker ∷ [];
  rpcs = rpcs;
}

abbrev pub notification_start : Body
notification_start = record {
  calls =
      stop_http ∷ close_notification_publisher ∷ close_subscriber ∷ close_hub ∷ worker_cancel ∷ [];
  deferred = sub_cancel ∷ http_cancel ∷ worker_cancel ∷ cancel ∷ [];
  goroutines = start_listener ∷ start_heartbeat ∷ subscribe ∷ run_http ∷ start_worker ∷ [];
  rpcs = 0;
}

abbrev pub wallet_start : Body
wallet_start = record {
  calls = stop_http ∷ close_subscriber ∷ [];
  deferred = sub_cancel ∷ http_cancel ∷ [];
  goroutines = subscribe ∷ run_http ∷ [];
  rpcs = 0;
}

pub record State : Type 0 where
  pub signalled : Bool
  -- the calls that `Start` has still to make before `wg.Wait()`, and those that it has made
  pub left : List Call
  pub made : List Call
  -- the goroutines that the WaitGroup counts
  pub running : List Goroutine
  -- the RPCs that are not answered yet
  pub pending : ℕ
  pub returned : Bool

abbrev pub started : Body → State
started b = record {
  signalled = false;
  left = b.calls;
  made = [];
  running = b.goroutines;
  pending = b.rpcs;
  returned = false;
}

-- Whether the call can return while so many RPCs are pending.
abbrev pub can_return : ℕ → Call → Bool
can_return zero c = true
can_return (suc k) c = not (code stop_grpc == code c)

pub data Step (b : Body) : State → State → Type 0 where
  signals : {s : State} → s.signalled ≡ false → Step b s (record s { signalled = true })
  calls_next :
      {s : State} (c : Call) (cs : List Call)
      → s.signalled ≡ true
      → s.left ≡ c ∷ cs
      → can_return s.pending c ≡ true
      → Step b s (record s { left = cs; made = c ∷ s.made })
  answers : {s : State} (k : ℕ) → s.pending ≡ suc k → Step b s (record s { pending = k })
  ends :
      {s : State} (before : List Goroutine) (g : Goroutine) (after : List Goroutine)
      → s.running ≡ before ++ g ∷ after
      → can_end s.made g ≡ true
      → Step b s (record s { running = before ++ after })
  returns :
      {s : State}
      → s.signalled ≡ true
      → s.left ≡ []
      → s.running ≡ []
      → s.returned ≡ false
      → Step b s (record s { made = b.deferred ++ s.made; returned = true })

-- A run of so many steps.
pub data Run (b : Body) : ℕ → State → Type 0 where
  begin : Run b 0 (started b)
  step : {n m : ℕ} {s t : State} → Run b n s → Step b s t → m ≡ suc n → Run b m t
