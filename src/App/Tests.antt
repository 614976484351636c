-- ===== src/App/Tests.antt =====
-- Runs of `Start`, on which the theorems about it are applied.
use mini_wallet.Base.{◌≤◌, [], ◌∷◌, true, false, ◌≡◌, refl}
use mini_wallet.App.{
  stop_http, stop_grpc, close_user_publisher, close_notification_publisher, close_device_publisher,
  close_subscriber, close_hub, worker_cancel, http_cancel, sub_cancel, start_listener,
  start_heartbeat, subscribe, run_http, start_worker, notification_start, State, Run, begin, step,
  signals, calls_next, ends,
}
use mini_wallet.App.Stopping.{notification_hangs}

abbrev blocked : State
blocked = record {
  signalled = true;
  left = [];
  made =
      worker_cancel ∷ close_hub ∷ close_subscriber ∷ close_notification_publisher ∷ stop_http ∷ [];
  running = start_listener ∷ start_heartbeat ∷ [];
  pending = 0;
  returned = false;
}

blocked-Run : Run notification_start 9 blocked
blocked-Run =
    step
      (step
        (step
          (step
            (step
              (step
                (step
                  (step (step begin (signals refl) refl)
                    (calls_next stop_http
                      (close_notification_publisher ∷ close_subscriber ∷ close_hub ∷ worker_cancel
                        ∷ [])
                      refl refl refl)
                    refl)
                  (calls_next close_notification_publisher
                    (close_subscriber ∷ close_hub ∷ worker_cancel ∷ []) refl refl refl)
                  refl)
                (calls_next close_subscriber (close_hub ∷ worker_cancel ∷ []) refl refl refl) refl)
              (calls_next close_hub (worker_cancel ∷ []) refl refl refl) refl)
            (calls_next worker_cancel ([]) refl refl refl) refl)
          (ends (start_listener ∷ start_heartbeat ∷ []) subscribe (run_http ∷ start_worker ∷ [])
            refl refl)
          refl)
        (ends (start_listener ∷ start_heartbeat ∷ []) run_http (start_worker ∷ []) refl refl) refl)
      (ends (start_listener ∷ start_heartbeat ∷ []) start_worker ([]) refl refl) refl

notification_hangs_example : (9 ≤ 11) × (blocked.returned ≡ false)
notification_hangs_example = notification_hangs 9 blocked blocked-Run

abbrev auth_ended : State
auth_ended = record {
  signalled = true;
  left = [];
  made =
      http_cancel ∷ worker_cancel ∷ worker_cancel ∷ close_device_publisher
      ∷ close_notification_publisher ∷ close_user_publisher ∷ stop_grpc ∷ stop_http ∷ [];
  running = [];
  pending = 0;
  returned = true;
}

abbrev wallet_ended : State
wallet_ended = record {
  signalled = true;
  left = [];
  made = sub_cancel ∷ http_cancel ∷ close_subscriber ∷ stop_http ∷ [];
  running = [];
  pending = 0;
  returned = true;
}
