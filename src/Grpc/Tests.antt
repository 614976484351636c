-- ===== src/Grpc/Tests.antt =====
-- Calls and a certificate, on which the theorems about pkg/grpc are applied.
use mini_wallet.Base.{[], ◌∷◌, true, false, none, some, ◌≡◌, ◌↔◌, refl, matching, ℕ, if◌then◌else◌}
use mini_wallet.RichError.{nil, plain}
use mini_wallet.Sql.{is_nil}
use mini_wallet.Grpc.Interceptors.{
  Interceptors, returned, panicked, unary_server_interceptor, stream_server_interceptor,
}
use mini_wallet.Sql.{ok}
use mini_wallet.Grpc.Credentials.{Tls, Config, RpcServer, new}
use mini_wallet.Grpc.Certificates.{Shows, new_iff}
use mini_wallet.Grpc.Telemetry.{
  is_metrics, is_end, receives, closes_send, on_calls, receive_all, server_interceptors_measure,
  client_stream_measures,
}

abbrev measured : Interceptors
measured = record { metrics = true; status_code = λ e. if is_nil e then "OK" else "Unknown" }

server_interceptors_measure_example :
    (matching is_metrics
        (unary_server_interceptor measured {A = ℕ} "/auth.v1/GetUserSessions" panicked).1
      ≡ 0)
    × (matching is_end
          (unary_server_interceptor measured {A = ℕ} "/auth.v1/GetUserSessions" panicked).1
        ≡ 1)
    × (matching is_metrics
          (stream_server_interceptor measured "/auth.v1/GetUserSessions"
            (returned none (plain "lost"))).1
        ≡ 1)
    × (matching is_end
          (stream_server_interceptor measured "/auth.v1/GetUserSessions"
            (returned none (plain "lost"))).1
        ≡ 1)
    × ((unary_server_interceptor measured {A = ℕ} "/auth.v1/GetUserSessions" panicked).0
        ≡ (unary_server_interceptor measured "/auth.v1/GetUserSessions" (returned none nil)).0)
server_interceptors_measure_example =
    server_interceptors_measure {A = ℕ} measured "/auth.v1/GetUserSessions" panicked
      (returned none (plain "lost"))

client_stream_measures_example :
    (matching is_end (on_calls measured "/s" (receives (plain "EOF") ∷ closes_send nil ∷ [])) ≡ 2)
    × (matching is_metrics (on_calls measured "/s" (receives (plain "EOF") ∷ closes_send nil ∷ []))
        ≡ 2)
    × (matching is_end (on_calls measured "/s" (closes_send nil ∷ receive_all 3 (plain "EOF"))) ≡ 2)
    × (matching is_metrics (on_calls measured "/s" (closes_send nil ∷ receive_all 3 (plain "EOF")))
        ≡ 2)
client_stream_measures_example =
    client_stream_measures measured "/s" (receives (plain "EOF") ∷ closes_send nil ∷ []) 3
      (plain "EOF") refl refl

-- A key pair whose one certificate is valid from 100 to 200.
abbrev tls : Tls
tls = record {
  stat = λ path. nil;
  is_not_exist = λ e. false;
  read_file = λ path. ok (1 ∷ []);
  load_x509_key_pair = λ cert key. ok ((7 ∷ []) ∷ []);
  parse_certificate = λ c. ok (record { not_before = 100; not_after = 200 });
  append_certs_from_pem = λ pem. true;
  address = λ host port. host;
  new_client_error = λ address. none;
}

abbrev serving : Config
serving = record {
  port = 9090;
  tls_enabled = true;
  tls_cert_path = "server.crt";
  tls_key_path = "server.key";
}

abbrev server : RpcServer
server = record {
  config = serving;
  creds = some (record { certificates = (7 ∷ []) ∷ []; min_version = 0x0303 });
}

new_iff_example : (new tls 150 serving ≡ ok server) ↔ Shows tls 150 serving server
new_iff_example = new_iff tls 150 serving server refl
