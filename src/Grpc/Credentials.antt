-- ===== src/Grpc/Credentials.antt =====
-- `New` of pkg/grpc/server.go and `NewClient` of pkg/grpc/client.go with their credentials. What os,
-- crypto/tls, crypto/x509 and google.golang.org/grpc do is the record `Tls`; times are in seconds.
-- The options that are the same on every branch, the interceptors and the keepalive times, are
-- left out.
use text.Mathlib.Text.{◌==◌ as str_eq}
use mini_wallet.Base.{
  ℕ, List, [], ◌∷◌, Option, none, some, Bool, not, ◌||◌, String, ltb, if◌then◌else◌,
}
use mini_wallet.RichError.{Error, report, report_new, internal}
use mini_wallet.Sql.{Result, ok, err}

-- `NotBefore` and `NotAfter`
pub record Validity : Type 0 where
  pub not_before : ℕ
  pub not_after : ℕ

pub record Tls : Type 0 where
  -- `os.Stat` with `os.IsNotExist`, and `os.ReadFile`
  pub stat : String → Error
  pub is_not_exist : Error → Bool
  pub read_file : String → Result (List ℕ)
  -- `tls.LoadX509KeyPair`, whose certificates are the chain, and `x509.ParseCertificate`
  pub load_x509_key_pair : String → String → Result (List (List ℕ))
  pub parse_certificate : List ℕ → Result Validity
  -- `AppendCertsFromPEM` of an empty pool
  pub append_certs_from_pem : List ℕ → Bool
  -- `fmt.Sprintf("%s:%d", ...)`, and what `grpc.NewClient` reports
  pub address : String → ℕ → String
  pub new_client_error : String → Option Error

-- `tls.Config` of a server; the version is that of TLS 1.2, 0x0303, and no client is asked for a
-- certificate.
pub record ServerTls : Type 0 where
  pub certificates : List (List ℕ)
  pub min_version : ℕ

pub record Config : Type 0 where
  pub port : ℕ
  pub tls_enabled : Bool
  pub tls_cert_path : String
  pub tls_key_path : String

pub record RpcServer : Type 0 where
  pub config : Config
  pub creds : Option ServerTls

abbrev load_failed : {A : Type 0} → Error → String → Result A
load_failed e m = err (report "grpc.loadServerTLSCredentials" e m internal)

abbrev refused : {A : Type 0} → String → Result A
refused m = err (report_new "grpc.loadServerTLSCredentials" m internal)

-- The check of the validity period, and the configuration.
unfoldable pub checked : ℕ → List (List ℕ) → Result Validity → Result ServerTls
checked now chain (err e) = load_failed e "failed to parse certificate"
checked now chain (ok v) =
    if ltb now v.not_before
    then refused "certificate not yet valid"
    else if ltb v.not_after now
    then refused "certificate has expired"
    else ok (record { certificates = chain; min_version = 0x0303 })

module _ (lib : Tls) where
  unfoldable pub loaded : ℕ → Result (List (List ℕ)) → Result ServerTls
  unfolding checked
  loaded now (err e) = load_failed e "failed to load key pair"
  loaded now (ok []) = refused "certificate chain is empty"
  loaded now (ok (c ∷ cs)) = checked now (c ∷ cs) (lib.parse_certificate c)

  unfoldable pub load_server_tls_credentials : ℕ → Config → Result ServerTls
  unfolding loaded
  load_server_tls_credentials now cfg =
      if str_eq cfg.tls_cert_path "" || str_eq cfg.tls_key_path ""
      then refused "TLS enabled but certificate or key path not provided"
      else if lib.is_not_exist (lib.stat cfg.tls_cert_path)
      then load_failed (lib.stat cfg.tls_cert_path) "certificate file not found"
      else if lib.is_not_exist (lib.stat cfg.tls_key_path)
      then load_failed (lib.stat cfg.tls_key_path) "key file not found"
      else loaded now (lib.load_x509_key_pair cfg.tls_cert_path cfg.tls_key_path)

  abbrev pub with_creds : Config → Result ServerTls → Result RpcServer
  with_creds cfg (err e) = err (report "grpc.New" e "failed to load TLS credentials" internal)
  with_creds cfg (ok t) = ok (record { config = cfg; creds = some t })

  -- `New`, at a time
  unfoldable pub new : ℕ → Config → Result RpcServer
  unfolding load_server_tls_credentials
  new now cfg =
      if cfg.tls_enabled
      then with_creds cfg (load_server_tls_credentials now cfg)
      else ok (record { config = cfg; creds = none })

-- `tls.Config` of a client; `root_cas` says whether a pool of its own is set.
pub record ClientTls : Type 0 where
  pub server_name : String
  pub insecure_skip_verify : Bool
  pub root_cas : Option (List ℕ)

pub record Client : Type 0 where
  pub host : String
  pub port : ℕ
  pub tls_enabled : Bool
  pub tls_cert_path : String
  pub insecure_skip_verify : Bool

abbrev client_tls : Client → Option (List ℕ) → ClientTls
client_tls cfg pool = record {
  server_name = cfg.host;
  insecure_skip_verify = cfg.insecure_skip_verify;
  root_cas = pool;
}

module _ (lib : Tls) where
  abbrev pooled : Client → Result (List ℕ) → Result ClientTls
  pooled cfg (err e) =
      err (report "grpc.loadTLSCredentials" e "failed to read CA certificate" internal)
  pooled cfg (ok pem) =
      if not (lib.append_certs_from_pem pem)
      then err
          (report_new "grpc.loadTLSCredentials" "failed to add CA certificate to pool" internal)
      else ok (client_tls cfg (some pem))

  unfoldable pub load_tls_credentials : Client → Result ClientTls
  load_tls_credentials cfg =
      if str_eq cfg.tls_cert_path ""
      then ok (client_tls cfg none)
      else pooled cfg (lib.read_file cfg.tls_cert_path)

  -- `none` stands for the insecure credentials.
  abbrev dialled : Client → Option ClientTls → Result (Option ClientTls)
  dialled cfg creds = elim (lib.new_client_error (lib.address cfg.host cfg.port)) [
    | none ↦ ok creds
    | some e ↦ err (report "grpc.NewConnection" e "failed to create gRPC client" internal)
  ]

  abbrev dialled_with : Client → Result ClientTls → Result (Option ClientTls)
  dialled_with cfg (err e) =
      err (report "grpc.NewConnection" e "failed to load TLS credentials" internal)
  dialled_with cfg (ok t) = dialled cfg (some t)

  unfoldable pub new_client : Client → Result (Option ClientTls)
  unfolding load_tls_credentials
  new_client cfg =
      if cfg.tls_enabled then dialled_with cfg (load_tls_credentials cfg) else dialled cfg none
