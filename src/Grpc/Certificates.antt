-- ===== src/Grpc/Certificates.antt =====
-- Which certificates `New` of pkg/grpc/server.go accepts.
use text.Mathlib.Text.{◌==◌ as str_eq}
use mini_wallet.Base.{
  ℕ, ◌≤◌, List, [], ◌∷◌, none, some, Bool, true, false, ◌||◌, ◌≡◌, ◌↔◌, refl, ap, sym, ◌∙◌, ltb,
  arith, Bool-cases, inl, inr, if◌then◌else◌,
}
use mini_wallet.Sql.{Result, ok, err}
use mini_wallet.Grpc.Credentials.{
  Validity, Tls, ServerTls, Config, RpcServer, checked, loaded, load_server_tls_credentials, new,
  with_creds,
}

-- The certificate and the key are named and there, the chain has a first certificate that is valid
-- now, and the server shows that chain by TLS 1.2 or later.
pub record Shows (lib : Tls) (now : ℕ) (cfg : Config) (s : RpcServer) : Type 0 where
  pub named : (str_eq cfg.tls_cert_path "" || str_eq cfg.tls_key_path "") ≡ false
  pub present :
      (lib.is_not_exist (lib.stat cfg.tls_cert_path) ≡ false)
      × (lib.is_not_exist (lib.stat cfg.tls_key_path) ≡ false)
  pub first : List ℕ
  pub others : List (List ℕ)
  pub pair : lib.load_x509_key_pair cfg.tls_cert_path cfg.tls_key_path ≡ ok (first ∷ others)
  pub validity : Validity
  pub parsed : lib.parse_certificate first ≡ ok validity
  pub in_time : (validity.not_before ≤ now) × (now ≤ validity.not_after)
  pub server : s ≡ record {
    config = cfg;
    creds = some (record { certificates = first ∷ others; min_version = 0x0303 });
  }

abbrev shown_as : List (List ℕ) → ServerTls
shown_as chain = record { certificates = chain; min_version = 0x0303 }

checked_in_time :
    (now : ℕ) (chain : List (List ℕ)) (v : Validity)
    → v.not_before ≤ now
    → now ≤ v.not_after
    → checked now chain (ok v) ≡ ok (shown_as chain)
unfolding checked
checked_in_time now chain v h k = ground arith

in_time_checked :
    (now : ℕ) (chain : List (List ℕ)) (r : Result Validity) (t : ServerTls)
    → checked now chain r ≡ ok t
    → (v : Validity) × (r ≡ ok v)
      × ((v.not_before ≤ now) × (now ≤ v.not_after))
      × (t ≡ shown_as chain)
unfolding checked
in_time_checked now chain (err e) t h = cc
in_time_checked now chain (ok v) t h = elim (Bool-cases (ltb now v.not_before)) [
  | inl early ↦ absurd (ground (arith, early, h))
  | inr begun ↦ elim (Bool-cases (ltb v.not_after now)) [
    | inl late ↦ absurd (ground (arith, begun, late, h))
    | inr lasts ↦
        (v, refl, (ground (arith, begun), ground (arith, lasts)), ground (arith, begun, lasts, h))
  ]
]

module _ (lib : Tls) (now : ℕ) where
  first_loaded :
      (r : Result (List (List ℕ))) (t : ServerTls)
      → loaded lib now r ≡ ok t
      → (c : List ℕ) × (cs : List (List ℕ)) × (r ≡ ok (c ∷ cs))
        × (checked now (c ∷ cs) (lib.parse_certificate c) ≡ ok t)
  unfolding loaded
  first_loaded (err e) t h = cc
  first_loaded (ok []) t h = cc
  first_loaded (ok (c ∷ cs)) t h = (c, cs, refl, h)

  abbrev Present : Config → Type 0
  Present cfg =
      ((str_eq cfg.tls_cert_path "" || str_eq cfg.tls_key_path "") ≡ false)
      × ((lib.is_not_exist (lib.stat cfg.tls_cert_path) ≡ false)
          × (lib.is_not_exist (lib.stat cfg.tls_key_path) ≡ false))

  pair_loaded :
      (cfg : Config) (t : ServerTls)
      → load_server_tls_credentials lib now cfg ≡ ok t
      → Present cfg
        × (loaded lib now (lib.load_x509_key_pair cfg.tls_cert_path cfg.tls_key_path) ≡ ok t)
  unfolding load_server_tls_credentials
  pair_loaded cfg t h =
      go (str_eq cfg.tls_cert_path "" || str_eq cfg.tls_key_path "")
        (lib.is_not_exist (lib.stat cfg.tls_cert_path))
        (lib.is_not_exist (lib.stat cfg.tls_key_path)) refl refl refl
    where
      go :
          (a b c : Bool)
          → (str_eq cfg.tls_cert_path "" || str_eq cfg.tls_key_path "") ≡ a
          → lib.is_not_exist (lib.stat cfg.tls_cert_path) ≡ b
          → lib.is_not_exist (lib.stat cfg.tls_key_path) ≡ c
          → Present cfg
            × (loaded lib now (lib.load_x509_key_pair cfg.tls_cert_path cfg.tls_key_path) ≡ ok t)
      go true b c x y z = absurd (ground (arith, x, h))
      go false true c x y z = absurd (ground (arith, x, y, h))
      go false false true x y z = absurd (ground (arith, x, y, z, h))
      go false false false x y z = ((x, (y, z)), ground (arith, x, y, z, h))

module _ (lib : Tls) (now : ℕ) (cfg : Config) (s : RpcServer) where
  creds_shown :
      (v : Shows lib now cfg s)
      → load_server_tls_credentials lib now cfg ≡ ok (shown_as (v.first ∷ v.others))
  unfolding load_server_tls_credentials loaded
  creds_shown v =
      rw (v.named, v.present.0, v.present.1, v.pair, v.parsed)
        (checked_in_time now (v.first ∷ v.others) v.validity v.in_time.0 v.in_time.1)

  shown : cfg.tls_enabled ≡ true → Shows lib now cfg s → new lib now cfg ≡ ok s
  unfolding new
  shown on v =
      ap
        (λ b.
          if b
          then with_creds lib cfg (load_server_tls_credentials lib now cfg)
          else ok (record { config = cfg; creds = none }))
        on
      ∙ ap (with_creds lib cfg) (creds_shown v)
      ∙ ap ok (sym v.server)

  of_creds :
      (r : Result ServerTls)
      → with_creds lib cfg r ≡ ok s
      → (t : ServerTls) × (r ≡ ok t) × (s ≡ record { config = cfg; creds = some t })
  of_creds (err e) h = cc
  of_creds (ok t) h = (t, refl, cc)

  shows : cfg.tls_enabled ≡ true → new lib now cfg ≡ ok s → Shows lib now cfg s
  unfolding new
  shows on e =
      let c = of_creds (load_server_tls_credentials lib now cfg) (ground (arith, on, e)) in
      let p = pair_loaded lib now cfg c.0 c.1 in
      let f = first_loaded lib now _ c.0 p.1 in
      let v = in_time_checked now (f.0 ∷ f.1) (lib.parse_certificate f.0) c.0 f.3 in
      record {
        named = p.0.0;
        present = p.0.1;
        first = f.0;
        others = f.1;
        pair = f.2;
        validity = v.0;
        parsed = v.1;
        in_time = v.2;
        server = c.2 ∙ ap (λ t. record { config = cfg; creds = some t }) v.3;
      }

-- With TLS enabled, `New` makes a server exactly where the certificate and the key are named and
-- there, and the first certificate of the chain is valid at the time; the server shows that chain,
-- by TLS 1.2 or later.
pub new_iff :
    (lib : Tls) (now : ℕ) (cfg : Config) (s : RpcServer)
    → cfg.tls_enabled ≡ true
    → (new lib now cfg ≡ ok s) ↔ Shows lib now cfg s
new_iff lib now cfg s on = (shows lib now cfg s on, shown lib now cfg s on)
