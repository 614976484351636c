-- ===== src/Auth/Renewal.antt =====
-- `RefreshToken` (internal/auth/service/auth/service.go) and the `RotateRefreshToken` that it calls
-- (internal/auth/repository/auth.go) where every call goes through.
use mini_wallet.Base.{
  List, ◌+◌, ◌==◌, ℕ, [], Option, none, true, false, if◌then◌else◌, ◌≡◌, refl, ap, ◌∙◌, update, ltb,
}
use mini_wallet.Sql.{ok, err, at_now, returned, pure, required}
use mini_wallet.Sql.Steps.{
  bind_ok, then_ok, or_else_ok, rolling_back_ok, look_up_ok, tx_exec_ok, raise_if_ok, begin_tx_ok,
  commit_ok, returned_ok,
}
use mini_wallet.Auth.Tables.{Session, DeviceContext, Db, keys_hold}
use mini_wallet.Auth.Repository.Statements.{
  select_by_hash, renewed, renew_session, write_sessions, select_device_public_id, duplicate_entry,
}
use mini_wallet.Auth.Repository.Sessions.{rotate_refresh_token}
use mini_wallet.Auth.Rotation.{given_token}
use mini_wallet.AccessToken.{generate_access_token}
use mini_wallet.Auth.Service.Requests.{Config, Library, RefreshTokenRequest, hash_refresh_token}
use mini_wallet.Auth.Service.Sessions.{refresh_token}

abbrev pub renewing : DeviceContext → ℕ → ℕ → Option ℕ → ℕ → Session → Db → Db
renewing ctx new expires_at push now s d = record d {
  sessions =
      update (λ r. r.public_id == s.public_id) (given_token new expires_at ctx push now) d.sessions;
}

renew_session_ok :
    (ctx : DeviceContext) (new expires_at : ℕ) (push : Option ℕ) (s : Session) (d : Db) (now : ℕ)
    → keys_hold (renewing ctx new expires_at push now s d).sessions ≡ true
    → renew_session s.public_id (renewed new expires_at ctx push now) d
      ≡ (ok tt, renewing ctx new expires_at push now s d)
unfolding renew_session write_sessions
renew_session_ok ctx new expires_at push s d now h =
    ap
      (λ b.
        if b then (ok tt, renewing ctx new expires_at push now s d) else (err duplicate_entry, d))
      h

rotate_refresh_token_ok :
    (ctx : DeviceContext) (old new expires_at : ℕ) (push : Option ℕ) (d : Db) (now : ℕ)
    (s : Session) (dev : ℕ)
    → select_by_hash old d ≡ ok s
    → ltb s.expires_at now ≡ false
    → keys_hold (renewing ctx new expires_at push now s d).sessions ≡ true
    → select_device_public_id s.device_id d ≡ ok dev
    → rotate_refresh_token ctx old new expires_at push
        (record { db = d; tx = none; faults = []; now = now })
      ≡ (
        ok (dev, s.public_id, s.user_id),
        record { db = renewing ctx new expires_at push now s d; tx = none; faults = []; now = now },
      )
unfolding rotate_refresh_token at_now required pure
rotate_refresh_token_ok ctx old new expires_at push d now s dev found unexpired unique device =
    then_ok _ _ (or_else_ok _ _ (begin_tx_ok d now))
    ∙ rolling_back_ok _ (
        bind_ok _ _ (or_else_ok _ _ (look_up_ok (select_by_hash old) d d now found))
        ∙ bind_ok _ _ refl
        ∙ then_ok _ _ (raise_if_ok _ _ _ unexpired)
        ∙ then_ok _ _ (
            or_else_ok _ _
              (tx_exec_ok _ d d now (renew_session_ok ctx new expires_at push s d now unique)))
        ∙ bind_ok _ _ (
            or_else_ok _ _ (
              tx_exec_ok _ d _ now
                (ap (λ r. (r, renewing ctx new expires_at push now s d)) device)))
        ∙ then_ok _ _ (or_else_ok _ _ (commit_ok d _ now)))

-- Where every call goes through, a refresh token of a session that has not expired is answered 200
-- with an access token for the session's user and a new refresh token, whose hash the session has
-- then; that is if the new hash is no other session's and the session's device is there.
pub refresh_token_ok :
    (lib : Library) (config : Config) (bytes : List ℕ) (ctx : DeviceContext)
    (req : RefreshTokenRequest) (d : Db) (now : ℕ) (s : Session) (dev : ℕ) (access : List ℕ)
    → select_by_hash (hash_refresh_token lib req.refresh_token) d ≡ ok s
    → ltb s.expires_at now ≡ false
    → keys_hold
        (renewing ctx
          (hash_refresh_token lib (lib.encode_to_string bytes))
          (now + config.refresh_token_duration)
          req.push_token
          now
          s
          d).sessions
      ≡ true
    → select_device_public_id s.device_id d ≡ ok dev
    → generate_access_token lib.jwt config.jwt_secret now s.user_id s.public_id
        config.access_token_duration
      ≡ ok access
    → refresh_token lib config
        (ok bytes)
        ctx
        req
        (record { db = d; tx = none; faults = []; now = now })
      ≡ (
        ok (record {
          code = 200;
          body = record {
            access_token = access;
            refresh_token = lib.encode_to_string bytes;
            device_id = dev;
            session_id = s.public_id;
          };
        }),
        record {
          db =
              renewing ctx
                (hash_refresh_token lib (lib.encode_to_string bytes))
                (now + config.refresh_token_duration)
                req.push_token
                now
                s
                d;
          tx = none;
          faults = [];
          now = now;
        },
      )
unfolding refresh_token at_now returned pure
refresh_token_ok lib config bytes ctx req d now s dev access found unexpired unique device signed =
    bind_ok _ _ (or_else_ok _ _ refl)
    ∙ bind_ok _ _ (
        or_else_ok _ _ (
          rotate_refresh_token_ok ctx _ _ _ req.push_token d now s dev found unexpired unique
            device))
    ∙ bind_ok _ _ (or_else_ok _ _ (returned_ok _ _ signed))
