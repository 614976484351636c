-- ===== src/Auth/Rotation.antt =====
-- `RotateRefreshToken` (internal/auth/repository/auth.go): what a refresh token is good for.
use mini_wallet.Base.{
  ℕ, List, Option, none, some, true, false, ◌≡◌, refl, sym, ap, ◌∙◌, subst, update, ltb, arith,
  ◌==◌, if◌then◌else◌, Bool-cases, inl, inr,
}
use mini_wallet.Sql.{World, Result, ok}
use mini_wallet.Sql.Transactions.{
  DonePost, or_else-TxPost, begin_tx-TxPost, look_up-TxPost, raise_if-TxPost, clocked-TxPost,
  tx_exec-TxPost, Found,
}
use mini_wallet.Sql.Attempts.{required-TxPost}
use mini_wallet.Sql.Commits.{rolling_back-DonePost, bind-DonePost, then-DonePost, finish-DonePost}
use mini_wallet.Auth.Tables.{Session, DeviceContext, Db, has_public_id, keys_hold}
use mini_wallet.Auth.Repository.Statements.{
  select_by_hash, renewed, renew_session, write_sessions, select_device_public_id,
}
use mini_wallet.Auth.Repository.Sessions.{rotate_refresh_token}

-- A session with another token, a later end, and the address, browser and push token of a request.
abbrev pub given_token : ℕ → ℕ → DeviceContext → Option ℕ → ℕ → Session → Session
given_token hash expires_at ctx push now s = record {
  id = s.id;
  public_id = s.public_id;
  user_id = s.user_id;
  device_id = s.device_id;
  refresh_token_hash = hash;
  ip_address = ctx.ip_address;
  user_agent = ctx.user_agent;
  push_token = elim push [ none ↦ s.push_token | some t ↦ if t == 0 then none else some t ];
  expires_at = expires_at;
  created_at = s.created_at;
  last_used_at = now;
}

-- What a rotation has done: the session that the old hash finds had not expired, and has the new
-- hash and the device's data now.
pub record Rotated (ctx : DeviceContext) (old new expires_at : ℕ) (push : Option ℕ) (now : ℕ)
    (d : Db) (ids : ℕ × ℕ × ℕ) (d' : Db) : Type 0 where
  pub session : Session
  pub found : select_by_hash old d ≡ ok session
  pub unexpired : ltb session.expires_at now ≡ false
  pub returns : (ids.1 ≡ session.public_id) × (ids.2 ≡ session.user_id)
  pub device : select_device_public_id session.device_id d' ≡ ok ids.0
  pub becomes : d' ≡ record d {
    sessions =
        update
          (λ s. s.public_id == session.public_id)
          (given_token new expires_at ctx push now)
          d.sessions;
  }
  pub keys : keys_hold d'.sessions ≡ true

-- Rows that were written keep the unique keys.
pub write_sessions-Written :
    (ss : List Session) (d d' : Db) (u : Unit {0})
    → write_sessions ss d ≡ (ok u, d')
    → (d' ≡ record d { sessions = ss }) × (keys_hold ss ≡ true)
unfolding write_sessions
write_sessions-Written ss d d' u e = elim (Bool-cases (keys_hold ss)) [
  | inl h ↦ ground (arith, h, e)
  | inr h ↦ ground (arith, h, e)
]

-- A query, as a statement that leaves the tables.
abbrev pub queried : {A : Type 0} → (Db → Result A) → Db → Result A × Db
queried f d = (f d, d)

scanned_row :
    (o : Option Session) (r : Result Session) (s : Session) → Found r o → o ≡ some s → r ≡ ok s
scanned_row none r s f e = cc
scanned_row (some a) r s f e = cc

-- A rotation, whichever calls fail, gives the session of the old hash the new one, or leaves the
-- tables as they were.
pub rotate_refresh_token_outcome :
    (ctx : DeviceContext) (old new expires_at : ℕ) (push : Option ℕ) (w : World Db)
    → DonePost w.db
        (Rotated ctx old new expires_at push w.now w.db)
        (rotate_refresh_token ctx old new expires_at push w)
unfolding rotate_refresh_token renew_session
rotate_refresh_token_outcome ctx old new expires_at push w =
    then-DonePost _ _ w (or_else-TxPost _ _ w (begin_tx-TxPost w)) λ _ t₁ w₁ i₁ begun.
      rolling_back-DonePost _ w₁ (
        bind-DonePost _ _ w₁ (or_else-TxPost _ _ w₁ (look_up-TxPost _ t₁ w₁ i₁))
          λ o t₂ w₂ i₂ looked.
            bind-DonePost _ _ w₂ (required-TxPost o _ t₂ w₂ i₂) λ s t₃ w₃ i₃ there.
              then-DonePost _ _ w₃ (clocked-TxPost _ t₃ w₃ i₃ (raise_if-TxPost _ _ t₃ w₃ i₃))
                λ _ t₄ w₄ i₄ passed.
                  then-DonePost _ _ w₄
                    (or_else-TxPost _ _ w₄ (clocked-TxPost _ t₄ w₄ i₄ (tx_exec-TxPost _ t₄ w₄ i₄)))
                    λ _ t₅ w₅ i₅ wrote.
                      bind-DonePost _ _ w₅ (or_else-TxPost _ _ w₅ (tx_exec-TxPost _ t₅ w₅ i₅))
                        λ dev t₆ w₆ i₆ device. finish-DonePost _ _ t₆ w₆ i₆ (
                          rotated t₄ t₅ t₆ o s dev (passed.0 ∙ there.0 ∙ looked.0 ∙ begun)
                            (subst (λ x. Found (select_by_hash old x) o) begun looked.1) there.1
                            passed.1 wrote device))
  where
    rotated :
        (t t' t'' : Db) (o : Option Session) (s : Session) (dev : ℕ) {u : Unit {0}}
        → t ≡ w.db
        → Found (select_by_hash old w.db) o
        → o ≡ some s
        → ltb s.expires_at w.now ≡ false
        → renew_session s.public_id (renewed new expires_at ctx push w.now) t ≡ (ok u, t')
        → queried (select_device_public_id s.device_id) t' ≡ (ok dev, t'')
        → Rotated ctx old new expires_at push w.now w.db (dev, s.public_id, s.user_id) t''
    rotated t t' t'' o s dev {u} same looked there passed wrote device = record {
      session = s;
      found = scanned_row o (select_by_hash old w.db) s looked there;
      unexpired = passed;
      returns = (refl, refl);
      device =
          subst (λ x. select_device_public_id s.device_id x ≡ ok dev) last (ap (λ x. x.0) device);
      becomes =
          sym last
          ∙ subst
              (λ x. t' ≡ record x {
                sessions =
                    update (has_public_id s.public_id) (renewed new expires_at ctx push w.now)
                      x.sessions;
              })
              same written.0;
      keys = subst (λ x. keys_hold x.sessions ≡ true) (sym written.0 ∙ last) written.1;
    }
      where
        last : t' ≡ t''
        last = ap (λ x. x.1) device

        written :
            (t' ≡ record t {
              sessions =
                  update
                    (has_public_id s.public_id)
                    (renewed new expires_at ctx push w.now)
                    t.sessions;
            })
            × (keys_hold (
                  update
                    (has_public_id s.public_id)
                    (renewed new expires_at ctx push w.now)
                    t.sessions)
                ≡ true)
        written = write_sessions-Written _ t t' u wrote
