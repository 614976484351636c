-- ===== src/Auth/Upsert.antt =====
-- `UpsertSession` (internal/auth/repository/auth.go) inside the transaction of a registration or a
-- login.
use mini_wallet.Base.{
  ℕ, List, [], ◌∷◌, ◌++◌, Option, none, some, Bool, true, ◌==◌, ◌&&◌, ◌≡◌, refl, sym, ap, ◌∙◌,
  subst, find, any, update, arith, inl, inr,
}
use mini_wallet.RichError.{Error}
use mini_wallet.Sql.{World, Result, ok, err}
use mini_wallet.Sql.Transactions.{
  InTx, TxPost, or_else-TxPost, bind-TxPost, then-TxPost, clocked-TxPost, tx_exec-TxPost,
  pure-TxPost, weaker-TxPost,
}
use mini_wallet.Sql.Attempts.{attempt-TxPost, Tried}
use mini_wallet.Auth.Tables.{Session, DeviceContext, Db, Revoked, has_public_id, is_of, keys_hold}
use mini_wallet.Auth.Repository.Statements.{
  scan, write_sessions, renewed, renew_session, revoked, archive, upsert_device, select_session,
  insert_session,
}
use mini_wallet.Auth.Repository.Sessions.{upsert_session, store_session}
use mini_wallet.Auth.Rotation.{queried, write_sessions-Written}

-- The tables that sessions and devices are not in.
pub record Aside (d d' : Db) : Type 0 where
  pub users : d'.users ≡ d.users
  pub events : d'.events ≡ d.events
  pub published : d'.published ≡ d.published

Aside-refl : {d d' : Db} → d' ≡ d → Aside d d'
Aside-refl e = record {
  users = ap (λ x. x.users) e;
  events = ap (λ x. x.events) e;
  published = ap (λ x. x.published) e;
}

Aside-trans : {d d' d'' : Db} → Aside d d' → Aside d' d'' → Aside d d''
Aside-trans a b = record {
  users = b.users ∙ a.users;
  events = b.events ∙ a.events;
  published = b.published ∙ a.published;
}

abbrev pub stored_as : ℕ → ℕ → ℕ → Session → Bool
stored_as public_id user_id hash s =
    s.public_id == public_id && (s.user_id == user_id && s.refresh_token_hash == hash)

-- What storing a session has done: it is there, with its owner and its hash, and the unique keys
-- hold.
pub record Stored (user_id hash : ℕ) (d : Db) (ids : ℕ × ℕ) (d' : Db) : Type 0 where
  pub aside : Aside d d'
  pub stored : any (stored_as ids.1 user_id hash) d'.sessions ≡ true
  pub keys : keys_hold d'.sessions ≡ true

upsert_device-Aside :
    (uuid : ℕ) (ctx : DeviceContext) (now : ℕ) (d d' : Db) {u : Unit {0}}
    → upsert_device uuid ctx now d ≡ (ok u, d')
    → Aside d d'
unfolding upsert_device
upsert_device-Aside uuid ctx now d d' e = record {
  users = ground (arith, e);
  events = ground (arith, e);
  published = ground (arith, e);
}

archived-Aside :
    (p : Session → Bool) (f : Session → Revoked) (d d' : Db) (r : Result ℕ)
    → Tried (archive p f) d r d'
    → Aside d d' × (d'.sessions ≡ d.sessions)
unfolding archive
archived-Aside p f d d' (ok n) e = (
  record {
    users = sym (ap (λ x. x.1.users) e);
    events = sym (ap (λ x. x.1.events) e);
    published = sym (ap (λ x. x.1.published) e);
  },
  sym (ap (λ x. x.1.sessions) e),
)
archived-Aside p f d d' (err x) (inl e) = (Aside-refl e, ap (λ y. y.sessions) e)
archived-Aside p f d d' (err x) (inr e) = cc

any-renewed :
    (user_id device_id hash expires_at now : ℕ) (ctx : DeviceContext) (push : Option ℕ)
    (s : Session) (ss : List Session)
    → find (is_of user_id device_id) ss ≡ some s
    → any
        (stored_as s.public_id user_id hash)
        (update (has_public_id s.public_id) (renewed hash expires_at ctx push now) ss)
      ≡ true
any-renewed user_id device_id hash expires_at now ctx push s [] h = cc
any-renewed user_id device_id hash expires_at now ctx push s (r ∷ ss) h =
    ground (arith, any-renewed user_id device_id hash expires_at now ctx push s ss)

any-last :
    (p : Session → Bool) (ss : List Session) (s : Session)
    → p s ≡ true
    → any p (ss ++ s ∷ []) ≡ true
any-last p [] s h = ground arith
any-last p (r ∷ ss) s h = ground (arith, any-last p ss s h)

write_sessions-Stored :
    (user_id hash : ℕ) (ids : ℕ × ℕ) (ss : List Session) (d d' : Db) {u : Unit {0}}
    → write_sessions ss d ≡ (ok u, d')
    → any (stored_as ids.1 user_id hash) ss ≡ true
    → Stored user_id hash d ids d'
write_sessions-Stored user_id hash ids ss d d' {u} e h =
    let written : (d' ≡ record d { sessions = ss }) × (keys_hold ss ≡ true) =
      write_sessions-Written ss d d' u e in
    record {
      aside = record {
        users = ap (λ x. x.users) written.0;
        events = ap (λ x. x.events) written.0;
        published = ap (λ x. x.published) written.0;
      };
      stored =
          subst (λ xs. any (stored_as ids.1 user_id hash) xs ≡ true)
            (sym (ap (λ x. x.sessions) written.0)) h;
      keys = subst (λ xs. keys_hold xs ≡ true) (sym (ap (λ x. x.sessions) written.0)) written.1;
    }

insert_session-Stored :
    (s : Session) (device_uuid : ℕ) (d d' : Db) {u : Unit {0}}
    → insert_session s d ≡ (ok u, d')
    → Stored s.user_id s.refresh_token_hash d (device_uuid, s.public_id) d'
unfolding insert_session
insert_session-Stored s device_uuid d d' e = record {
  aside = record {
    users = ground (arith, e);
    events = ground (arith, e);
    published = ground (arith, e);
  };
  stored =
      subst (λ xs. any (stored_as s.public_id s.user_id s.refresh_token_hash) xs ≡ true) (sym rows)
        (any-last (stored_as s.public_id s.user_id s.refresh_token_hash) d.sessions
          (record s { id = d.next_session }) (ground arith));
  keys = ground (arith, e);
}
  where
    rows : d'.sessions ≡ d.sessions ++ record s { id = d.next_session } ∷ []
    rows = ground (arith, e)

Stored-after :
    {user_id hash : ℕ} {d d' d'' : Db} {ids : ℕ × ℕ}
    → Aside d d'
    → Stored user_id hash d' ids d''
    → Stored user_id hash d ids d''
Stored-after a s = record { aside = Aside-trans a s.aside; stored = s.stored; keys = s.keys }

found_session : (o : Option Session) (s : Session) → scan o ≡ ok s → o ≡ some s
found_session none s e = cc
found_session (some r) s e = cc

-- The device's public id that is returned is the new one, whatever is stored.
abbrev pub Upserted : ℕ → ℕ → ℕ → Db → ℕ × ℕ → Db → Type 0
Upserted device_uuid user_id hash t ids t' = Stored user_id hash t ids t' × (ids.0 ≡ device_uuid)

after_renewal :
    (now device_uuid user_id hash expires_at : ℕ) (ctx : DeviceContext) (push : Option ℕ)
    (s : Session) (t t' t₁ t₂ : Db) (device_id : ℕ) (r : Result ℕ) {u : Unit {0}}
    → queried (select_session user_id device_id) t ≡ (ok s, t')
    → Tried (archive (has_public_id s.public_id) (revoked now "rotated" "system")) t' r t₁
    → renew_session s.public_id (renewed hash expires_at ctx push now) t₁ ≡ (ok u, t₂)
    → Stored user_id hash t (device_uuid, s.public_id) t₂
unfolding renew_session
after_renewal now device_uuid user_id hash expires_at ctx push s t t' t₁ t₂ device_id r e archived
      wrote =
    let filed : Aside t' t₁ × (t₁.sessions ≡ t'.sessions) = archived-Aside _ _ t' t₁ r archived in
    let same : t' ≡ t = sym (ap (λ x. x.1) e) in
    Stored-after (Aside-trans (Aside-refl same) filed.0) (
      write_sessions-Stored user_id hash (device_uuid, s.public_id) _ t₁ t₂ wrote
        (any-renewed user_id device_id hash expires_at now ctx push s t₁.sessions (
          subst (λ ss. find (is_of user_id device_id) ss ≡ some s)
            (sym (filed.1 ∙ ap (λ x. x.sessions) same)) (found_session _ s (ap (λ x. x.0) e)))))

left_same :
    (user_id : ℕ) (t t' : Db) (x : Error) (device_id : ℕ)
    → Tried (queried (select_session user_id device_id)) t (err x) t'
    → t' ≡ t
left_same user_id t t' x device_id (inl e) = e
left_same user_id t t' x device_id (inr e) = sym (ap (λ y. y.1) e)

module _ {now : ℕ} {d : Db} (device_uuid session_uuid : ℕ) (ctx : DeviceContext)
    (user_id hash expires_at : ℕ) (push : Option ℕ) where
  store_session-TxPost :
      (device_id : ℕ) (r : Result Session) (t t' : Db) (w : World Db)
      → InTx now d t' w
      → Tried (queried (select_session user_id device_id)) t r t'
      → TxPost now d
          (Upserted device_uuid user_id hash t)
          (store_session device_uuid session_uuid ctx user_id hash expires_at push device_id r w)
  unfolding store_session renew_session
  store_session-TxPost device_id (ok s) t t' w i e =
      then-TxPost _ _ w (clocked-TxPost _ t' w i (attempt-TxPost _ t' w i)) λ r t₁ w₁ i₁ archived.
        then-TxPost _ _ w₁
          (or_else-TxPost _ _ w₁ (clocked-TxPost _ t₁ w₁ i₁ (tx_exec-TxPost _ t₁ w₁ i₁)))
          λ u t₂ w₂ i₂ wrote. pure-TxPost _ t₂ w₂ i₂ (
            after_renewal now device_uuid user_id hash expires_at ctx push s t t' t₁ t₂ device_id r
                e archived wrote,
            refl,
          )
  store_session-TxPost device_id (err x) t t' w i e =
      then-TxPost _ _ w (or_else-TxPost _ _ w (clocked-TxPost _ t' w i (tx_exec-TxPost _ t' w i)))
        λ u t₁ w₁ i₁ wrote. pure-TxPost _ t₁ w₁ i₁ (
          Stored-after (Aside-refl (left_same user_id t t' x device_id e))
              (insert_session-Stored _ device_uuid t' t₁ wrote),
          refl,
        )

  pub upsert_session-TxPost :
      (t : Db) (w : World Db)
      → InTx now d t w
      → TxPost now d
          (Upserted device_uuid user_id hash t)
          (upsert_session device_uuid session_uuid ctx user_id hash expires_at push w)
  unfolding upsert_session
  upsert_session-TxPost t w i =
      then-TxPost _ _ w (or_else-TxPost _ _ w (clocked-TxPost _ t w i (tx_exec-TxPost _ t w i)))
        λ u t₁ w₁ i₁ device.
          bind-TxPost _ _ w₁ (or_else-TxPost _ _ w₁ (tx_exec-TxPost _ t₁ w₁ i₁))
            λ device_id t₂ w₂ i₂ selected.
              bind-TxPost _ _ w₂ (attempt-TxPost _ t₂ w₂ i₂) λ r t₃ w₃ i₃ e.
                weaker-TxPost _ (store_session-TxPost device_id r t₂ t₃ w₃ i₃ e) λ ids t₄ h. (
                  Stored-after
                      (Aside-trans (upsert_device-Aside device_uuid ctx now t t₁ device)
                        (Aside-refl (sym (ap (λ x. x.1) selected))))
                      h.0,
                  h.1,
                )
