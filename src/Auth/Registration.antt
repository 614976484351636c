-- ===== src/Auth/Registration.antt =====
-- `Register` (internal/auth/service/auth/service.go): all of a registration or nothing of it.
use mini_wallet.Base.{
  ℕ, suc, List, [], ◌∷◌, ◌++◌, none, String, true, false, ◌≡◌, refl, sym, ap, ◌∙◌, subst, any,
  arith, Bool-cases, inl, inr,
}
use mini_wallet.RichError.{has_validations}
use mini_wallet.Sql.{World, ok}
use mini_wallet.Sql.Transactions.{
  InTx, TxPost, DonePost, or_else-TxPost, bind-TxPost, then-TxPost, clocked-TxPost, tx_exec-TxPost,
  call-TxPost, pure-TxPost, weaker-TxPost,
}
use mini_wallet.Sql.Attempts.{returned-TxPost, raise_if-DonePost, returned-DonePost, pure-DonePost}
use mini_wallet.Sql.Commits.{begin_finish-DonePost, or_else-DonePost}
use mini_wallet.Outbox
use mini_wallet.Outbox.Table.{OutboxEvent, pending, has_id}
use mini_wallet.AccessToken.{generate_access_token}
use mini_wallet.Auth.Tables.{DeviceContext, Db, has_email, keys_hold, store}
use mini_wallet.Auth.Outbox.{register_new_user}
use mini_wallet.Auth.Repository.Statements.{insert_user}
use mini_wallet.Auth.Repository.Users.{create_user, insert_outbox_event, run_in_tx}
use mini_wallet.Auth.Service.Requests.{
  Config, Library, Drawn, RegisterRequest, RegisterResponse, EventEnvelope,
  register_new_user_message, generate_refresh_token, hash_refresh_token, new_event,
}
use mini_wallet.Auth.Service.Register.{register, register_body, register_event, validate_register}
use mini_wallet.Auth.Upsert.{Upserted, stored_as, upsert_session-TxPost}

abbrev pub with_user : String → ℕ → Db → Db
with_user email hash d = record d {
  users = d.users ++ record { id = d.next_user; email = email; password_hash = hash } ∷ [];
  next_user = suc d.next_user;
}

insert_user-with_user :
    (email : String) (hash : ℕ) (d d' : Db) {id : ℕ}
    → insert_user email hash d ≡ (ok id, d')
    → (any (has_email email) d.users ≡ false) × (id ≡ d.next_user) × (d' ≡ with_user email hash d)
unfolding insert_user
insert_user-with_user email hash d d' e = elim (Bool-cases (any (has_email email) d.users)) [
  | inl h ↦ ground (arith, e)
  | inr h ↦ (h, ground (arith, e), ground (arith, e))
]

-- What one registration has done: the request is valid, its email was new, and there are its user,
-- its session, under the hash of the refresh token that is returned, and its event, which waits to be
-- published.
pub record Registered (lib : Library) (config : Config) (drawn : Drawn) (req : RegisterRequest)
    (now : ℕ) (d : Db) (out : RegisterResponse × OutboxEvent) (d' : Db) : Type 0 where
  pub new_email : any (has_email req.email) d.users ≡ false
  pub hashed :
      (hash : ℕ) × (lib.generate_from_password req.password ≡ ok hash)
      × (d'.users ≡ (with_user req.email hash d).users)
  pub token : generate_refresh_token lib drawn.bytes ≡ ok out.0.refresh_token
  pub session :
      any
        (stored_as out.0.session_id d.next_user (hash_refresh_token lib out.0.refresh_token))
        d'.sessions
      ≡ true
  pub keys : keys_hold d'.sessions ≡ true
  pub access :
      generate_access_token lib.jwt config.jwt_secret now d.next_user out.0.session_id
        config.access_token_duration
      ≡ ok out.0.access_token
  pub body :
      (envelope : EventEnvelope) × (bytes : List ℕ) × (new_event lib
          (register_new_user_message d.next_user req.email)
          register_new_user
        ≡ ok envelope)
      × (lib.marshal envelope ≡ ok bytes)
      × (out.1 ≡ register_event lib drawn.event_uuid d.next_user bytes now)
  pub event : d'.events ≡ d.events ++ out.1 ∷ []
  pub unpublished : d'.published ≡ d.published

create_user-TxPost :
    {now : ℕ} {d : Db} (email : String) (hash : ℕ) (t : Db) (w : World Db)
    → InTx now d t w
    → TxPost now d (λ id t'. insert_user email hash t ≡ (ok id, t')) (create_user email hash w)
unfolding create_user
create_user-TxPost email hash t w i =
    bind-TxPost _ _ w (or_else-TxPost _ _ w (tx_exec-TxPost _ t w i)) λ id t₁ w₁ i₁ e.
      then-TxPost _ _ w₁ (or_else-TxPost _ _ w₁ (call-TxPost t₁ w₁ i₁)) λ _ t₂ w₂ i₂ same.
        pure-TxPost id t₂ w₂ i₂ (subst (λ x. insert_user email hash t ≡ (ok id, x)) (sym same) e)

abbrev pub with_event : OutboxEvent → Db → Db
with_event e d = record d { events = d.events ++ e ∷ [] }

abbrev pub pended : OutboxEvent → OutboxEvent
pended e = record e { status = pending; processed_at = none; locked_until = none }

inserted :
    (e : OutboxEvent) (t t' : Db) {u : Unit {0}}
    → Outbox.Repository.all_or_nothing store (Outbox.Repository.insert_events store (e ∷ [])) t
      ≡ (ok u, t')
    → t' ≡ with_event (pended e) t
unfolding Outbox.Repository.insert_events
inserted e t t' made = elim (Bool-cases (any (has_id e.event_id) t.events)) [
  | inl h ↦ ground (arith, made)
  | inr h ↦ ground (arith, made)
]

-- An event that is inserted waits to be published.
pub insert_outbox_event-TxPost :
    {now : ℕ} {d : Db} (e : OutboxEvent) (t : Db) (w : World Db)
    → InTx now d t w
    → TxPost now d (λ _ t'. t' ≡ with_event (pended e) t) (insert_outbox_event e w)
unfolding insert_outbox_event
insert_outbox_event-TxPost e t w i =
    or_else-TxPost _ _ w
      (weaker-TxPost _ (tx_exec-TxPost _ t w i) λ u t' made. inserted e t t' made)

module _ (lib : Library) (config : Config) (drawn : Drawn) (ctx : DeviceContext)
    (req : RegisterRequest) where
  registered :
      {now : ℕ} {d : Db} (hash : ℕ)
      → lib.generate_from_password req.password ≡ ok hash
      → (id : ℕ) (token : List ℕ) (ids : ℕ × ℕ) (access : List ℕ) (envelope : EventEnvelope)
        (bytes : List ℕ) (t₁ t₂ t₃ t₄ t₅ : Db)
      → insert_user req.email hash d ≡ (ok id, t₁)
      → (t₂ ≡ t₁) × (generate_refresh_token lib drawn.bytes ≡ ok token)
      → Upserted drawn.device_uuid id (hash_refresh_token lib token) t₂ ids t₃
      → generate_access_token lib.jwt config.jwt_secret now id ids.1 config.access_token_duration
        ≡ ok access
      → new_event lib (register_new_user_message id req.email) register_new_user ≡ ok envelope
      → lib.marshal envelope ≡ ok bytes
      → t₄ ≡ t₃
      → t₅ ≡ with_event (pended (register_event lib drawn.event_uuid id bytes now)) t₄
      → Registered lib config drawn req now d
          (
            record {
              message = "account successfully created";
              access_token = access;
              refresh_token = token;
              device_id = ids.0;
              session_id = ids.1;
            },
            register_event lib drawn.event_uuid id bytes now,
          )
          t₅
  registered {now} {d} hash hashed id token ids access envelope bytes t₁ t₂ t₃ t₄ t₅ created drew
        upserted signed wrapped marshalled same put =
      let made : (any (has_email req.email) d.users ≡ false)
          × (id ≡ d.next_user)
          × (t₁ ≡ with_user req.email hash d) =
        insert_user-with_user req.email hash d t₁ created in
      let from : t₂ ≡ with_user req.email hash d = drew.0 ∙ made.2 in
      record {
        new_email = made.0;
        hashed = (
          hash,
          hashed,
          ap (λ x. x.users) put
              ∙ ap (λ x. x.users) same
              ∙ upserted.0.aside.users
              ∙ ap (λ x. x.users) from,
        );
        token = drew.1;
        session =
            subst (λ n. any (stored_as ids.1 n (hash_refresh_token lib token)) t₅.sessions ≡ true)
              made.1
              (subst (λ ss. any (stored_as ids.1 id (hash_refresh_token lib token)) ss ≡ true)
                (sym (ap (λ x. x.sessions) put ∙ ap (λ x. x.sessions) same)) upserted.0.stored);
        keys =
            subst (λ ss. keys_hold ss ≡ true)
              (sym (ap (λ x. x.sessions) put ∙ ap (λ x. x.sessions) same)) upserted.0.keys;
        access =
            subst
              (λ n.
                generate_access_token lib.jwt config.jwt_secret now n ids.1
                  config.access_token_duration
                ≡ ok access)
              made.1 signed;
        body = (
          envelope,
          bytes,
          subst
              (λ n.
                new_event lib (register_new_user_message n req.email) register_new_user
                ≡ ok envelope)
              made.1 wrapped,
          marshalled,
          ap (λ n. register_event lib drawn.event_uuid n bytes now) made.1,
        );
        event =
            ap (λ x. x.events) put
            ∙ ap (λ es. es ++ register_event lib drawn.event_uuid id bytes now ∷ [])
                (ap (λ x. x.events) same ∙ upserted.0.aside.events ∙ ap (λ x. x.events) from);
        unpublished =
            ap (λ x. x.published) put
            ∙ ap (λ x. x.published) same
            ∙ upserted.0.aside.published
            ∙ ap (λ x. x.published) from;
      }

  register_body-TxPost :
      {now : ℕ} {d : Db} (hash : ℕ) (w : World Db)
      → lib.generate_from_password req.password ≡ ok hash
      → InTx now d d w
      → TxPost now d
          (Registered lib config drawn req now d)
          (register_body lib config drawn ctx req hash w)
  unfolding register_body
  register_body-TxPost {now} {d} hash w hashed i =
      bind-TxPost _ _ w (or_else-TxPost _ _ w (create_user-TxPost req.email hash d w i))
        λ id t₁ w₁ i₁ created.
          bind-TxPost _ _ w₁ (or_else-TxPost _ _ w₁ (returned-TxPost _ t₁ w₁ i₁))
            λ token t₂ w₂ i₂ drew.
              bind-TxPost _ _ w₂
                (or_else-TxPost _ _ w₂ (
                  clocked-TxPost _ t₂ w₂ i₂
                    (upsert_session-TxPost _ _ ctx id _ _ req.push_token t₂ w₂ i₂)))
                λ ids t₃ w₃ i₃ upserted.
                  bind-TxPost _ _ w₃
                    (or_else-TxPost _ _ w₃ (clocked-TxPost _ t₃ w₃ i₃ (returned-TxPost _ t₃ w₃ i₃)))
                    λ access t₄ w₄ i₄ signed.
                      bind-TxPost _ _ w₄ (or_else-TxPost _ _ w₄ (returned-TxPost _ t₄ w₄ i₄))
                        λ envelope t₅ w₅ i₅ wrapped.
                          bind-TxPost _ _ w₅ (or_else-TxPost _ _ w₅ (returned-TxPost _ t₅ w₅ i₅))
                            λ bytes t₆ w₆ i₆ marshalled.
                              then-TxPost _ _ w₆
                                (or_else-TxPost _ _ w₆ (
                                  clocked-TxPost _ t₆ w₆ i₆
                                    (insert_outbox_event-TxPost _ t₆ w₆ i₆)))
                                λ u t₇ w₇ i₇ put. clocked-TxPost _ t₇ w₇ i₇ (
                                  pure-TxPost _ t₇ w₇ i₇ (
                                    registered hash hashed id token ids access envelope bytes t₁ t₂
                                      t₃ t₆ t₇ created drew upserted signed.1 wrapped.1 marshalled.1
                                      (marshalled.0 ∙ wrapped.0 ∙ signed.0) put))

  -- Register, whichever calls fail, makes the user with the session and the event of the request, or
  -- leaves the tables as they were.
  pub register_outcome :
      (w : World Db)
      → DonePost w.db
          (λ out d'.
            (has_validations (validate_register lib req) ≡ false)
            × (out.0.code ≡ 201)
            × Registered lib config drawn req w.now w.db (out.0.body, out.1) d')
          (register lib config drawn ctx req w)
  unfolding register run_in_tx
  register_outcome w = raise_if-DonePost _ _ _ w λ valid. returned-DonePost _ _ _ w λ hash hashed.
      pure-DonePost _ _ w
        (or_else-DonePost _ _ w
          (begin_finish-DonePost _ w λ w₁ i₁. register_body-TxPost hash w₁ hashed i₁))
        λ made t h. (valid, refl, h)
