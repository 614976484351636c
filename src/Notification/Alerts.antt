-- ===== src/Notification/Alerts.antt =====
-- `handleNewSession` (internal/notification/subscriber/handler.go): who is told of a login.
use mini_wallet.Base.{
  ℕ, List, [], ◌∷◌, ◌++◌, none, Bool, true, false, ◌==◌, ◌≡◌, refl, sym, ap, ◌∙◌, map, reject, any,
  Bool-cases, inl, inr, length, ◌⊎◌,
}
use mini_wallet.RichError.{Error, mysql_error}
use mini_wallet.Sql.{World, Result, ok, err, at_now, is_nil}
use mini_wallet.Sql.Calls.{Post, exec-Post, or_else-Post, weaker-Post}
use mini_wallet.Outbox
use mini_wallet.Outbox.Table.{OutboxEvent, pending, has_id}
use mini_wallet.Notification.Tables.{Db, outbox}
use mini_wallet.Notification.Service.{insert_outbox_events}
use mini_wallet.Notification.Subscriber.{
  Library, NewSessionLoggedIn, SessionItem, NotificationEvent, session_payload, notification_push,
  alert, encoded, push_event, onto, session_events, inserting, alert_sessions,
}

abbrev pub is_new : NewSessionLoggedIn → SessionItem → Bool
is_new ev s = s.session_id == ev.id

-- What a session is told: that of the login's user, its own id and its own push token.
abbrev pub alert_for : NewSessionLoggedIn → SessionItem → ℕ → NotificationEvent
alert_for ev s uuid = record {
  event_id = uuid;
  payload =
      session_payload
        (record { user_id = ev.user_id; session_id = s.session_id; push_token = s.push_token });
}

-- An event of the login's user that waits, with this body.
abbrev pub waiting : Library → NewSessionLoggedIn → ℕ → ℕ → List ℕ → OutboxEvent
waiting lib ev uuid now body = record {
  event_id = uuid;
  event_type = notification_push;
  payload = body;
  aggregate_type = "user";
  aggregate_id = lib.decimal ev.user_id;
  status = pending;
  created_at = now;
  processed_at = none;
  locked_until = none;
}

-- One waiting event for each session, in their order, that carries the alert for it.
abbrev pub Announces :
    Library → ℕ → NewSessionLoggedIn → List SessionItem → List OutboxEvent → Type 0
Announces lib now ev [] es = es ≡ []
Announces lib now ev (s ∷ ss) es =
    (uuid : ℕ) × (event_uuid : ℕ) × (payload : List ℕ) × (body : List ℕ) × (rest : List OutboxEvent)
    × (lib.new_any (alert_for ev s uuid) ≡ ok payload)
    × (lib.marshal (record { event_type = notification_push; payload = payload }) ≡ ok body)
    × (es ≡ waiting lib ev event_uuid now body ∷ rest)
    × Announces lib now ev ss rest

encoded_ok :
    (lib : Library) (e : NotificationEvent) (body : List ℕ)
    → encoded lib e ≡ ok body
    → (payload : List ℕ) × (lib.new_any e ≡ ok payload)
      × (lib.marshal (record { event_type = notification_push; payload = payload }) ≡ ok body)
encoded_ok lib e body = by_any (lib.new_any e) refl
  where
    by_any :
        (r : Result (List ℕ))
        → lib.new_any e ≡ r
        → elim r as (λ _. Result (List ℕ)) [
          | err x ↦ err x
          | ok payload ↦ lib.marshal (record { event_type = notification_push; payload = payload })
        ]
          ≡ ok body
        → (payload : List ℕ) × (lib.new_any e ≡ ok payload)
          × (lib.marshal (record { event_type = notification_push; payload = payload }) ≡ ok body)
    by_any (ok payload) same h = (payload, same, h)
    by_any (err x) same h = cc

module _ (lib : Library) (uuids : ℕ → ℕ × ℕ) (now : ℕ) (ev : NewSessionLoggedIn) where
  skips :
      (s : SessionItem) (ss : List SessionItem)
      → is_new ev s ≡ true
      → session_events lib uuids now ev (s ∷ ss) ≡ session_events lib uuids now ev ss
  unfolding session_events
  skips s ss h = rw h refl

  keeps :
      (s : SessionItem) (ss : List SessionItem)
      → is_new ev s ≡ false
      → session_events lib uuids now ev (s ∷ ss)
        ≡ elim (encoded lib (alert ev s (uuids (length ss)).0)) [
          | err x ↦ err x
          | ok body ↦
              onto lib
                (push_event lib ev (uuids (length ss)).1 now body)
                (session_events lib uuids now ev ss)
        ]
  unfolding session_events
  keeps s ss h = rw h refl

  session_events-Announces :
      (ss : List SessionItem) (es : List OutboxEvent)
      → session_events lib uuids now ev ss ≡ ok es
      → Announces lib now ev (reject (is_new ev) ss) es
  unfolding session_events
  session_events-Announces [] es e = cc
  session_events-Announces (s ∷ ss) es e = elim (Bool-cases (is_new ev s)) [
    | inl new ↦ rw new (session_events-Announces ss es (sym (skips s ss new) ∙ e))
    | inr other ↦ rw other (
        made (encoded lib (alert ev s (uuids (length ss)).0)) refl
          (session_events lib uuids now ev ss) refl (sym (keeps s ss other) ∙ e)
          (session_events-Announces ss))
  ]
    where
      made :
          (r : Result (List ℕ))
          → encoded lib (alert ev s (uuids (length ss)).0) ≡ r
          → (q : Result (List OutboxEvent)) → session_events lib uuids now ev ss ≡ q
          → elim r as (λ _. Result (List OutboxEvent)) [
            | err x ↦ err x
            | ok body ↦ onto lib (push_event lib ev (uuids (length ss)).1 now body) q
          ]
            ≡ ok es
          → ((es' : List OutboxEvent)
              → session_events lib uuids now ev ss ≡ ok es'
              → Announces lib now ev (reject (is_new ev) ss) es')
          → Announces lib now ev (s ∷ reject (is_new ev) ss) es
      made (ok body) k (ok rest) q h ih =
          let (payload, any_of, text_of) = encoded_ok lib _ body k in
          (
            (uuids (length ss)).0,
            (uuids (length ss)).1,
            payload,
            body,
            rest,
            any_of,
            text_of,
            cc,
            ih rest q,
          )
      made (ok body) k (err x) q h ih = cc
      made (err x) k q' q h ih = cc

abbrev pended : OutboxEvent → OutboxEvent
pended e = record e { status = pending; processed_at = none; locked_until = none }

Announces-pended :
    (lib : Library) (now : ℕ) (ev : NewSessionLoggedIn) (ss : List SessionItem)
    (es : List OutboxEvent)
    → Announces lib now ev ss es
    → map pended es ≡ es
Announces-pended lib now ev [] es h = rw h refl
Announces-pended lib now ev (s ∷ ss) es (a, b, payload, body, rest, k, m, e, h) =
    ap (map pended) e
    ∙ ap (λ l. push_event lib ev b now body ∷ l) (Announces-pended lib now ev ss rest h)
    ∙ sym e

append_assoc : (xs ys zs : List OutboxEvent) → (xs ++ ys) ++ zs ≡ xs ++ (ys ++ zs)
append_assoc [] ys zs = refl
append_assoc (x ∷ xs) ys zs = ap (λ l. x ∷ l) (append_assoc xs ys zs)

append_nil : (xs : List OutboxEvent) → xs ++ [] ≡ xs
append_nil [] = refl
append_nil (x ∷ xs) = ap (λ l. x ∷ l) (append_nil xs)

abbrev with_events : List OutboxEvent → Db → Db
with_events es d = record d { events = es }

refused_event :
    (x : OutboxEvent) (es : List OutboxEvent) (d : Db)
    → any (has_id x.event_id) d.events ≡ true
    → Outbox.Repository.insert_events outbox (x ∷ es) d
      ≡ (err (mysql_error 1062 "Duplicate entry"), d)
unfolding Outbox.Repository.insert_events
refused_event x es d h = rw h refl

put_event :
    (x : OutboxEvent) (es : List OutboxEvent) (d : Db)
    → any (has_id x.event_id) d.events ≡ false
    → Outbox.Repository.insert_events outbox (x ∷ es) d
      ≡ Outbox.Repository.insert_events outbox es (record d { events = d.events ++ pended x ∷ [] })
unfolding Outbox.Repository.insert_events
put_event x es d h = rw h refl

insert_events_appends :
    (es : List OutboxEvent) (d d' : Db) {u : Unit {0}}
    → Outbox.Repository.insert_events outbox es d ≡ (ok u, d')
    → d' ≡ record d { events = d.events ++ map pended es }
unfolding Outbox.Repository.insert_events
insert_events_appends [] d d' e =
    sym (ap (λ r. r.1) e) ∙ ap (λ l. with_events l d) (sym (append_nil d.events))
insert_events_appends (x ∷ es) d d' e = elim (Bool-cases (any (has_id x.event_id) d.events)) [
  | inl h ↦ clash (sym (refused_event x es d h) ∙ e)
  | inr h ↦
      insert_events_appends es (record d { events = d.events ++ pended x ∷ [] }) d'
        (sym (put_event x es d h) ∙ e)
      ∙ ap (λ l. with_events l d) (append_assoc d.events (pended x ∷ []) (map pended es))
]
  where
    clash :
        {a : Error} {u : Unit {0}} {x y : Db} {A : Type 0}
        → ◌≡◌ {A = Result (Unit {0}) × Db} (err a, x) (ok u, y)
        → A
    clash e = cc

all_ok :
    (r : Result (Unit {0}) × Db) (d d' : Db) {u : Unit {0}}
    → elim r.0 as (λ _. Result (Unit {0}) × Db) [ ok a ↦ (ok a, r.1) | err e ↦ (err e, d) ]
      ≡ (ok u, d')
    → r ≡ (ok u, d')
all_ok (ok a, t) d d' h = h
all_ok (err e, t) d d' h = cc

all_err :
    (r : Result (Unit {0}) × Db) (d d' : Db) {x : Error}
    → elim r.0 as (λ _. Result (Unit {0}) × Db) [ ok a ↦ (ok a, r.1) | err e ↦ (err e, d) ]
      ≡ (err x, d')
    → d' ≡ d
all_err (ok a, t) d d' h = cc
all_err (err e, t) d d' h = sym (ap (λ q. q.1) h)

-- What telling of a login has done: one event waits for each other session that the auth service
-- names, or nothing has happened.
abbrev pub Told : Library → NewSessionLoggedIn → List SessionItem → World Db → World Db → Type 0
Told lib ev ss w w' =
    (es : List OutboxEvent) × Announces lib w.now ev (reject (is_new ev) ss) es
    × (w'.db ≡ record w.db { events = w.db.events ++ es })

abbrev pub NotTold : World Db → Error → World Db → Type 0
NotTold w e w' = w'.db ≡ w.db

inserting-Told :
    (lib : Library) (ev : NewSessionLoggedIn) (ss : List SessionItem) (w : World Db)
    (r : Result (List OutboxEvent))
    → ((es : List OutboxEvent) → r ≡ ok es → Announces lib w.now ev (reject (is_new ev) ss) es)
    → Post (λ _. Told lib ev ss w) (NotTold w) (inserting lib r w)
unfolding insert_outbox_events Outbox.Repository.insert_outbox_events
inserting-Told lib ev ss w (err x) h = record { holds = refl }
inserting-Told lib ev ss w (ok []) h = record {
  holds = ([], h [] refl, ap (λ l. with_events l w.db) (sym (append_nil w.db.events)));
}
inserting-Told lib ev ss w (ok (e ∷ es)) h =
    or_else-Post _ _ w
      (or_else-Post _ _ w
        (weaker-Post _ (exec-Post _ w)
          (λ u w' k. put w' (
            insert_events_appends (e ∷ es) w.db w'.db
              (all_ok (Outbox.Repository.insert_events outbox (e ∷ es) w.db) w.db w'.db k.0)))
          (λ x w' k. kept x w' k))
        (λ x w' k. k))
      (λ x w' k. k)
  where
    put :
        (w' : World Db)
        → w'.db ≡ record w.db { events = w.db.events ++ map pended (e ∷ es) }
        → Told lib ev ss w w'
    put w' k = (
      e ∷ es,
      h (e ∷ es) refl,
      k
          ∙ ap (λ l. with_events (w.db.events ++ l) w.db)
              (Announces-pended lib w.now ev (reject (is_new ev) ss) (e ∷ es) (h (e ∷ es) refl)),
    )

    kept :
        (x : Error) (w' : World Db)
        → ((w'.db ≡ w.db) × (is_nil x ≡ false))
          ⊎ (Outbox.Repository.all_or_nothing outbox
                (Outbox.Repository.insert_events outbox (e ∷ es))
                w.db
              ≡ (err x, w'.db))
        → w'.db ≡ w.db
    kept x w' (inl k) = k.0
    kept x w' (inr k) = all_err (Outbox.Repository.insert_events outbox (e ∷ es) w.db) w.db w'.db k

-- A login, whichever calls fail, puts one waiting event in the outbox for each session of the user
-- but the new one, in the order in which the auth service names them, and each carries the alert for
-- its session; or it reports an error and leaves the tables as they were.
pub alert_sessions_outcome :
    (lib : Library) (uuids : ℕ → ℕ × ℕ) (ev : NewSessionLoggedIn) (ss : List SessionItem)
    (w : World Db)
    → Post (λ _. Told lib ev ss w) (NotTold w) (alert_sessions lib uuids ev (ok ss) w)
unfolding alert_sessions at_now
alert_sessions_outcome lib uuids ev ss w =
    inserting-Told lib ev ss w (session_events lib uuids w.now ev ss)
      (session_events-Announces lib uuids w.now ev ss)
