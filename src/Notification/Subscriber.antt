-- ===== src/Notification/Subscriber.antt =====
-- internal/notification/subscriber/handler.go, and `ProcessEvent` of
-- internal/notification/service/outbox/service.go. Protobuf, fmt and the gRPC client of the auth
-- service are parameters.
use text.Mathlib.Text.{◌==◌ as str_eq}
use mini_wallet.Base.{ℕ, List, [], ◌∷◌, ◌++◌, none, String, length, if◌then◌else◌, ◌==◌}
use mini_wallet.RichError.{Error}
use mini_wallet.Sql.{World, Result, ok, err, Action, exec, at_now}
use mini_wallet.Inbox.Handling
use mini_wallet.Inbox.Handling.{Delivered}
use mini_wallet.Outbox.Table.{OutboxEvent, pending}
use mini_wallet.Notification.Tables.{Db, Sent, inbox}
use mini_wallet.Notification.Service.{insert_outbox_events}

-- `commonpb.EventEnvelope`: the type of the event, and its payload, which is still encoded.
pub record Envelope : Type 0 where
  pub event_type : String
  pub payload : List ℕ

-- `authpb.NewSessionLoggedIn`
pub record NewSessionLoggedIn : Type 0 where
  pub id : ℕ
  pub user_id : ℕ

-- `SessionItem`
pub record SessionItem : Type 0 where
  pub session_id : ℕ
  pub push_token : ℕ

-- `notificationpb.SessionPayload`
pub record SessionPayload : Type 0 where
  pub user_id : ℕ
  pub session_id : ℕ
  pub push_token : ℕ

-- The payload of a `notificationpb.NotificationEvent`.
pub data Payload : Type 0 where
  session_payload : SessionPayload → Payload
  other_payload : Payload

-- `notificationpb.NotificationEvent`, whose type is always that of an alert.
pub record NotificationEvent : Type 0 where
  pub event_id : ℕ
  pub payload : Payload

-- `event.TypeAuthNewSessionLoggedIn` and `event.TypeNotificationPush` (pkg/event)
abbrev pub new_session_logged_in : String
new_session_logged_in = "auth.v1.NewSessionLoggedIn"

abbrev pub notification_push : String
notification_push = "notification.v1.push"

pub record Library : Type 0 where
  -- `proto.Unmarshal`, and `Payload.UnmarshalTo` for the two messages
  pub unmarshal : List ℕ → Result Envelope
  pub to_new_session : List ℕ → Result NewSessionLoggedIn
  pub to_notification : List ℕ → Result NotificationEvent
  -- `anypb.New`, `proto.Marshal`
  pub new_any : NotificationEvent → Result (List ℕ)
  pub marshal : Envelope → Result (List ℕ)
  -- `fmt.Sprintf` of an id, and of the message of an alert
  pub decimal : ℕ → String
  pub logged_in_message : ℕ → ℕ → String

-- The alert for a session, with the UUID that it is given.
abbrev pub alert : NewSessionLoggedIn → SessionItem → ℕ → NotificationEvent
alert ev s uuid = record {
  event_id = uuid;
  payload =
      session_payload
        (record { user_id = ev.user_id; session_id = s.session_id; push_token = s.push_token });
}

module _ (lib : Library) where
  -- `event.New` and `proto.Marshal`
  abbrev pub encoded : NotificationEvent → Result (List ℕ)
  encoded e = elim (lib.new_any e) [
    | err x ↦ err x
    | ok payload ↦ lib.marshal (record { event_type = notification_push; payload = payload })
  ]

  abbrev pub push_event : NewSessionLoggedIn → ℕ → ℕ → List ℕ → OutboxEvent
  push_event ev uuid now body = record {
    event_id = uuid;
    event_type = notification_push;
    payload = body;
    aggregate_type = "user";
    aggregate_id = lib.decimal ev.user_id;
    status = pending;
    created_at = now;
    processed_at = none;
    locked_until = none;
  }

  abbrev pub onto : OutboxEvent → Result (List OutboxEvent) → Result (List OutboxEvent)
  onto e (ok es) = ok (e ∷ es)
  onto e (err x) = err x

  -- The loop of `handleNewSession`; `uuids` are those of an alert and of its outbox event, by the
  -- sessions that are left.
  unfoldable pub session_events :
      (ℕ → ℕ × ℕ) → ℕ → NewSessionLoggedIn → List SessionItem → Result (List OutboxEvent)
  session_events uuids now ev [] = ok []
  session_events uuids now ev (s ∷ ss) =
      let rest = session_events uuids now ev ss in
      let drawn = uuids (length ss) in
      if s.session_id == ev.id then rest else elim (encoded (alert ev s drawn.0)) [
        | err x ↦ err x
        | ok body ↦ onto (push_event ev drawn.1 now body) rest
      ]

  abbrev pub inserting : Result (List OutboxEvent) → Action Db (Unit {0})
  inserting (err x) w = (err x, w)
  inserting (ok []) w = (ok tt, w)
  inserting (ok (e ∷ es)) w = insert_outbox_events (e ∷ es) w

  -- `handleNewSession`, from the answer of the auth service on
  unfoldable pub alert_sessions :
      (ℕ → ℕ × ℕ) → NewSessionLoggedIn → Result (List SessionItem) → Action Db (Unit {0})
  alert_sessions uuids ev (err x) w = (err x, w)
  alert_sessions uuids ev (ok ss) w = at_now (λ now. inserting (session_events uuids now ev ss)) w

  abbrev pub sends : Sent → Db → Result (Unit {0}) × Db
  sends m d = (ok tt, record d { sent = d.sent ++ m ∷ [] })

  unfoldable pub send_alert : Payload → Action Db (Unit {0})
  send_alert (session_payload p) w =
      exec
        (sends (record {
          user_id = lib.decimal p.user_id;
          title = "new notification";
          message = lib.logged_in_message p.user_id p.session_id;
        }))
        w
  send_alert other_payload w = (ok tt, w)

  unfoldable pub handle_push_notification : Envelope → Action Db (Unit {0})
  handle_push_notification env = elim (lib.to_notification env.payload) [
    | err x ↦ λ w. (err x, w)
    | ok e ↦ send_alert e.payload
  ]

  abbrev pub takes : List ℕ → Db → Result (Unit {0}) × Db
  takes payload d = (ok tt, record d { published = d.published ++ payload ∷ [] })

  -- `ProcessEvent`
  unfoldable pub process_event : OutboxEvent → Action Db (Unit {0})
  process_event e w =
      if str_eq e.event_type notification_push
      then elim (lib.unmarshal e.payload) [
        | err x ↦ (err x, w)
        | ok env ↦ elim (lib.to_notification env.payload) [
          | err x ↦ (err x, w)
          | ok n ↦ exec (takes e.payload) w
        ]
      ]
      else (ok tt, w)

  module _ (get_user_active_sessions : ℕ → Result (List SessionItem)) (uuids : ℕ → ℕ × ℕ) where
    unfoldable pub handle_new_session : Envelope → Action Db (Unit {0})
    handle_new_session env = elim (lib.to_new_session env.payload) [
      | err x ↦ λ w. (err x, w)
      | ok ev ↦ alert_sessions uuids ev (get_user_active_sessions ev.user_id)
    ]

    unfoldable pub handle_event : Envelope → Action Db (Unit {0})
    handle_event env w =
        if str_eq env.event_type new_session_logged_in
        then handle_new_session env w
        else if str_eq env.event_type notification_push
        then handle_push_notification env w
        else (ok tt, w)

    unfoldable pub handle : Delivered → World Db → Error × World Db
    handle msg w = Handling.handle inbox lib.unmarshal handle_event msg w
