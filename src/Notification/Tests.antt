-- ===== src/Notification/Tests.antt =====
-- A user with three sessions, one of them new, on which the theorem about alerts is applied.
use mini_wallet.Base.{List, [], ◌∷◌, none}
use mini_wallet.RichError.{plain}
use mini_wallet.Sql.{World, ok, err}
use mini_wallet.Sql.Calls.{Post}
use mini_wallet.Notification.Tables.{Db}
use mini_wallet.Notification.Subscriber.{
  Library, NewSessionLoggedIn, SessionItem, alert_sessions, other_payload,
}
use mini_wallet.Notification.Alerts.{Told, NotTold, alert_sessions_outcome}

abbrev lib : Library
lib = record {
  unmarshal = λ b. err (plain "malformed");
  to_new_session = λ b. err (plain "malformed");
  to_notification = λ b. ok (record { event_id = 1; payload = other_payload });
  new_any = λ e. ok (e.event_id ∷ []);
  marshal = λ e. ok (7 ∷ e.payload);
  decimal = λ n. "9";
  logged_in_message = λ u s. "user 9 logged in";
}

abbrev quiet : World Db
quiet = record {
  db = record { messages = []; events = []; published = []; sent = [] };
  tx = none;
  faults = [];
  now = 50;
}

abbrev login : NewSessionLoggedIn
login = record { id = 22; user_id = 9 }

abbrev sessions : List SessionItem
sessions =
    record { session_id = 21; push_token = 0 }
    ∷ record { session_id = 22; push_token = 0 }
    ∷ record { session_id = 23; push_token = 4 }
    ∷ []

alert_sessions_outcome_example :
    Post
      (λ _. Told lib login sessions quiet)
      (NotTold quiet)
      (alert_sessions lib (λ n. (n, n)) login (ok sessions) quiet)
alert_sessions_outcome_example = alert_sessions_outcome lib (λ n. (n, n)) login sessions quiet
