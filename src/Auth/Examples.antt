-- ===== src/Auth/Examples.antt =====
-- A user with a session, a request to register, and library functions, on which the theorems about
-- internal/auth/service/auth and internal/auth/repository/auth.go are applied.
use mini_wallet.Base.{
  ℕ, ◌+◌, List, [], ◌∷◌, ◌++◌, none, some, String, true, false, ◌==◌, ◌≡◌, ◌≢◌, refl, any, length,
  if◌then◌else◌,
}
use mini_wallet.RichError.{nil, plain, has_validations}
use mini_wallet.Sql.{
  World, ok, err, sql, in_open_tx, or_no_rows, open_tx, commit_result, required, autocommit,
  returned, attempt,
}
use mini_wallet.Sql.Transactions.{DonePost}
use mini_wallet.AccessToken.{generate_access_token}
use mini_wallet.Auth.Tables.{Session, DeviceContext, Db, owned}
use mini_wallet.Auth.Repository.Statements.{
  insert_user, insert_session, renew_session, write_sessions, select_user, upsert_device, archive,
}
use mini_wallet.Auth.Repository.Users.{
  get_user_by_email, create_user, run_in_tx, insert_outbox_event,
}
use mini_wallet.Auth.Repository.Sessions.{rotate_refresh_token, upsert_session, store_session}
use mini_wallet.Auth.Service.Requests.{
  Config, Library, Drawn, RegisterRequest, LoginRequest, RefreshTokenRequest, LoginResponse,
  Response,
}
use mini_wallet.Auth.Service.Register.{register, register_body, validate_register}
use mini_wallet.Auth.Service.Login.{login, login_body}
use mini_wallet.Outbox
use mini_wallet.Outbox.Table.{OutboxEvent, pending}
use mini_wallet.Auth.Service.Sessions.{refresh_token, logout_session, logout_all_sessions}
use mini_wallet.Auth.Registration.{Registered, register_outcome}
use mini_wallet.Auth.Rotation.{Rotated, rotate_refresh_token_outcome}
use mini_wallet.Auth.Reuse.{Turn, rotates, logs_out, perform_all, rotate_refresh_token_once}
use mini_wallet.Auth.Renewal.{renewing, refresh_token_ok}
use mini_wallet.Auth.Revocation.{
  moved, is_ok, without_faults, logout_session_outcome, logout_all_sessions_fails,
}
use mini_wallet.Auth.Credentials.{login_checks}
use mini_wallet.Auth.Http.{code_of, register_handler}
use mini_wallet.Auth.Http.Status.{register_handler_taken}

abbrev phone : DeviceContext
phone = record {
  user_agent = "okhttp";
  ip_address = 10 ∷ 0 ∷ 0 ∷ 1 ∷ [];
  installation_id = 400;
  platform = "android";
  device_name = "Pixel";
  app_version = "1.4.2";
}

abbrev session : Session
session = record {
  id = 1;
  public_id = 21;
  user_id = 1;
  device_id = 1;
  refresh_token_hash = 90;
  ip_address = [];
  user_agent = "okhttp";
  push_token = none;
  expires_at = 5000;
  created_at = 10;
  last_used_at = 10;
}

abbrev tables : Db
tables = record {
  users = record { id = 1; email = "ann@example.com"; password_hash = 8 } ∷ [];
  devices =
      record {
        id = 1;
        public_id = 31;
        installation_id = 400;
        platform = "android";
        device_name = "Pixel";
        app_version = "1.4.1";
        last_seen_at = 10;
      }
      ∷ [];
  sessions = session ∷ [];
  history = [];
  events = [];
  published = [];
  next_user = 2;
  next_device = 2;
  next_session = 2;
}

abbrev quiet : World Db
quiet = record { db = tables; tx = none; faults = []; now = 100 }

-- The commit of the first transaction fails.
abbrev flaky : World Db
flaky = record quiet { faults = nil ∷ nil ∷ nil ∷ nil ∷ plain "connection refused" ∷ [] }

abbrev lib : Library
lib = record {
  matches_email = λ e. true;
  generate_from_password = λ p. ok (length p);
  compare_hash_and_password = λ h p. if h == length p then ok tt else err (plain "mismatch");
  encode_to_string = λ b. b;
  hex_sum256 = λ t. length t;
  jwt = record {
    sign = λ c s. ok (c.account_id ∷ c.session_id ∷ []);
    parse = λ n t k. err (plain "malformed");
  };
  new_any = λ m. ok (1 ∷ []);
  marshal = λ e. ok (e.payload ++ e.payload);
  decimal = λ n. "2";
}

abbrev config : Config
config = record { jwt_secret = 5; access_token_duration = 60; refresh_token_duration = 1000 }

abbrev drawn : Drawn
drawn = record { device_uuid = 51; session_uuid = 52; event_uuid = 53; bytes = ok (1 ∷ 2 ∷ 3 ∷ []) }

abbrev password : List ℕ
password = 112 ∷ 97 ∷ 115 ∷ 115 ∷ 119 ∷ 111 ∷ 114 ∷ 100 ∷ []

abbrev joining : String → RegisterRequest
joining email = record { email = email; password = password; push_token = none }

register_outcome_example :
    DonePost tables
      (λ out d'.
        (has_validations (validate_register lib (joining "bob@example.com")) ≡ false)
        × (out.0.code ≡ 201)
        × Registered lib config drawn (joining "bob@example.com") 100 tables (out.0.body, out.1) d')
      (register lib config drawn phone (joining "bob@example.com") quiet)
register_outcome_example = register_outcome lib config drawn phone (joining "bob@example.com") quiet

-- A test: where every call goes through, the request succeeds.
register-quiet : is_ok (register lib config drawn phone (joining "bob@example.com") quiet).0 ≡ true
unfolding register register_body run_in_tx create_user insert_user insert_outbox_event
    Outbox.Repository.insert_events upsert_session upsert_device store_session insert_session
    generate_access_token sql in_open_tx or_no_rows open_tx commit_result required returned attempt
register-quiet = refl

register_handler_taken_example :
    (code_of (register_handler lib config drawn phone (some (joining "ann@example.com")) quiet).0
      ≡ 500)
    × ((register_handler lib config drawn phone (some (joining "ann@example.com")) quiet).1.db
        ≡ tables)
register_handler_taken_example =
    register_handler_taken lib config drawn phone (joining "ann@example.com") quiet refl refl

rotate_refresh_token_outcome_example :
    DonePost tables
      (Rotated phone 90 91 1100 none 100 tables)
      (rotate_refresh_token phone 90 91 1100 none flaky)
rotate_refresh_token_outcome_example = rotate_refresh_token_outcome phone 90 91 1100 none flaky

-- Its hash of a token of three bytes is 90.
abbrev hashing : Library
hashing = record lib { hex_sum256 = λ t. 87 + length t }

abbrev renewing_request : RefreshTokenRequest
renewing_request = record { refresh_token = 7 ∷ 8 ∷ 9 ∷ []; push_token = none }

refresh_token_ok_example :
    refresh_token hashing config (ok (1 ∷ 2 ∷ 3 ∷ 4 ∷ [])) phone renewing_request quiet ≡ (
      ok (record {
        code = 200;
        body = record {
          access_token = 1 ∷ 21 ∷ [];
          refresh_token = 1 ∷ 2 ∷ 3 ∷ 4 ∷ [];
          device_id = 31;
          session_id = 21;
        };
      }),
      record quiet { db = renewing phone 91 1100 none 100 session tables },
    )
unfolding generate_access_token
refresh_token_ok_example =
    refresh_token_ok hashing config (1 ∷ 2 ∷ 3 ∷ 4 ∷ []) phone renewing_request tables 100 session
      31 (1 ∷ 21 ∷ []) refl refl refl refl refl

-- A rotation of the new token that fails, one that goes through, and a logout.
abbrev between : List Turn
between =
    record {
      operation = rotates phone 91 93 1300 none;
      at = 110;
      faults = nil ∷ plain "connection reset" ∷ [];
    }
    ∷ record { operation = rotates phone 91 93 1300 none; at = 120; faults = [] }
    ∷ record { operation = logs_out 1 21; at = 130; faults = [] }
    ∷ []

abbrev used_again : World Db
used_again = record {
  db = perform_all between (rotate_refresh_token phone 90 91 1100 none quiet).1.db;
  tx = none;
  faults = [];
  now = 140;
}

rotate_refresh_token_once_example :
    (rotate_refresh_token phone 90 92 1200 none used_again).0 ≢ ok (31, 21, 1)
unfolding rotate_refresh_token renew_session write_sessions sql in_open_tx or_no_rows open_tx
    commit_result required
rotate_refresh_token_once_example =
    rotate_refresh_token_once phone 90 91 1100 none quiet (31, 21, 1) refl refl refl between
      (refl, (refl, (tt, tt))) phone 92 1200 none used_again (31, 21, 1) refl

logout_session_outcome_example :
    DonePost tables
      (λ _ d'.
        (any (owned 21 1) tables.sessions ≡ true)
        × (d' ≡ moved (owned 21 1) 100 "logout" "user" tables))
      (logout_session 1 21 quiet)
    × (is_ok (logout_session 1 21 (without_faults quiet)).0 ≡ true)
logout_session_outcome_example = logout_session_outcome 1 21 quiet

logout_all_sessions_fails_example :
    ((logout_all_sessions 1 (some 21) quiet).1.db ≡ tables)
    × ((u : Unit {0}) → (logout_all_sessions 1 (some 21) quiet).0 ≢ ok u)
logout_all_sessions_fails_example = logout_all_sessions_fails 1 (some 21) quiet

abbrev entering : LoginRequest
entering = record { email = "ann@example.com"; password = password; push_token = none }

abbrev entered : Response LoginResponse × OutboxEvent
entered = (
  record {
    code = 200;
    body = record {
      access_token = 1 ∷ 21 ∷ [];
      refresh_token = 1 ∷ 2 ∷ 3 ∷ [];
      device_id = 51;
      session_id = 21;
      user = record { id = 1; email = "ann@example.com"; password_hash = 8 };
    };
  },
  record {
    event_id = 53;
    event_type = "auth.v1.NewSessionLoggedIn";
    payload = 1 ∷ 1 ∷ [];
    aggregate_type = "user";
    aggregate_id = "2";
    status = pending;
    created_at = 100;
    processed_at = none;
    locked_until = none;
  },
)

login_checks_example :
    (entered.0.code ≡ 200)
    × (select_user "ann@example.com" tables ≡ ok entered.0.body.user)
    × (lib.compare_hash_and_password 8 password ≡ ok tt)
unfolding login login_body get_user_by_email run_in_tx upsert_session store_session
    insert_outbox_event Outbox.Repository.insert_events upsert_device archive renew_session
    write_sessions generate_access_token attempt returned autocommit sql in_open_tx open_tx
    commit_result
login_checks_example = login_checks lib config drawn phone entering quiet entered refl
