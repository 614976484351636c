-- ===== src/Notification/Tickets.antt =====
-- internal/notification/service/notification/service.go and
-- internal/notification/delivery/http/handler.go. The client of redis is a parameter, by what it does
-- to the keys; a call of it may report an error. A ticket is the number of its text, 0 for the empty
-- one; a value is its bytes.
use text.Mathlib.Text.{◌==◌ as str_eq}
use mini_wallet.Base.{ℕ, List, Option, String, Bool, if◌then◌else◌, ◌==◌}
use mini_wallet.RichError.{Error, plain, error_text}
use mini_wallet.Sql.{
  World, Result, ok, err, Action, ◌>>=◌, ◌>>◌, pure, call, exec, or_else, at_now, returned,
  required,
}

-- The commands of redis that the service uses, on the keys `ticket:...`.
pub record Redis (S : Type 0) : Type 0 where
  -- `Set(key, value, ttl)` at some time
  pub set : ℕ → List ℕ → ℕ → ℕ → S → S
  -- `GetDel(key)` at some time, none where the client reports `redis.Nil`
  pub get_del : ℕ → ℕ → S → Option (List ℕ) × S

pub record Library : Type 0 where
  -- `hex.EncodeToString`
  pub encode_to_string : List ℕ → ℕ
  -- the text that the client of redis makes of an int64, and `strconv.ParseInt`
  pub format_int : ℕ → List ℕ
  pub parse_int : List ℕ → Result ℕ

abbrev pub ticket_not_found : Error
ticket_not_found = plain "ticket not found or expired"

abbrev pub internal_server_error : Error → Error
internal_server_error _ = plain "internal Server Error"

-- `generateTicketID`, from what `rand.Read` gives
abbrev pub generate_ticket_id : Library → Result (List ℕ) → Result ℕ
generate_ticket_id lib (err e) = err e
generate_ticket_id lib (ok bytes) = ok (lib.encode_to_string bytes)

module _ {S : Type 0} (redis : Redis S) where
  -- `IsReady`, with the status
  unfoldable pub is_ready : World S → (Result (Unit {0}) × ℕ) × World S
  is_ready w =
      let (r, w') = call w in
      elim r [ err e ↦ ((err (plain "redis down"), 503), w') | ok _ ↦ ((ok tt, 200), w') ]

  module _ (lib : Library) where
    unfoldable pub create_ticket : ℕ → Result (List ℕ) → ℕ → Action S ℕ
    create_ticket ticket_ttl bytes user_id = do
      ticket ← returned (generate_ticket_id lib bytes)
      or_else
          (at_now
            λ now. exec λ s. (ok tt, redis.set ticket (lib.format_int user_id) ticket_ttl now s))
          internal_server_error
      pure ticket

    unfoldable pub consume_ticket : ℕ → Action S ℕ
    consume_ticket code = do
      found ←
          or_else (at_now λ now. exec λ s. let (v, s') = redis.get_del code now s in (ok v, s'))
            internal_server_error
      id_string ← required found ticket_not_found
      or_else (returned (lib.parse_int id_string)) internal_server_error

-- What `NotificationsHandler` and `TicketHandler` do with a request: answer an error, a ticket, or
-- connect the user to the hub.
pub data Answer : Type 0 where
  refused : ℕ → String → Answer
  ticket_given : ℕ → Answer
  stream : ℕ → Answer

abbrev pub is_ticket_not_found : Error → Bool
is_ticket_not_found e = str_eq (error_text e) (error_text ticket_not_found)

module _ {S : Type 0} (redis : Redis S) (lib : Library) where
  unfoldable pub ticket_handler : ℕ → Result (List ℕ) → ℕ → World S → Answer × World S
  ticket_handler ticket_ttl bytes account_id w =
      let (r, w') = create_ticket redis lib ticket_ttl bytes account_id w in
      elim r [ err e ↦ (refused 500 (error_text e), w') | ok t ↦ (ticket_given t, w') ]

  unfoldable pub notifications_handler : ℕ → World S → Answer × World S
  notifications_handler ticket w =
      if ticket == 0
      then (refused 400 "ticket required", w)
      else let (r, w') = consume_ticket redis lib ticket w in
        elim r [
          | err e ↦
              if is_ticket_not_found e
              then (refused 401 "invalid or expired ticket", w')
              else (refused 500 (error_text e), w')
          | ok user_id ↦ (stream user_id, w')
        ]
