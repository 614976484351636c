-- ===== src/Auth/Http/Status.antt =====
-- Which codes a client of internal/auth/delivery/http/handler.go sees.
use mini_wallet.Base.{
  Bool, true, false, some, ◌≡◌, refl, ◌⊎◌, inl, inr, not, ltb, length, any, ◌∙◌, String,
}
use mini_wallet.RichError.{
  Error, RichError, rich, rich_error, unprocessable, with_validation, with_kind, with_message, new,
  has_validations,
}
use mini_wallet.RichError.Codes.{err_http, to_http_status}
use mini_wallet.Sql.{World, Result, ok, err, Action, ◌>>=◌, ◌>>◌, pure, or_else, raise_if, returned}
use mini_wallet.Outbox.Table.{OutboxEvent}
use mini_wallet.Sql.Transactions.{DonePost}
use mini_wallet.Auth.Registration.{Registered, register_outcome}
use mini_wallet.Auth.Tables.{DeviceContext, Db, has_email}
use mini_wallet.Auth.Service.Requests.{
  Config, Library, Drawn, RegisterRequest, RegisterResponse, Response,
}
use mini_wallet.Auth.Service.Register.{register, validate_register, validate_when}
use mini_wallet.Auth.Http.{code_of, replied, register_handler, with_data}

module _ {A : Type 0} (C : Result A × World Db → Type 0) where
  after_check :
      (test : Bool) (e : Error) (k : Action Db A) (w : World Db)
      → (test ≡ true → C (err e, w))
      → C (k w)
      → C ((raise_if test e >> k) w)
  unfolding raise_if ◌>>◌
  after_check true e k w fails next = fails refl
  after_check false e k w fails next = next

  after_call :
      {B : Type 0} (r : Result B) (f : Error → Error) (k : B → Action Db A) (w : World Db)
      → ((e : Error) → C (err (f e), w))
      → ((b : B) → C (k b w))
      → C ((or_else (returned r) f >>= k) w)
  unfolding returned or_else ◌>>=◌
  after_call (ok b) f k w fails next = next b
  after_call (err e) f k w fails next = fails e

  at_end :
      {B : Type 0} (m : Action Db B) (f : Error → Error) (g : B → A) (w : World Db)
      → ((e : Error) (w' : World Db) → C (err (f e), w'))
      → ((b : B) (w' : World Db) → C (ok (g b), w'))
      → C ((or_else m f >>= λ b. pure (g b)) w)
  unfolding or_else ◌>>=◌ pure
  at_end {B} m f g w fails ends = ended (m w)
    where
      ended :
          (r : Result B × World Db)
          → C
              (elim (elim r.0 as (λ _. Result B × World Db) [
                | ok b ↦ (ok b, r.1)
                | err e ↦ (err (f e), r.1)
              ]).0
                as (λ _. Result A × World Db) [
                  | ok b ↦ (
                    ok (g b),
                    (elim r.0 as (λ _. Result B × World Db) [
                      | ok b' ↦ (ok b', r.1)
                      | err e ↦ (err (f e), r.1)
                    ]).1,
                  )
                  | err e ↦ (
                    err e,
                    (elim r.0 as (λ _. Result B × World Db) [
                      | ok b' ↦ (ok b', r.1)
                      | err e' ↦ (err (f e'), r.1)
                    ]).1,
                  )
                ])
      ended (ok b, w') = ends b w'
      ended (err e, w') = fails e w'

validate_when-to_http_status :
    (test : Bool) (field text : String) (r : RichError)
    → to_http_status (validate_when test (with_validation field text) r) ≡ to_http_status r
validate_when-to_http_status true field text (rich_error ops w m k v) = refl
validate_when-to_http_status false field text r = refl

validated_code :
    (lib : Library) (req : RegisterRequest)
    → (err_http (rich (validate_register lib req))).code ≡ 422
unfolding err_http
validated_code lib req =
    let too_short : Bool = ltb (length req.password) 8 in
    let too_long : Bool = ltb 72 (length req.password) in
    let start : RichError =
      with_kind unprocessable (with_message "validation failed" (new "auth.Register")) in
    let short : RichError =
      validate_when too_short (with_validation "password" "password too short") start in
    let long : RichError =
      validate_when too_long (with_validation "password" "password too long") short in
    validate_when-to_http_status (not (lib.matches_email req.email)) "email" "invalid email" long
    ∙ validate_when-to_http_status too_long "password" "password too long" short
    ∙ validate_when-to_http_status too_short "password" "password too short" start

module _ (lib : Library) (config : Config) (drawn : Drawn) (ctx : DeviceContext)
    (req : RegisterRequest) where
  -- The code of the answer to each result of a registration.
  abbrev Coded : Result (Response RegisterResponse × OutboxEvent) × World Db → Type 0
  Coded (ok out, w) = out.0.code ≡ 201
  Coded (err e, w) =
      ((has_validations (validate_register lib req) ≡ true) × ((err_http e).code ≡ 422))
      ⊎ ((err_http e).code ≡ 500)

  register-Coded : (w : World Db) → Coded (register lib config drawn ctx req w)
  unfolding register err_http
  register-Coded w =
      after_check Coded _ _ _ w (λ invalid. inl (invalid, validated_code lib req))
        (after_call Coded _ _ _ w (λ e. inr refl)
          λ hash. at_end Coded _ _ _ w (λ e w'. inr refl) (λ b w'. refl))

  -- A valid request to register an email that a user has is answered 500, the code of a failure of
  -- the service, and never 409, whichever calls fail; the tables stay as they were.
  pub register_handler_taken :
      (w : World Db)
      → has_validations (validate_register lib req) ≡ false
      → any (has_email req.email) w.db.users ≡ true
      → (code_of (register_handler lib config drawn ctx (some req) w).0 ≡ 500)
        × ((register_handler lib config drawn ctx (some req) w).1.db ≡ w.db)
  unfolding register_handler
  register_handler_taken w valid taken =
      answered (register lib config drawn ctx req w) (register-Coded w)
        (register_outcome lib config drawn ctx req w)
    where
      answered :
          (r : Result (Response RegisterResponse × OutboxEvent) × World Db)
          → Coded r
          → DonePost w.db
              (λ out d'.
                (has_validations (validate_register lib req) ≡ false)
                × (out.0.code ≡ 201)
                × Registered lib config drawn req w.now w.db (out.0.body, out.1) d')
              r
          → (code_of (replied {B = RegisterResponse} (λ out. with_data out.0) r).0 ≡ 500)
            × ((replied {B = RegisterResponse} (λ out. with_data out.0) r).1.db ≡ w.db)
      answered (ok out, w') c h =
          let new : any (has_email req.email) w.db.users ≡ false = h.done.2.new_email in cc
      answered (err e, w') (inl (invalid, c)) h = cc
      answered (err e, w') (inr c) h = (c, h.done)
