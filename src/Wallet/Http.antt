-- ===== src/Wallet/Http.antt =====
-- internal/wallet/delivery/http/handler.go. A request's JSON body is what `ShouldBindJSON` makes of
-- it, none where that fails.
use mini_wallet.Base.{ℕ, Option, none, some, String}
use mini_wallet.RichError.{error_text}
use mini_wallet.RichError.Codes.{HttpError, err_http}
use mini_wallet.Sql.{World, ok, err}
use mini_wallet.Wallet.Tables.{TransferRequest, Db}
use mini_wallet.Wallet.Service.{is_ready, TransferResponse, transfer}

pub data Reply : Type 0 where
  -- `c.Status`
  status_only : ℕ → Reply
  -- `c.JSON` of a message, a response, or an error
  told : ℕ → String → Reply
  given : ℕ → TransferResponse → Reply
  failed : HttpError → Reply

abbrev pub live_handler : Reply
live_handler = status_only 200

unfoldable pub ready_handler : World Db → Reply × World Db
ready_handler w =
    let (r, w') = is_ready w in
    elim r [ ok _ ↦ (status_only 200, w') | err e ↦ (failed (err_http e), w') ]

-- `TransferHandler`; the three UUIDs are those that `Transfer` draws. The user's id is always 0.
unfoldable pub transfer_handler : ℕ → ℕ → ℕ → Option TransferRequest → World Db → Reply × World Db
transfer_handler operation_id out_reference in_reference none w = (told 400 "invalid request", w)
transfer_handler operation_id out_reference in_reference (some req) w =
    let ((r, code), w') = transfer operation_id out_reference in_reference 0 req w in
    elim r [ ok response ↦ (given code response, w') | err e ↦ (told code (error_text e), w') ]
