-- ===== src/RichError/Codes.antt =====
-- pkg/richerror/http.go and grpc.go: what a client is told of an error.
use mini_wallet.Base.{ℕ, String, none, some, []}
use mini_wallet.RichError.{
  Kind, unknown, bad_request, unauthorized, forbidden, not_found, conflict, gone, too_many_requests,
  internal, unavailable, unprocessable, Error, RichError, Validations, as_rich, kind, message,
  validations, error_text,
}

-- google.golang.org/grpc/codes, those that the program names, by their names.
pub data GrpcCode : Type 0 where
  invalid_argument unauthenticated permission_denied code_not_found already_exists : GrpcCode
  resource_exhausted code_internal code_unavailable : GrpcCode

-- `kindToHTTPStatus`; every constant of `Kind` is a key.
abbrev pub kind_to_http_status : Kind → ℕ
kind_to_http_status unknown = 500
kind_to_http_status bad_request = 400
kind_to_http_status unauthorized = 401
kind_to_http_status forbidden = 403
kind_to_http_status not_found = 404
kind_to_http_status conflict = 409
kind_to_http_status gone = 410
kind_to_http_status too_many_requests = 429
kind_to_http_status internal = 500
kind_to_http_status unavailable = 503
kind_to_http_status unprocessable = 422

abbrev pub to_http_status : RichError → ℕ
to_http_status r = kind_to_http_status (kind r)

pub record HttpError : Type 0 where
  pub text : String
  pub code : ℕ
  pub errors : Validations

-- `ErrHTTP`
unfoldable pub err_http : Error → HttpError
err_http e = elim (as_rich e) [
  | some r ↦ record { text = message r; code = to_http_status r; errors = validations r }
  | none ↦ record { text = error_text e; code = 500; errors = [] }
]

-- `kindToGRPCCode`
abbrev pub kind_to_grpc_code : Kind → GrpcCode
kind_to_grpc_code unknown = code_internal
kind_to_grpc_code bad_request = invalid_argument
kind_to_grpc_code unauthorized = unauthenticated
kind_to_grpc_code forbidden = permission_denied
kind_to_grpc_code not_found = code_not_found
kind_to_grpc_code conflict = already_exists
kind_to_grpc_code gone = code_not_found
kind_to_grpc_code too_many_requests = resource_exhausted
kind_to_grpc_code internal = code_internal
kind_to_grpc_code unavailable = code_unavailable
kind_to_grpc_code unprocessable = invalid_argument

abbrev pub to_grpc_code : RichError → GrpcCode
to_grpc_code r = kind_to_grpc_code (kind r)

pub record GrpcError : Type 0 where
  pub text : String
  pub code : GrpcCode
  pub errors : Validations

-- `ErrGRPC`
unfoldable pub err_grpc : Error → GrpcError
err_grpc e = elim (as_rich e) [
  | some r ↦ record { text = message r; code = to_grpc_code r; errors = validations r }
  | none ↦ record { text = error_text e; code = code_internal; errors = [] }
]
