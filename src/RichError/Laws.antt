-- ===== src/RichError/Laws.antt =====
-- What `Kind`, `Trace`, `WithValidation`, `ErrHTTP` and `ErrGRPC` promise (pkg/richerror).
use text.Mathlib.Text.{◌==◌ as str_eq}
use text.Mathlib.TextEquality.{eq_iff}
use mini_wallet.Base.{
  ◌<◌, ◌≤◌, ◌≡◌, refl, ap, Bool, Option, none, some, List, [], ◌∷◌, ◌++◌, String, if◌then◌else◌,
  arith, ltb, true, false, inl, inr, Option-cases,
}
use mini_wallet.RichError.{
  Kind, unknown, Error, nil, plain, no_rows, mysql_error, wrapped, rich, RichError, rich_error,
  Validations, as_rich, kind, kind_or, wrapped_kind, trace, inner_operations, unwrap_all, report,
  add_validation,
}
use mini_wallet.RichError.Codes.{
  kind_to_http_status, kind_to_grpc_code, err_http, err_grpc, GrpcCode, code_internal,
  code_unavailable,
}

abbrev pub kind_of_option : Option RichError → Kind
kind_of_option none = unknown
kind_of_option (some r) = kind r

-- The kind that wrapped errors hand up is that of the error that `errors.As` finds, and unknown
-- where it finds none.
wrapped_kind-as_rich : (e : Error) → wrapped_kind e ≡ kind_of_option (as_rich e)
wrapped_kind-as_rich nil = refl
wrapped_kind-as_rich (plain m) = refl
wrapped_kind-as_rich no_rows = refl
wrapped_kind-as_rich (mysql_error n m) = refl
wrapped_kind-as_rich (wrapped m e) = wrapped_kind-as_rich e
wrapped_kind-as_rich (rich r) = refl

-- One layer of the way up: the operation, the message and the kind that it puts on the error.
pub record Layer : Type 0 where
  pub op : String
  pub text : String
  pub kind : Kind

-- The error after it has gone up through the layers, the outermost first.
abbrev pub reports : List Layer → Error → Error
reports [] e = e
reports (l ∷ ls) e = report l.op (reports ls e) l.text l.kind

abbrev pub ops : List Layer → List String
ops [] = []
ops (l ∷ ls) = l.op ∷ ops ls

abbrev pub texts : List Layer → List String
texts [] = []
texts (l ∷ ls) = l.text ∷ texts ls

inner_operations-reports :
    (ls : List Layer) (e : Error)
    → as_rich e ≡ none
    → inner_operations (as_rich (reports ls e)) ≡ ops ls
inner_operations-reports [] e h = rw h
inner_operations-reports (l ∷ ls) e h = ap (◌∷◌ l.op) (inner_operations-reports ls e h)

unwrap_all-reports :
    (ls : List Layer) (e : Error) → unwrap_all (reports ls e) ≡ texts ls ++ unwrap_all e
unfolding unwrap_all
unwrap_all-reports [] e = refl
unwrap_all-reports (l ∷ ls) e = ap (◌∷◌ l.text) (unwrap_all-reports ls e)

-- The trace of an error from outside that has gone up through layers of `New(op).WithWrapper(err)`
-- lists every layer below the outermost, its operation and its message, in order, and then
-- the texts of the error from outside.
trace-reports :
    (r : RichError) (l : Layer) (ls : List Layer) (e : Error)
    → as_rich e ≡ none
    → reports (l ∷ ls) e ≡ rich r
    → trace r ≡ (ops ls, texts ls ++ unwrap_all e)
unfolding trace
trace-reports (rich_error o w m k v) l ls e h p =
    ground (arith, inner_operations-reports ls e h, unwrap_all-reports ls e)

-- The outermost kind alone decides the status that a client sees, whatever is wrapped inside, and
-- an outermost layer without a kind passes the inner one on.
pub err_http-report :
    (op text : String) (e : Error) (k : Kind)
    → ((err_http (report op e text k)).code ≡ kind_to_http_status (kind_or k (wrapped_kind e)))
      × ((err_grpc (report op e text k)).code ≡ kind_to_grpc_code (kind_or k (wrapped_kind e)))
unfolding err_http err_grpc
err_http-report op text e k = (refl, refl)

abbrev pub is_server_code : GrpcCode → Bool
is_server_code code_internal = true
is_server_code code_unavailable = true
is_server_code _ = false

codes_agree :
    (k : Kind)
    → (is_server_code (kind_to_grpc_code k) ≡ ltb 499 (kind_to_http_status k))
      × (400 ≤ kind_to_http_status k)
      × (kind_to_http_status k < 600)
codes_agree unknown = (refl, omega arith, omega arith)
codes_agree _ = (refl, omega arith, omega arith)

-- HTTP and gRPC agree on whose fault an error is: the gRPC code is Internal or Unavailable exactly
-- where the status is 500 or more, and every status lies from 400 to 599.
err_http-err_grpc :
    (e : Error)
    → (is_server_code (err_grpc e).code ≡ ltb 499 (err_http e).code)
      × (400 ≤ (err_http e).code)
      × ((err_http e).code < 600)
unfolding err_http err_grpc
err_http-err_grpc e = elim (Option-cases (as_rich e)) [
  | inl h ↦ ground (arith, codes_agree unknown)
  | inr (r, h) ↦ ground (arith, codes_agree (kind r))
]

-- The messages reported for a field.
abbrev pub messages_of : String → Validations → List String
messages_of g [] = []
messages_of g ((f, ms) ∷ v) = if str_eq f g then ms else messages_of g v

-- `WithValidation` adds its message behind those of its own field and leaves the other fields'.
messages_of-add_validation :
    (f m g : String) (v : Validations)
    → messages_of g (add_validation f m v)
      ≡ (if str_eq f g then messages_of g v ++ m ∷ [] else messages_of g v)
messages_of-add_validation f m g [] = ground arith
messages_of-add_validation f m g ((j, ms) ∷ v) =
    ground (arith, eq_iff f g, eq_iff j f, eq_iff j g, messages_of-add_validation f m g v)
