-- ===== src/RichError.antt =====
-- pkg/richerror/richerror.go: errors that carry operations, a wrapped error, a message, a kind and
-- validations. `Error` is Go's interface `error` with the dynamic types that this program
-- inspects; `nil` is the nil interface, which some calls of `WithWrapper` are given.
-- An operation is a name that is only collected: a text. `Kind` is an enumeration: the program
-- makes no other value of the Go type `Kind int` than its constants.
pub mod Codes
pub mod Laws
mod Tests
use text.Mathlib.Text.{◌==◌ as str_eq}
use mini_wallet.Base.{
  Bool, true, false, Option, none, some, List, [], ◌∷◌, ◌++◌, String, ℕ, if◌then◌else◌, ◌==◌,
}

pub data Kind : Type 0 where
  unknown bad_request unauthorized forbidden not_found conflict gone : Kind
  too_many_requests internal unavailable unprocessable : Kind

-- A Go map is a function of its keys; the association list keeps a key once.
abbrev pub Validations : Type 0
Validations = List (String × List String)

mutual
  pub data RichError : Type 0 where
    rich_error : List String → Error → String → Kind → Validations → RichError

  pub data Error : Type 0 where
    nil : Error
    plain : String → Error
    no_rows : Error
    mysql_error : ℕ → String → Error
    wrapped : String → Error → Error
    rich : RichError → Error

-- `errors.As(err, &re)`: the first `*RichError` of the chain.
abbrev pub as_rich : Error → Option RichError
as_rich nil = none
as_rich (plain m) = none
as_rich no_rows = none
as_rich (mysql_error n m) = none
as_rich (wrapped m e) = as_rich e
as_rich (rich r) = some r

abbrev mutual
  -- `errors.As(err, &mysqlErr)`: the number of the first `*mysql.MySQLError` of the chain.
  pub as_mysql : Error → Option ℕ
  as_mysql nil = none
  as_mysql (plain m) = none
  as_mysql no_rows = none
  as_mysql (mysql_error n m) = some n
  as_mysql (wrapped m e) = as_mysql e
  as_mysql (rich r) = rich_as_mysql r

  pub rich_as_mysql : RichError → Option ℕ
  rich_as_mysql (rich_error ops w m k v) = as_mysql w

abbrev mutual
  -- `errors.Is(err, sql.ErrNoRows)`
  pub is_no_rows : Error → Bool
  is_no_rows nil = false
  is_no_rows (plain m) = false
  is_no_rows no_rows = true
  is_no_rows (mysql_error n m) = false
  is_no_rows (wrapped m e) = is_no_rows e
  is_no_rows (rich r) = rich_is_no_rows r

  pub rich_is_no_rows : RichError → Bool
  rich_is_no_rows (rich_error ops w m k v) = is_no_rows w

-- `errors.As(err, &mysqlErr) && mysqlErr.Number == 1062`
abbrev pub is_duplicate : Error → Bool
is_duplicate e = elim (as_mysql e) [ none ↦ false | some n ↦ n == 1062 ]

abbrev pub operations : RichError → List String
operations (rich_error ops w m k v) = ops

abbrev pub validations : RichError → Validations
validations (rich_error ops w m k v) = v

-- `Unwrap`
abbrev pub wrapper : RichError → Error
wrapper (rich_error ops w m k v) = w

-- `New`
abbrev pub new : String → RichError
new op = rich_error (op ∷ []) nil "" unknown []

-- The operations that a wrapped error hands up.
abbrev pub inner_operations : Option RichError → List String
inner_operations none = []
inner_operations (some r) = operations r

abbrev pub with_wrapper : Error → RichError → RichError
with_wrapper e (rich_error ops w m k v) = rich_error (ops ++ inner_operations (as_rich e)) e m k v

abbrev pub with_message : String → RichError → RichError
with_message m (rich_error ops w _ k v) = rich_error ops w m k v

abbrev pub with_kind : Kind → RichError → RichError
with_kind k (rich_error ops w m _ v) = rich_error ops w m k v

abbrev pub with_validations : Validations → RichError → RichError
with_validations v (rich_error ops w m k _) = rich_error ops w m k v

-- `r.validations[field] = append(r.validations[field], message)`
abbrev pub add_validation : String → String → Validations → Validations
add_validation f m [] = (f, m ∷ []) ∷ []
add_validation f m ((g, ms) ∷ v) =
    if str_eq g f then (g, ms ++ m ∷ []) ∷ v else (g, ms) ∷ add_validation f m v

abbrev pub with_validation : String → String → RichError → RichError
with_validation f m (rich_error ops w t k v) = rich_error ops w t k (add_validation f m v)

abbrev pub has_validations : RichError → Bool
has_validations (rich_error ops w m k []) = false
has_validations (rich_error ops w m k (_ ∷ _)) = true

-- `err.Error()`; the nil interface has no message, and is never asked for one.
abbrev pub error_text : Error → String
error_text nil = ""
error_text (plain m) = m
error_text no_rows = "sql: no rows in result set"
error_text (mysql_error n m) = m
error_text (wrapped m e) = m
error_text (rich (rich_error ops w m k v)) = m

-- `if r.kind != 0`
abbrev pub kind_or : Kind → Kind → Kind
kind_or unknown k = k
kind_or bad_request _ = bad_request
kind_or unauthorized _ = unauthorized
kind_or forbidden _ = forbidden
kind_or not_found _ = not_found
kind_or conflict _ = conflict
kind_or gone _ = gone
kind_or too_many_requests _ = too_many_requests
kind_or internal _ = internal
kind_or unavailable _ = unavailable
kind_or unprocessable _ = unprocessable

-- `if r.message != ""`
abbrev pub message_or : String → String → String
message_or m d = if str_eq m "" then d else m

abbrev mutual
  -- `Kind`: the own kind, else that of the first `*RichError` among the wrapped errors.
  pub kind : RichError → Kind
  kind (rich_error ops w m k v) = kind_or k (wrapped_kind w)

  pub wrapped_kind : Error → Kind
  wrapped_kind nil = unknown
  wrapped_kind (plain m) = unknown
  wrapped_kind no_rows = unknown
  wrapped_kind (mysql_error n m) = unknown
  wrapped_kind (wrapped m e) = wrapped_kind e
  wrapped_kind (rich r) = kind r

abbrev mutual
  -- `Message`: the own message, else that of the first `*RichError` among the wrapped errors, else
  -- the text of the wrapped error.
  pub message : RichError → String
  message (rich_error ops w m k v) = message_or m (wrapped_message w (error_text w))

  -- The second argument is the text for a chain with no `*RichError` in it.
  pub wrapped_message : Error → String → String
  wrapped_message nil d = d
  wrapped_message (plain m) d = d
  wrapped_message no_rows d = d
  wrapped_message (mysql_error n m) d = d
  wrapped_message (wrapped m e) d = wrapped_message e d
  wrapped_message (rich r) d = message r

mutual
  -- `UnwrapAll`
  pub unwrap_all : Error → List String
  unwrap_all nil = []
  unwrap_all (plain m) = m ∷ []
  unwrap_all no_rows = error_text no_rows ∷ []
  unwrap_all (mysql_error n m) = m ∷ []
  unwrap_all (wrapped m e) = m ∷ unwrap_all e
  unwrap_all (rich r) = unwrap_rich r

  unwrap_rich : RichError → List String
  unwrap_rich (rich_error ops w m k v) = m ∷ unwrap_all w

-- `Trace`: `operations[1:]` and the texts of the wrapped errors, or nil for no operation at all.
pub trace_from : List String → Error → List String × List String
trace_from [] w = ([], [])
trace_from (op ∷ ops) w = (ops, unwrap_all w)

pub trace : RichError → List String × List String
unfolding trace_from
trace r = trace_from (operations r) (wrapper r)

-- `errors.As(err, &re) && re.Kind() == kind`, for the kinds that the program tests for.
abbrev pub is_conflict : Kind → Bool
is_conflict conflict = true
is_conflict _ = false

abbrev pub is_not_found : Kind → Bool
is_not_found not_found = true
is_not_found _ = false

abbrev pub as_conflict : Error → Bool
as_conflict e = elim (as_rich e) [ none ↦ false | some r ↦ is_conflict (kind r) ]

abbrev pub as_not_found : Error → Bool
as_not_found e = elim (as_rich e) [ none ↦ false | some r ↦ is_not_found (kind r) ]

-- `richerror.New(op).WithWrapper(err).WithMessage(message).WithKind(kind)`
abbrev pub report : String → Error → String → Kind → Error
report op e m k = rich (with_kind k (with_message m (with_wrapper e (new op))))

-- The same without `WithWrapper`.
abbrev pub report_new : String → String → Kind → Error
report_new op m k = rich (with_kind k (with_message m (new op)))
