-- ===== src/Errors.antt =====
-- pkg/errors/error.go, and the error values that the services pass on.
-- An error is the registration service's own `*crterrors.Error`, a Kubernetes `*StatusError` with
-- its HTTP code, any other error, or one of these wrapped with a text (errs.Wrap, fmt.Errorf %w).
use registration_service.Prelude.{ℕ, Bool, false, Option, none, some, String, eqb, if◌then◌else◌}
use registration_service.Text.{◌⧺◌, is_empty}

-- `Error`. The field `Status` is http.StatusText of the code, and is left out.
pub record Error : Type 0 where
  pub code : ℕ
  pub message : String
  pub details : String

pub data Err : Type 0 where
  crt : Error → Err
  status : ℕ → String → Err
  plain : String → Err
  wrapped : String → Err → Err

-- Error() of `*crterrors.Error`.
unfoldable pub crt_text : Error → String
crt_text e = if is_empty e.details then e.message else e.message ⧺ ": " ⧺ e.details

-- Error()
unfoldable pub error_text : Err → String
unfolding crt_text
error_text (crt e) = crt_text e
error_text (status code message) = message
error_text (plain message) = message
error_text (wrapped message e) = message ⧺ ": " ⧺ error_text e

abbrev pub forbidden : ℕ
forbidden = 403

abbrev pub unauthorized : ℕ
unauthorized = 401

abbrev pub too_many_requests : ℕ
too_many_requests = 429

abbrev pub internal_server_error : ℕ
internal_server_error = 500

abbrev pub not_found : ℕ
not_found = 404

abbrev pub bad_request : ℕ
bad_request = 400

abbrev pub conflict : ℕ
conflict = 409

abbrev pub new_forbidden_error : String → String → Err
new_forbidden_error message details =
    crt (record { code = forbidden; message = message; details = details })

abbrev pub new_unauthorized_error : String → String → Err
new_unauthorized_error message details =
    crt (record { code = unauthorized; message = message; details = details })

abbrev pub new_too_many_requests_error : String → String → Err
new_too_many_requests_error message details =
    crt (record { code = too_many_requests; message = message; details = details })

abbrev pub new_internal_error : Err → String → Err
new_internal_error e details =
    crt (record { code = internal_server_error; message = error_text e; details = details })

abbrev pub new_not_found_error : Err → String → Err
new_not_found_error e details =
    crt (record { code = not_found; message = error_text e; details = details })

abbrev pub new_bad_request : String → String → Err
new_bad_request message details =
    crt (record { code = bad_request; message = message; details = details })

-- errors.As(err, &e) with e a `*crterrors.Error`: the outermost one in the chain.
unfoldable pub as_crt : Err → Option Error
as_crt (crt e) = some e
as_crt (status code message) = none
as_crt (plain message) = none
as_crt (wrapped message e) = as_crt e

-- errors.As(err, &e) with e a `*StatusError`: its HTTP code.
unfoldable pub as_status : Err → Option ℕ
as_status (crt e) = none
as_status (status code message) = some code
as_status (plain message) = none
as_status (wrapped message e) = as_status e

abbrev is_code : ℕ → Option ℕ → Bool
is_code n none = false
is_code n (some code) = eqb code n

-- apierrors.IsNotFound: a status error that says 404.
unfoldable pub is_not_found : Err → Bool
unfolding as_status
is_not_found e = is_code not_found (as_status e)
