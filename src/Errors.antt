-- ===== src/Errors.antt =====
-- Errors whose identity the callers inspect: HTTPError of internal/auth/signedclient.go, and wrapping.
use muthur_collector.Prelude.{ℕ, ◌≡◌, Bool, ◌||◌, Option, none, some, Text, ◌==◌, nat_eq}
use muthur_collector.Prelude.Result.{Result, ok, err}

pub record HttpError : Type 0 where
  pub status : ℕ
  pub code : Text
  pub message : Text

-- An error value: an HTTPError, any other error by its text, or one wrapped by fmt.Errorf and %w.
pub data Error : Type 0 where
  http : HttpError → Error
  other : Text → Error
  wrap : Text → Error → Error

-- A result whose error is known by its text.
abbrev pub as_error : {A : Type 0} → Result Text A → Result Error A
as_error (ok a) = ok a
as_error (err message) = err (other message)

pub as_error-eq-ok : {A : Type 0} (r : Result Text A) {a : A} → as_error r ≡ ok a → r ≡ ok a
as_error-eq-ok (ok b) e = cc
as_error-eq-ok (err message) e = absurd cc

-- errors.As(err, &he)
unfoldable pub as_http : Error → Option HttpError
as_http (http he) = some he
as_http (other message) = none
as_http (wrap prefix e) = as_http e

-- HTTPError.Permanent: 400, 401, 403, 404, 412, 413 and 415.
unfoldable pub permanent : HttpError → Bool
permanent he =
    he.status == 400
    || he.status == 401
    || he.status == 403
    || he.status == 404
    || he.status == 412
    || he.status == 413
    || he.status == 415
