-- ===== src/Tasks/Errors.antt =====
-- src/mineru_gateway/tasks/errors.py: which failures of a dispatch are worth a retry.
use mineru_gateway.Base.{
  Bool, true, false, ℕ, Option, none, some, ◌&&◌, not, ltb, leb, eqb, if◌then◌else◌,
}

-- What `classify_error` can see of an exception: an `httpx.HTTPStatusError` with its status code,
-- a transport error (`TimeoutException`, `ConnectError`, `RemoteProtocolError`, `OSError`), or any
-- other exception, with its `status_code` attribute where it has one.
pub data Failure : Type 0 where
  http_status : ℕ → Failure
  transport : Failure
  other : Option ℕ → Failure

pub data ErrorClass : Type 0 where
  infra content : ErrorClass

abbrev classify_status : ℕ → ErrorClass
classify_status status =
    if leb 400 status && ltb status 500 && not (eqb status 429)
    then ErrorClass.content
    else ErrorClass.infra

unfoldable pub classify_error : Failure → ErrorClass
classify_error (http_status status) = classify_status status
classify_error transport = ErrorClass.infra
classify_error (other none) = ErrorClass.infra
classify_error (other (some status)) = classify_status status

unfoldable pub should_retry : Failure → Bool
unfolding classify_error
should_retry failure = elim (classify_error failure) [ infra ↦ true | content ↦ false ]
