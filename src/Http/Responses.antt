-- ===== src/Http/Responses.antt =====
-- internal/delivery/util/response/response.go: the replies for errors.
use Prim.Native.String
use expire_share_api.Prelude.{ℕ, String, none, some, List, [], ◌∷◌, ◌==◌, if◌then◌else◌, map}
use expire_share_api.Domain.{Error, Cause, is_ctx_error}
use expire_share_api.Http.Reply.{Written, errors}

-- What a validator.FieldError tells: the tag that failed, the field and the tag's parameter.
pub record FieldError : Type 0 where
  pub actual_tag : String
  pub field : String
  pub param : String

validation_message : FieldError → String
validation_message e =
    if e.actual_tag == "min"
    then String.◌++◌ e.field (String.◌++◌ " must be greater or equal than " e.param)
    else if e.actual_tag == "required"
    then String.◌++◌ e.field " is required"
    else if e.actual_tag == "url"
    then String.◌++◌ e.field " is not a URL"
    else String.◌++◌ e.field " is not a valid value"

-- ValidationError, under the status of RenderValidationError.
pub render_validation_error : List FieldError → Written
unfolding validation_message
render_validation_error es =
    some (record { status = 422; body = errors (map validation_message es) })

-- RenderError
abbrev pub render_error : ℕ → String → Written
render_error status message = some (record { status = status; body = errors (message ∷ []) })

abbrev pub internal_error : Written
internal_error = render_error 500 "internal server error"

abbrev pub file_cause : Cause → Written
file_cause Cause.file_not_found = render_error 404 "file with current alias not found"
file_cause Cause.file_password_required = render_error 401 "password for file is required"
file_cause Cause.file_password_invalid = render_error 403 "invalid password"
file_cause Cause.file_size_too_big = render_error 413 "file size is very big"
file_cause Cause.forbidden = render_error 403 "forbidden"
file_cause Cause.upload_limit_exceeded =
    render_error 403 "your upload limit exceeded. delete unnecessary files to upload new"
file_cause _ = none

-- RenderFileServiceError: `none` where it returns false and writes nothing.
unfoldable pub render_file_service_error : Error → Written
render_file_service_error e = file_cause e.cause

abbrev pub auth_cause : String → Cause → Written
auth_cause message Cause.access_token_expired =
    render_error 401 "access token is expired, refresh or login again"
auth_cause message Cause.access_token_revoked =
    render_error 401 "access token is revoked, refresh or login again"
auth_cause message Cause.invalid_argument = render_error 422 message
auth_cause message Cause.invalid_access_token = render_error 401 "invalid access token"
auth_cause message Cause.user_already_exists =
    render_error 409 "user with this login or email already exists"
auth_cause message Cause.role_not_exist = render_error 404 "user has not this role"
auth_cause message Cause.too_many_requests = render_error 429 "too many requests. try again later"
auth_cause message Cause.user_not_found = render_error 404 "user not found"
auth_cause message Cause.invalid_credentials = render_error 401 "login or password is invalid"
auth_cause message Cause.invalid_refresh_token = render_error 401 "refresh token is invalid"
auth_cause message _ = none

-- RenderAuthServiceError
unfoldable pub render_auth_service_error : Error → Written
render_auth_service_error e = auth_cause e.message e.cause

-- `if render(w, r, err) || util.IsCtxError(err) { return }`, and else status 500.
abbrev pub or_internal : Written → Error → Written
or_internal (some r) e = some r
or_internal none e = if is_ctx_error e then none else internal_error

-- How the handlers of files and of users end after an error of their service.
unfoldable pub file_failure : Error → Written
unfolding render_file_service_error
file_failure e = or_internal (render_file_service_error e) e

unfoldable pub auth_failure : Error → Written
unfolding render_auth_service_error
auth_failure e = or_internal (render_auth_service_error e) e

-- The lists and the statistics have no errors of their own.
unfoldable pub plain_failure : Error → Written
plain_failure e = or_internal none e
