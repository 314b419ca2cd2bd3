-- ===== src/Domain/Errors.antt =====
-- internal/domain/entities/errors, the context errors and `fmt.Errorf` with `%w`.
use Prim.Native.String
use expire_share_api.Prelude.{String, Bool, true, false}

-- What `errors.Is` finds at the end of an error's chain: a sentinel of the program, an error of
-- the context, of database/sql, or anything else.
pub data Cause : Type 0 where
  alias_taken file_not_found no_downloads_left file_size_too_big upload_limit_exceeded : Cause
  too_many_requests forbidden user_not_found role_not_exist user_already_exists : Cause
  access_token_expired access_token_revoked invalid_access_token invalid_refresh_token : Cause
  invalid_credentials invalid_argument file_password_required file_password_invalid : Cause
  canceled deadline_exceeded no_rows tx_done other : Cause

-- The text of a sentinel. That of `other` is its error's own.
pub text_of : Cause → String
text_of alias_taken = "current alias is already taken"
text_of file_not_found = "file does not exist"
text_of no_downloads_left = "there is no downloads left"
text_of file_size_too_big = "file size too big"
text_of upload_limit_exceeded = "upload limit exceeded"
text_of too_many_requests = "too many requests"
text_of forbidden = "forbidden"
text_of user_not_found = "user not found"
text_of role_not_exist = "role does not exist"
text_of user_already_exists = "user already exists"
text_of access_token_expired = "access token expired"
text_of access_token_revoked = "access token revoked"
text_of invalid_access_token = "invalid access token"
text_of invalid_refresh_token = "invalid refresh token"
text_of invalid_credentials = "invalid login or password"
text_of invalid_argument = "invalid argument"
text_of file_password_required = "file password required for access"
text_of file_password_invalid = "invalid file password"
text_of canceled = "context canceled"
text_of deadline_exceeded = "context deadline exceeded"
text_of no_rows = "sql: no rows in result set"
text_of tx_done = "sql: transaction has already been committed or rolled back"
text_of other = ""

pub record Error : Type 0 where
  pub cause : Cause
  pub message : String

abbrev pub sentinel : Cause → Error
sentinel c = record { cause = c; message = text_of c }

-- errors.New, and a library's error
abbrev pub opaque : String → Error
opaque s = record { cause = other; message = s }

-- fmt.Errorf("<text>: %w", err)
abbrev pub wrap : String → Error → Error
wrap s e = record e { message = String.◌++◌ s (String.◌++◌ ": " e.message) }

-- fmt.Errorf("%w: <text>", err)
abbrev pub detail : Error → String → Error
detail e s = record e { message = String.◌++◌ e.message (String.◌++◌ ": " s) }

abbrev is_ctx_cause : Cause → Bool
is_ctx_cause canceled = true
is_ctx_cause deadline_exceeded = true
is_ctx_cause _ = false

-- isCtxError and util.IsCtxError
abbrev pub is_ctx_error : Error → Bool
is_ctx_error e = is_ctx_cause e.cause

abbrev is_file_not_found : Cause → Bool
is_file_not_found file_not_found = true
is_file_not_found _ = false

-- errors.Is(err, ErrFileNotFound) || isCtxError(err)
abbrev pub is_not_found_or_ctx : Error → Bool
is_not_found_or_ctx e = elim (is_file_not_found e.cause) [ true ↦ true | false ↦ is_ctx_error e ]

abbrev is_user_not_found : Cause → Bool
is_user_not_found user_not_found = true
is_user_not_found _ = false

-- errors.Is(err, ErrUserNotFound) || isCtxError(err)
abbrev pub is_no_user_or_ctx : Error → Bool
is_no_user_or_ctx e = elim (is_user_not_found e.cause) [ true ↦ true | false ↦ is_ctx_error e ]
