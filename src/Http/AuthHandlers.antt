-- ===== src/Http/AuthHandlers.antt =====
-- internal/delivery/handlers/api/auth: login, register, refresh and logout. They have no state of
-- their own: a handler is a function of the parsed body and of what the auth client returns. The
-- body is missing where NewBodyParser has not run.
use expire_share_api.Prelude.{String, Option, none, some, ℤ}
use expire_share_api.World.{Result, ok, err, Done}
use expire_share_api.Http.Reply.{Reply, Written, tokens, registered}
use expire_share_api.Http.Responses.{internal_error, auth_failure}
use expire_share_api.Http.AuthClient.{Login, Register, Logout, LoginResult, RefreshResult}

-- `request, ok := GetParsedBodyRequest[Request](r)`, and 500 where there is none.
abbrev pub with_body : {A : Type 0} → Option A → (A → Written) → Written
with_body none k = internal_error
with_body (some request) k = k request

abbrev pub answer_with : {A : Type 0} → (A → Reply) → Result A → Written
answer_with reply (ok a) = some (reply a)
answer_with reply (err e) = auth_failure e

-- login.New
unfoldable pub login_handler : (Login → Result LoginResult) → Option Login → Written
unfolding auth_failure
login_handler login body = with_body body λ request.
    answer_with (λ r. record { status = 200; body = tokens r.tokens r.expires_in }) (login request)

-- register.New
unfoldable pub register_handler : (Register → Result ℤ) → Option Register → Written
unfolding auth_failure
register_handler register body =
    with_body body λ request.
      answer_with (λ id. record { status = 200; body = registered id }) (register request)

-- refresh.New; its Request has the refresh token only.
unfoldable pub refresh_handler : (String → Result RefreshResult) → Option String → Written
unfolding auth_failure
refresh_handler refresh body = with_body body λ token.
    answer_with (λ r. record { status = 200; body = tokens r.tokens r.expires_in }) (refresh token)

abbrev logout_reply : Result Done → Written
logout_reply (ok _) = none
logout_reply (err e) = auth_failure e

-- logout.New: render.Status without a body writes nothing.
unfoldable pub logout_handler : (Logout → Result Done) → Option Logout → Written
unfolding auth_failure
logout_handler logout body = with_body body λ request. logout_reply (logout request)
