-- ===== src/Tests/Server/Answers.antt =====
-- The theorems on the statuses of errors, applied to one error of each service.
use expire_share_api.Prelude.{◌≡◌, refl, none, some, [], ◌∷◌, pos}
use expire_share_api.Domain.{Error, sentinel, forbidden}
use expire_share_api.World.{err}
use expire_share_api.Http.AuthClient.{
  GrpcError, status, failed, resource_exhausted, Login, Register, Logout, client_login,
  client_register, client_refresh, client_logout, get_user_by_id, assign_role, revoke_role,
}
use expire_share_api.Http.FileHandlers.{
  upload_handler, download_handler, get_handler, get_all_handler, stat_handler, delete_handler,
}
use expire_share_api.Http.Text.{parse_int}
use expire_share_api.Http.FileHandlers.{complete}
use expire_share_api.Http.Failures.{Refuses, failing, handlers-Refuse}
use expire_share_api.Http.Statuses.{handlers-status_for}
use expire_share_api.Http.AuthHandlers.{
  login_handler, register_handler, refresh_handler, logout_handler,
}
use expire_share_api.Http.UserHandlers.{get_user_handler, assign_handler, revoke_handler}
use expire_share_api.Http.Reply.{UserClaims, status_of}
use expire_share_api.Tests.{calm, world}
use expire_share_api.Tests.Server.{app, form}

abbrev refused : Error
refused = sentinel forbidden

abbrev visitor : UserClaims
visitor = record { user_id = pos 8; roles = "user" ∷ [] }

handlers-Refuse_example :
    let svc = failing refused in
    Refuses refused
      (upload_handler svc (λ _. none) app.service (some visitor) (some form) calm world).0
    × Refuses refused
        (download_handler (λ _ _ u. (err refused, u)) (λ _. "") complete "Ab3dEf" "pw" calm world).0
    × Refuses refused (get_handler svc (some visitor) "Ab3dEf" calm world).0
    × Refuses refused (get_all_handler svc (some visitor) "1" "" calm world).0
    × Refuses refused (stat_handler svc (some visitor) calm world).0
    × Refuses refused (delete_handler svc (some visitor) "Ab3dEf" calm world).0
handlers-Refuse_example =
    handlers-Refuse (λ _. none) app.service refused visitor calm world (some form) "Ab3dEf" "pw" "1"
      "" (λ _. "") complete

abbrev busy : GrpcError
busy = status resource_exhausted "try later"

abbrev credentials : Login
credentials = record { login = "alice"; password = "expire123" }

abbrev newcomer : Register
newcomer = record { login = "alice"; email = "a@example.org"; password = "expire123" }

abbrev leaving : Logout
leaving = record { refresh_token = "r"; access_token = "a" }

handlers-status_for_example :
    (status_of (login_handler (client_login (λ _. failed busy)) (some credentials)) ≡ 429)
    × (status_of (register_handler (client_register (λ _. failed busy)) (some newcomer)) ≡ 429)
    × (status_of (refresh_handler (client_refresh (λ _. failed busy)) (some "r")) ≡ 429)
    × (status_of (logout_handler (client_logout (λ _. failed busy)) (some leaving)) ≡ 429)
    × (status_of (get_user_handler (get_user_by_id (λ _. failed busy)) "17") ≡ 429)
    × (status_of (assign_handler (assign_role (λ _. failed busy)) "17" (some "vip")) ≡ 429)
    × (status_of (revoke_handler (revoke_role (λ _. failed busy)) "17" (some "vip")) ≡ 429)
unfolding parse_int
handlers-status_for_example =
    handlers-status_for busy credentials newcomer "r" leaving "17" "vip" (pos 17) refl
