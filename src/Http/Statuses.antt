-- ===== src/Http/Statuses.antt =====
-- How a failure of the auth service is answered.
use expire_share_api.Prelude.{ℕ, ℤ, String, some, ◌≡◌, refl, arith}
use expire_share_api.Http.Text.{parse_int}
use expire_share_api.Http.Reply.{status_of}
use expire_share_api.Http.Responses.{auth_failure}
use expire_share_api.Http.AuthClient.{
  GrpcError, status, no_status, failed, unauthenticated, already_exists, resource_exhausted,
  not_found, invalid_code, canceled_code, deadline_code, other_code, map_grpc_error, refresh_error,
  revoke_error, Login, Register, Logout, client_login, client_register, client_refresh,
  client_logout, get_user_by_id, assign_role, revoke_role, answered,
}
use expire_share_api.Http.AuthHandlers.{
  login_handler, register_handler, refresh_handler, logout_handler,
}
use expire_share_api.Http.UserHandlers.{get_user_handler, assign_handler, revoke_handler}

-- The status that the client of the server sees for each status of the auth service. For a context
-- that is over nothing is written, and net/http sends 200.
abbrev pub status_for : GrpcError → ℕ
status_for (no_status text) = 500
status_for (status unauthenticated text) = 401
status_for (status already_exists text) = 409
status_for (status resource_exhausted text) = 429
status_for (status not_found text) = 404
status_for (status invalid_code text) = 422
status_for (status canceled_code text) = 200
status_for (status deadline_code text) = 200
status_for (status other_code text) = 500

map_grpc_error-status :
    (g : GrpcError)
    → (status_of (auth_failure (map_grpc_error g)) ≡ status_for g)
      × (status_of (auth_failure (refresh_error g)) ≡ status_for g)
      × (status_of (auth_failure (revoke_error g)) ≡ status_for g)
unfolding auth_failure map_grpc_error refresh_error revoke_error
map_grpc_error-status (no_status text) = (refl, refl, refl)
map_grpc_error-status (status c text) = ground arith

-- Whatever error the auth service fails with, login, register, refresh, logout, the user's lookup
-- and the assignment and the removal of a role, the last three for an id that is a number, answer it
-- with the same status: 401, 409, 429, 404 and 422 for the statuses Unauthenticated, AlreadyExists,
-- ResourceExhausted, NotFound and InvalidArgument, 200 with nothing written for Canceled and
-- DeadlineExceeded, and 500 for all else.
pub handlers-status_for :
    (g : GrpcError) (login : Login) (register : Register) (token : String) (logout : Logout)
    (id role : String) (n : ℤ)
    → parse_int 64 id ≡ some n
    → (status_of (login_handler (client_login (λ _. failed g)) (some login)) ≡ status_for g)
      × (status_of (register_handler (client_register (λ _. failed g)) (some register))
          ≡ status_for g)
      × (status_of (refresh_handler (client_refresh (λ _. failed g)) (some token)) ≡ status_for g)
      × (status_of (logout_handler (client_logout (λ _. failed g)) (some logout)) ≡ status_for g)
      × (status_of (get_user_handler (get_user_by_id (λ _. failed g)) id) ≡ status_for g)
      × (status_of (assign_handler (assign_role (λ _. failed g)) id (some role)) ≡ status_for g)
      × (status_of (revoke_handler (revoke_role (λ _. failed g)) id (some role)) ≡ status_for g)
unfolding login_handler register_handler refresh_handler logout_handler get_user_handler
    assign_handler revoke_handler client_login client_register client_refresh client_logout
    get_user_by_id assign_role revoke_role answered
handlers-status_for g login register token logout id role n h =
    let s = map_grpc_error-status g in (s.0, s.0, s.1, s.1, rw h s.0, rw h s.0, rw h s.2)
