-- ===== src/Http/UserHandlers.antt =====
-- internal/delivery/handlers/api/admin/users: get, getAll, roles/assign and roles/revoke.
use expire_share_api.Prelude.{String, Option, none, some, ℤ, ℕ, ◌==◌, if◌then◌else◌}
use expire_share_api.Domain.{UserRole}
use expire_share_api.World.{Result, ok, err, Done}
use expire_share_api.Http.Text.{parse_int, scan_pagination_args}
use expire_share_api.Http.Reply.{Written, User, empty_response, user_info, user_page}
use expire_share_api.Http.Responses.{render_error, auth_failure, plain_failure}
use expire_share_api.Http.AuthClient.{GetAllUsers, AllUsers, RoleCommand}
use expire_share_api.Http.AuthHandlers.{with_body, answer_with}

-- `strconv.ParseInt(chi.URLParam(r, "id"), 10, 64)`, and 400 where it fails.
abbrev with_id : Option ℤ → (ℤ → Written) → Written
with_id none k = render_error 400 "failed to parse user id"
with_id (some id) k = k id

-- get.New of users
unfoldable pub get_user_handler : (ℤ → Result User) → String → Written
unfolding auth_failure parse_int
get_user_handler get_user id =
    with_id (parse_int 64 id)
      λ user_id. answer_with (λ u. record { status = 200; body = user_info u }) (get_user user_id)

abbrev role_query : String → Option UserRole
role_query role = if role == "" then none else some role

abbrev users_reply : ℕ × ℕ → Result AllUsers → Written
users_reply (page, limit) (ok a) =
    some (record { status = 200; body = user_page page limit a.total a.users })
users_reply (page, limit) (err e) = plain_failure e

abbrev users_command : ℕ × ℕ → String → GetAllUsers
users_command (page, limit) role = record { page = page; limit = limit; role = role_query role }

-- getAll.New of users
unfoldable pub get_all_users_handler :
    (GetAllUsers → Result AllUsers) → String → String → String → Written
unfolding plain_failure
get_all_users_handler get_all page limit role =
    let args = scan_pagination_args page limit in
    users_reply args (get_all (users_command args role))

-- assign.New; its Request has the role only.
unfoldable pub assign_handler : (RoleCommand → Result Done) → String → Option String → Written
unfolding auth_failure parse_int
assign_handler assign id body = with_body body λ role. with_id (parse_int 64 id) λ user_id.
    answer_with (λ _. record { status = 201; body = empty_response })
      (assign (record { user_id = user_id; role = role }))

-- revoke.New
unfoldable pub revoke_handler : (RoleCommand → Result Done) → String → Option String → Written
unfolding auth_failure parse_int
revoke_handler revoke id body = with_body body λ role. with_id (parse_int 64 id) λ user_id.
    answer_with (λ _. record { status = 204; body = empty_response })
      (revoke (record { user_id = user_id; role = role }))
