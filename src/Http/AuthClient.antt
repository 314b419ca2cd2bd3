-- ===== src/Http/AuthClient.antt =====
-- internal/infrastructure/grpc: the clients of the auth service, and what they make of its errors.
-- A remote procedure is a parameter: it answers or fails.
use expire_share_api.Prelude.{
  ℕ, ◌%◌, ◌^◌, ◌-◌, String, Bool, Option, List, map, ℤ, pos, negsuc, if◌then◌else◌, ltb,
}
use expire_share_api.Domain.{Error, UserRole, sentinel, opaque, detail, Cause}
use expire_share_api.World.{Result, ok, err, Done}
use expire_share_api.Http.Reply.{User, TokenPair}

-- The codes of google.golang.org/grpc/codes that the clients tell apart.
pub data Code : Type 0 where
  unauthenticated already_exists resource_exhausted not_found invalid_code : Code
  canceled_code deadline_code other_code : Code

-- An error of a call: a gRPC status, or an error that is none.
pub data GrpcError : Type 0 where
  status : Code → String → GrpcError
  no_status : String → GrpcError

pub data Rpc (A : Type 0) : Type 0 where
  answer : A → Rpc A
  failed : GrpcError → Rpc A

-- mapGrpcError, for an error that is not nil.
unfoldable pub map_grpc_error : GrpcError → Error
map_grpc_error (no_status text) = opaque "failed to get grpc status from error"
map_grpc_error (status unauthenticated text) = sentinel Cause.invalid_credentials
map_grpc_error (status already_exists text) = sentinel Cause.user_already_exists
map_grpc_error (status resource_exhausted text) = sentinel Cause.too_many_requests
map_grpc_error (status not_found text) = sentinel Cause.user_not_found
map_grpc_error (status invalid_code text) = detail (sentinel Cause.invalid_argument) text
map_grpc_error (status canceled_code text) = sentinel Cause.canceled
map_grpc_error (status deadline_code text) = sentinel Cause.deadline_exceeded
map_grpc_error (status other_code text) = opaque text

-- The errors of Refresh and Logout: an Unauthenticated status is an invalid refresh token.
unfoldable pub refresh_error : GrpcError → Error
unfolding map_grpc_error
refresh_error (status unauthenticated text) = sentinel Cause.invalid_refresh_token
refresh_error e = map_grpc_error e

-- The errors of RevokeRole.
unfoldable pub revoke_error : GrpcError → Error
unfolding map_grpc_error
revoke_error (status not_found text) = sentinel Cause.role_not_exist
revoke_error e = map_grpc_error e

-- `if err != nil { return nil, f(err) }`
unfoldable pub answered : {A B : Type 0} → (GrpcError → Error) → (A → B) → Rpc A → Result B
answered f g (answer a) = ok (g a)
answered f g (failed e) = err (f e)

-- authv1.UserInfo
pub record UserInfo : Type 0 where
  pub user_id : ℤ
  pub login : String
  pub email : String
  pub roles : List String
  pub is_admin : Bool
  pub created_at : ℤ

-- pbRolesToDomain
pb_roles_to_domain : List String → List UserRole
pb_roles_to_domain roles = map (λ r. r) roles

-- pbUserToDomain
pub pb_user_to_domain : UserInfo → User
unfolding pb_roles_to_domain
pb_user_to_domain u = record {
  id = u.user_id;
  login = u.login;
  email = u.email;
  roles = pb_roles_to_domain u.roles;
  is_admin = u.is_admin;
  created_at = u.created_at;
}

-- commands.Login, commands.Register, commands.Logout
pub record Login : Type 0 where
  pub login : String
  pub password : String

pub record Register : Type 0 where
  pub login : String
  pub email : String
  pub password : String

pub record Logout : Type 0 where
  pub refresh_token : String
  pub access_token : String

-- commands.GetAllUsers, commands.AssignRole and commands.RevokeRole
pub record GetAllUsers : Type 0 where
  pub page : ℕ
  pub limit : ℕ
  pub role : Option UserRole

pub record RoleCommand : Type 0 where
  pub user_id : ℤ
  pub role : UserRole

-- results.Login and results.Refresh
pub record LoginResult : Type 0 where
  pub tokens : TokenPair
  pub user : User
  pub expires_in : ℤ

pub record RefreshResult : Type 0 where
  pub tokens : TokenPair
  pub expires_in : ℤ

-- results.GetAllUsers
pub record AllUsers : Type 0 where
  pub users : List User
  pub total : ℤ

-- results.Validate
pub record Validated : Type 0 where
  pub user_id : ℤ
  pub roles : List UserRole
  pub expires_at : ℤ

-- authv1.TokenStatus, and the answer of ValidateToken.
pub data TokenStatus : Type 0 where
  valid expired invalid_token revoked : TokenStatus

pub record TokenAnswer : Type 0 where
  pub token_status : TokenStatus
  pub user_id : ℤ
  pub roles : List String
  pub expires_at : ℤ

-- The answers of the auth service's Login, Refresh and GetUsers.
pub record LoginAnswer : Type 0 where
  pub tokens : TokenPair
  pub expires_in : ℤ
  pub user : UserInfo

pub record UsersAnswer : Type 0 where
  pub users : List UserInfo
  pub total : ℤ

-- int32(n), for an int that is not negative.
to_int32 : ℕ → ℤ
to_int32 n = let m = n % 2 ^ 32 in if ltb m (2 ^ 31) then pos m else negsuc (2 ^ 32 - m - 1)

-- AuthClient.Login
unfoldable pub client_login : (Login → Rpc LoginAnswer) → Login → Result LoginResult
unfolding answered pb_user_to_domain
client_login rpc cmd =
    answered map_grpc_error
      (λ a. record {
        tokens = a.tokens;
        user = pb_user_to_domain a.user;
        expires_in = a.expires_in;
      })
      (rpc cmd)

-- AuthClient.Register: the id of the new user.
unfoldable pub client_register : (Register → Rpc ℤ) → Register → Result ℤ
client_register rpc cmd = answered map_grpc_error (λ n. n) (rpc cmd)

-- AuthClient.Refresh
unfoldable pub client_refresh : (String → Rpc RefreshResult) → String → Result RefreshResult
client_refresh rpc token = answered refresh_error (λ a. a) (rpc token)

-- AuthClient.Logout
unfoldable pub client_logout : (Logout → Rpc Done) → Logout → Result Done
client_logout rpc cmd = answered refresh_error (λ _. tt) (rpc cmd)

validated : TokenAnswer → TokenStatus → Result Validated
unfolding pb_roles_to_domain
validated a expired = err (sentinel Cause.access_token_expired)
validated a invalid_token = err (sentinel Cause.invalid_access_token)
validated a revoked = err (sentinel Cause.access_token_revoked)
validated a valid =
    ok (record {
      user_id = a.user_id;
      roles = pb_roles_to_domain a.roles;
      expires_at = a.expires_at;
    })

token_result : Rpc TokenAnswer → Result Validated
unfolding validated
token_result (failed e) = err (map_grpc_error e)
token_result (answer a) = validated a a.token_status

-- AuthClient.ValidateToken
pub validate_token : (String → Rpc TokenAnswer) → String → Result Validated
validate_token rpc token = token_result (rpc token)

-- UserClient.GetUserByID
unfoldable pub get_user_by_id : (ℤ → Rpc UserInfo) → ℤ → Result User
get_user_by_id rpc id = answered map_grpc_error pb_user_to_domain (rpc id)

-- UserClient.GetAllUsers: the page and the limit are cut to an int32.
pub client_get_all_users : (Option String → ℤ → ℤ → Rpc UsersAnswer) → GetAllUsers → Result AllUsers
client_get_all_users rpc cmd =
    answered map_grpc_error (λ a. record { users = map pb_user_to_domain a.users; total = a.total })
      (rpc cmd.role (to_int32 cmd.page) (to_int32 cmd.limit))

-- UserClient.AssignRole and UserClient.RevokeRole: mapGrpcError(nil) is nil.
unfoldable pub assign_role : (RoleCommand → Rpc Done) → RoleCommand → Result Done
assign_role rpc cmd = answered map_grpc_error (λ _. tt) (rpc cmd)

unfoldable pub revoke_role : (RoleCommand → Rpc Done) → RoleCommand → Result Done
revoke_role rpc cmd = answered revoke_error (λ _. tt) (rpc cmd)
