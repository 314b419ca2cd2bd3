-- ===== src/Http/Routes.antt =====
-- internal/app/app.go: MustMountHandlers, which handler answers which route behind which
-- middlewares, with the Service of internal/services/files over the repository and the storage.
use expire_share_api.Prelude.{ℤ, String, Option, some, List}
use expire_share_api.Domain.{Permissions}
use expire_share_api.World.{Env, Platform, Result, read_clock, Done}
use expire_share_api.Files.{
  upload_file, download_file, delete_file, get_file, get_all_files, get_files_stat,
}
use expire_share_api.RateLimiter.{Params}
use expire_share_api.Http.Reply.{Written, Handler, UserClaims, User}
use expire_share_api.Http.Responses.{FieldError}
use expire_share_api.Http.FileHandlers.{
  FileService, ServiceConfig, Form, Copied, upload_handler, download_handler, delete_handler,
  get_handler, get_all_handler, stat_handler,
}
use expire_share_api.Http.AuthClient.{
  Login, Register, Logout, LoginResult, RefreshResult, Validated, GetAllUsers, AllUsers,
  RoleCommand,
}
use expire_share_api.Http.UserHandlers.{
  get_user_handler, get_all_users_handler, assign_handler, revoke_handler,
}
use expire_share_api.Http.AuthHandlers.{
  login_handler, register_handler, refresh_handler, logout_handler,
}
use expire_share_api.Http.Middlewares.{
  Serve, Asked, rate_limiter, auth, admin_auth, admin_user_context, body_parser, validator,
}

-- What the server is built from: the configuration, the auth client, and the library functions
-- that the handlers call.
pub record App : Type 0 where
  pub platform : Platform
  pub permissions : Permissions
  pub service : ServiceConfig
  pub files_limit : Params
  pub admin_limit : Params
  pub secret : String
  pub decode : String → Option String
  pub parse_duration : String → Option ℤ
  pub type_of : String → String
  pub validate : String → Result Validated

-- One request as it arrives: its address and Authorization header, what its calls meet, and the
-- alias that alias.Gen makes for it.
pub record Arrival : Type 0 where
  pub remote_addr : String
  pub authorization : String
  pub env : Env
  pub asked : Asked
  pub alias : String
  pub copied : Copied

-- The routes on files, with the parts of the request that they read.
pub data Route : Type 0 where
  get_download : String → String → Route
  post_upload : Option Form → Route
  get_files : String → String → Route
  get_stat : Route
  get_info delete_info : String → Route
  admin_files : String → String → String → Route
  admin_stat : String → Route
  admin_get admin_delete : String → Route

-- A handler of the file routes as one of the server.
unfoldable pub on_world : Handler → Env → Serve
on_world h env s = let (reply, w) = h env s.world in (reply, record s { world = w })

module _ (app : App) (a : Arrival) where
  -- files.New: the service that the handlers get.
  unfoldable pub file_service : FileService
  file_service = record {
    upload_file = λ cmd. upload_file app.platform app.permissions cmd a.alias;
    download_file = λ cmd. download_file app.platform cmd;
    get_file_by_alias = λ cmd env. get_file app.platform (env.now read_clock) cmd env;
    get_all_files = λ cmd env. get_all_files (env.now read_clock) cmd env;
    get_files_stat = λ user. get_files_stat app.permissions user;
    delete_file = λ cmd. delete_file app.platform cmd;
  }

  abbrev pub user_route : (Option UserClaims → Handler) → Serve
  user_route h = auth app.validate a.authorization λ c. on_world (h (some c)) a.env

  abbrev pub admin_route : Serve → Serve
  admin_route next =
      admin_auth app.admin_limit a.asked app.decode app.secret a.remote_addr a.authorization next

  -- The routes of the API that the file service answers. `/admin/files/{alias}` has no `id`, so
  -- its claims have the user id 0.
  unfoldable pub serve : Route → Serve
  unfolding rate_limiter auth admin_auth on_world file_service download_handler upload_handler
      get_all_handler stat_handler get_handler delete_handler
  serve (get_download alias password) = rate_limiter app.files_limit a.asked a.remote_addr (
      on_world (download_handler (download_file app.platform) app.type_of a.copied alias password)
        a.env)
  serve (post_upload form) =
      user_route λ c. upload_handler file_service app.parse_duration app.service c form
  serve (get_files page limit) = user_route λ c. get_all_handler file_service c page limit
  serve get_stat = user_route λ c. stat_handler file_service c
  serve (get_info alias) = user_route λ c. get_handler file_service c alias
  serve (delete_info alias) = user_route λ c. delete_handler file_service c alias
  serve (admin_files id page limit) =
      admin_route
        (on_world (get_all_handler file_service (some (admin_user_context id)) page limit) a.env)
  serve (admin_stat id) =
      admin_route (on_world (stat_handler file_service (some (admin_user_context id))) a.env)
  serve (admin_get alias) =
      admin_route (on_world (get_handler file_service (some (admin_user_context "")) alias) a.env)
  serve (admin_delete alias) =
      admin_route
        (on_world (delete_handler file_service (some (admin_user_context "")) alias) a.env)

-- A JSON body as it arrives: the method, Content-Length, and what decoding gives.
pub record Posted (A : Type 0) : Type 0 where
  pub method : String
  pub content_length : ℤ
  pub decoded : Option A

-- NewBodyParser, NewValidator and a handler of /api/auth.
abbrev parsed_route :
    {A : Type 0} → (A → List FieldError) → (Option A → Written) → Posted A → Written
parsed_route struct h body =
    body_parser body.method body.content_length body.decoded (validator struct h)

-- POST /api/auth/login
unfoldable pub post_login :
    (Login → List FieldError) → (Login → Result LoginResult) → Posted Login → Written
unfolding body_parser validator login_handler
post_login struct login body = parsed_route struct (login_handler login) body

-- POST /api/auth/refresh
pub post_refresh :
    (String → List FieldError) → (String → Result RefreshResult) → Posted String → Written
unfolding body_parser validator refresh_handler
post_refresh struct refresh body = parsed_route struct (refresh_handler refresh) body

-- POST /api/auth/logout
pub post_logout : (Logout → List FieldError) → (Logout → Result Done) → Posted Logout → Written
unfolding body_parser validator logout_handler
post_logout struct logout body = parsed_route struct (logout_handler logout) body

-- POST /api/auth/register, behind a limiter of its own.
pub post_register :
    (Register → List FieldError)
    → (Register → Result ℤ)
    → Params
    → Asked
    → String
    → Posted Register
    → Serve
unfolding rate_limiter body_parser validator register_handler
post_register struct register ps asked remote_addr body =
    rate_limiter ps asked remote_addr λ s. (parsed_route struct (register_handler register) body, s)

-- The routes of /api/admin/users on users and their roles, behind NewAdminAuth.
module _ (app : App) (a : Arrival) where
  abbrev behind_admin : Written → Serve
  behind_admin reply =
      admin_auth app.admin_limit a.asked app.decode app.secret a.remote_addr a.authorization
        λ s. (reply, s)

  pub get_user : (ℤ → Result User) → String → Serve
  unfolding admin_auth get_user_handler
  get_user rpc id = behind_admin (get_user_handler rpc id)

  pub get_users : (GetAllUsers → Result AllUsers) → String → String → String → Serve
  unfolding admin_auth get_all_users_handler
  get_users rpc page limit role = behind_admin (get_all_users_handler rpc page limit role)

  pub post_assign : (RoleCommand → Result Done) → String → Posted String → Serve
  unfolding admin_auth assign_handler body_parser
  post_assign rpc id body =
      behind_admin
        (body_parser body.method body.content_length body.decoded (assign_handler rpc id))

  pub post_revoke : (RoleCommand → Result Done) → String → Posted String → Serve
  unfolding admin_auth revoke_handler body_parser
  post_revoke rpc id body =
      behind_admin
        (body_parser body.method body.content_length body.decoded (revoke_handler rpc id))
