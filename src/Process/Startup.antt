-- ===== src/Process/Startup.antt =====
-- cmd/expire-share/main.go, app.New of internal/app/app.go and internal/lib/log/log.go: the start
-- of the server, the wait for a signal, and the stop.
pub mod Order
use expire_share_api.Prelude.{
  ℕ, ℤ, Bool, String, Option, none, some, List, [], ◌∷◌, ◌==◌, if◌then◌else◌,
}
use Prim.Native.String
use expire_share_api.Domain.{Error, opaque}
use expire_share_api.World.{Result, ok, err, Done}
use expire_share_api.Config.Load.{Config, Surroundings, load}
use expire_share_api.Process.{
  Failure, Outside, Proc, goes, pure, call, or_exit, ◌>>=◌, ◌>>◌, start_http, start_worker,
}
use expire_share_api.Process.Connections.{
  Server, RedisOptions, migrate, new_mysql, connect_mysql, close_mysql, new_redis, connect_redis,
  close_redis_app, connect_auth, close_auth_app, new_http, run_http, shutdown,
}

-- The handler and the level of the logger.
pub data Format : Type 0 where
  text json : Format

pub data Level : Type 0 where
  debug info : Level

pub record Logger : Type 0 where
  pub format : Format
  pub level : Level

-- log.Load
unfoldable pub load_logger : String → Result Logger
load_logger env =
    if env == "local"
    then ok (record { format = text; level = debug })
    else if env == "dev"
    then ok (record { format = text; level = info })
    else if env == "prod"
    then ok (record { format = json; level = info })
    else err (opaque (String.◌++◌ "unknown environment: " env))

-- app.App. The pointer to the MySQL app may be nil.
pub record Application : Type 0 where
  pub http : Server
  pub mysql : Option Done
  pub redis : RedisOptions
  pub auth_addr : String
  pub config : Config

-- app.New
pub new_app : Config → Proc Application
new_app cfg = do
  migrated ← migrate
  or_exit migrated
  db ← new_mysql
  pure (record {
    http = new_http cfg.settings.http_server;
    mysql = db;
    redis = new_redis cfg.settings.redis;
    auth_addr = cfg.settings.auth_addr;
    config = cfg;
  })

-- main, up to the connections.
pub start : Surroundings → Proc Application
start s = do
  cfg ← or_exit (load s)
  logger ← or_exit (load_logger cfg.settings.env)
  app ← new_app cfg
  db ← connect_mysql app.mysql
  or_exit db
  redis ← connect_redis
  or_exit redis
  auth ← connect_auth
  or_exit auth
  pure app

-- NewAdminAuth of middlewares/admin.go, as the routes are mounted: the secret of the administrators.
abbrev pub secret_or_error : Option String → Result Done
secret_or_error none = err (opaque "failed to decode ADMIN_SECRET_BASE64")
secret_or_error (some secret) =
    if secret == "" then err (opaque "failed to decode ADMIN_SECRET_BASE64") else ok tt

-- MustMountMiddlewares and MustMountHandlers: only NewAdminAuth can end the process there.
pub mount_handlers : Proc Done
mount_handlers o = or_exit (secret_or_error o.decoded_secret) o

-- What the goroutine of MustRun makes of the end of ListenAndServe, while main waits for a signal.
until_signal : Option Failure → Proc Done
until_signal none = pure tt
until_signal (some f) = or_exit (run_http f)

pub run_until_signal : Proc Done
unfolding until_signal
run_until_signal = do
  listening ← call start_http
  working ← call start_worker
  λ o. until_signal o.server_end o

-- The end of main, after the signal. All errors are dropped.
pub stop : Proc Done
stop = do db ← close_mysql; auth ← close_auth_app; redis ← close_redis_app; http ← shutdown; pure tt

-- main
pub main : Surroundings → Proc Done
main s = do app ← start s; mount_handlers; run_until_signal; stop
