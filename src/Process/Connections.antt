-- ===== src/Process/Connections.antt =====
-- internal/app/mysql, internal/app/redis, internal/app/auth and internal/app/http: how each
-- connection is opened, tested and closed.
use expire_share_api.Prelude.{
  ℕ, ℤ, Bool, true, false, String, Option, none, some, List, [], ◌∷◌, if◌then◌else◌, ◌≡◌, ◌⊎◌, inl,
  inr, refl,
}
use expire_share_api.Domain.{Error, opaque, wrap}
use expire_share_api.World.{Result, ok, err, Done}
use expire_share_api.Config.Load.{HttpServer, Redis}
use expire_share_api.Process.{
  Failure, no_change, server_closed, failure_of, Connectivity, ready, transient_failure, down, Proc,
  goes, pure, call, panic, ◌>>=◌, open_migrations, run_migrations, close_migrations, open_db,
  ping_db, close_db, dial_auth, close_auth, ping_redis, close_redis, shutdown_http,
}

-- `if err != nil { return fmt.Errorf("<text>: %w", err) }; return nil`
abbrev pub wrapped : String → Option Failure → Result Done
wrapped text none = ok tt
wrapped text (some f) = err (wrap text (failure_of f))

-- What `mgr.Up()` and the other operations return, where ErrNoChange is no error.
abbrev pub unless_no_change : Option Failure → Option Failure
unless_no_change (some no_change) = none
unless_no_change o = o

-- mysql.Migrate. An error of the deferred Close is only logged.
unfoldable pub migrate : Proc (Result Done)
migrate = do
  opened ← call open_migrations
  elim opened [
    | some f ↦ pure (err (wrap "app.mysql.App.Migrate: failed to open migrations" (failure_of f)))
    | none ↦ do
      ran ← call run_migrations
      closed ← call close_migrations
      pure (wrapped "app.mysql.App.Migrate: failed to up migrations" (unless_no_change ran))
  ]

-- mysql.New: nil where the data source cannot be opened. The error is dropped by its caller.
unfoldable pub new_mysql : Proc (Option Done)
new_mysql = do opened ← call open_db; elim opened [ some f ↦ pure none | none ↦ pure (some tt) ]

-- mysql.App.Connect: it reads the fields of its receiver, and so panics on nil.
unfoldable pub connect_mysql : Option Done → Proc (Result Done)
connect_mysql none = panic
connect_mysql (some app) = do
  ping ← call ping_db
  pure (wrapped "app.mysql.App.Connect: failed to ping db" ping)

-- mysql.App.Close
unfoldable pub close_mysql : Proc (Result Done)
close_mysql = do
  closed ← call close_db
  pure (wrapped "app.mysql.App.Close: failed to close db" closed)

-- redis.Options as redis.New sets them.
pub record RedisOptions : Type 0 where
  pub addr : String
  pub password : String
  pub db : ℤ
  pub read_timeout : ℤ
  pub dial_timeout : ℤ
  pub max_retries : ℤ

-- redis.New
pub new_redis : Redis → RedisOptions
new_redis cfg = record {
  addr = cfg.addr;
  password = cfg.password;
  db = cfg.db;
  read_timeout = cfg.timeout;
  dial_timeout = cfg.dial_timeout;
  max_retries = cfg.max_retries;
}

-- redis.App.Connect
unfoldable pub connect_redis : Proc (Result Done)
connect_redis = do
  ping ← call ping_redis
  pure (wrapped "app.redis.App.Connect: failed to ping redis db" ping)

-- redis.App.Close
unfoldable pub close_redis_app : Proc (Result Done)
close_redis_app = do
  closed ← call close_redis
  pure (wrapped "app.redis.App.Close: failed to close redis db" closed)

-- The loop of tryToConnect, over the states that its ticks see. The context ends it at the latest.
unfoldable pub try_to_connect : List Connectivity → Bool
try_to_connect [] = false
try_to_connect (ready ∷ rest) = true
try_to_connect (transient_failure ∷ rest) = false
try_to_connect (down ∷ rest) = false
try_to_connect (_ ∷ rest) = try_to_connect rest

-- auth.App.Connect
unfoldable pub connect_auth : Proc (Result Done)
connect_auth = do
  dialled ← call dial_auth
  elim dialled [
    | some f ↦
        pure (err (wrap "app.auth.App.Connect: failed to dial grpc connection" (failure_of f)))
    | none ↦ λ o t. (
      goes (
          if try_to_connect o.states
          then ok tt
          else err (opaque "app.auth.App.Connect: failed to connect to auth service")),
      t,
    )
  ]

-- auth.App.Close
unfoldable pub close_auth_app : Proc (Result Done)
close_auth_app = do
  closed ← call close_auth
  pure (wrapped "failed to close grpc connection" closed)

-- The server that http.New builds.
pub record Server : Type 0 where
  pub port : ℕ
  pub read_timeout : ℤ
  pub write_timeout : ℤ
  pub idle_timeout : ℤ

-- http.New
pub new_http : HttpServer → Server
new_http cfg = record {
  port = cfg.port;
  read_timeout = cfg.read_timeout;
  write_timeout = cfg.write_timeout;
  idle_timeout = cfg.idle_timeout;
}

-- http.App.Run, from how ListenAndServe ends: it always returns an error.
unfoldable pub run_http : Failure → Result Done
run_http server_closed = ok tt
run_http f = err (wrap "internal server error" (failure_of f))

-- http.App.Shutdown
unfoldable pub shutdown : Proc (Result Done)
shutdown = do stopped ← call shutdown_http; pure (wrapped "failed to shutdown http server" stopped)

pub Result-cases :
    {A : Type 0} (r : Result A) → ((e : Error) × (r ≡ err e)) ⊎ ((a : A) × (r ≡ ok a))
Result-cases (ok a) = inr (a, refl)
Result-cases (err e) = inl (e, refl)
