-- ===== src/Process/Startup/Order.antt =====
-- The order of the start and of the stop.
use expire_share_api.Prelude.{
  ℕ, Bool, true, false, none, some, [], ◌∷◌, ◌≡◌, ◌⊎◌, ◌↔◌, inl, inr, refl, ap, arith,
  if◌then◌else◌, Option-cases,
}
use expire_share_api.World.{ok}
use expire_share_api.Config.Load.{Config, Surroundings, load}
use expire_share_api.Process.{
  Op, Failure, Outside, Trace, Outcome, goes, exits, panics, ◌>>=◌, open_migrations, run_migrations,
  close_migrations, open_db, ping_db, close_db, dial_auth, close_auth, ping_redis, close_redis,
  shutdown_http, start_http, start_worker,
}
use expire_share_api.Process.Connections.{
  unless_no_change, Result-cases, migrate, new_mysql, connect_mysql, close_mysql, connect_redis,
  close_redis_app, connect_auth, close_auth_app, try_to_connect, shutdown, new_http, new_redis,
}
use expire_share_api.Process.Startup.{
  Application, Logger, load_logger, new_app, start, secret_or_error, mount_handlers,
  run_until_signal, stop, until_signal, main,
}

-- What the start needs of the outside.
pub record Connects (o : Outside) : Type 0 where
  pub migrations : o.fault open_migrations ≡ none
  pub up_to_date : unless_no_change (o.fault run_migrations) ≡ none
  pub db : o.fault open_db ≡ none
  pub db_answers : o.fault ping_db ≡ none
  pub redis_answers : o.fault ping_redis ≡ none
  pub auth : o.fault dial_auth ≡ none
  pub auth_ready : try_to_connect o.states ≡ true

-- The calls of a start that goes through, the last one first.
abbrev pub after_start : Trace → Trace
after_start t =
    dial_auth ∷ ping_redis ∷ ping_db ∷ open_db ∷ close_migrations ∷ run_migrations ∷ open_migrations
    ∷ t

-- The application that a start builds.
abbrev application : Config → Application
application cfg = record {
  http = new_http cfg.settings.http_server;
  mysql = some tt;
  redis = new_redis cfg.settings.redis;
  auth_addr = cfg.settings.auth_addr;
  config = cfg;
}

Outcome-cases :
    {A : Type 0} (x : Outcome A)
    → ((a : A) × (x ≡ goes a)) ⊎ (((n : ℕ) × (x ≡ exits n)) ⊎ (x ≡ panics))
Outcome-cases (goes a) = inl (a, refl)
Outcome-cases (exits n) = inr (inl (n, refl))
Outcome-cases panics = inr (inr refl)

module _ (o : Outside) (t : Trace) where
  migrate-ok :
      o.fault open_migrations ≡ none
      → unless_no_change (o.fault run_migrations) ≡ none
      → migrate o t ≡ (goes (ok tt), close_migrations ∷ run_migrations ∷ open_migrations ∷ t)
  unfolding migrate ◌>>=◌
  migrate-ok a b = ground arith

  start-goes :
      (s : Surroundings) (cfg : Config) (logger : Logger)
      → load s ≡ ok cfg
      → load_logger cfg.settings.env ≡ ok logger
      → Connects o
      → (app : Application) × (start s o t ≡ (goes app, after_start t))
  unfolding start new_app migrate new_mysql connect_mysql connect_redis connect_auth ◌>>=◌
  start-goes s cfg logger l k c = (
    application cfg,
    ground (
      arith, c.migrations, c.up_to_date, c.db, c.db_answers, c.redis_answers, c.auth, c.auth_ready,
    ),
  )

  start-inv :
      (s : Surroundings) (app : Application) (t' : Trace)
      → start s o t ≡ (goes app, t')
      → (cfg : Config) × (logger : Logger) × (load s ≡ ok cfg)
        × (load_logger cfg.settings.env ≡ ok logger)
        × Connects o
        × (t' ≡ after_start t)
  unfolding start new_app migrate new_mysql connect_mysql connect_redis connect_auth ◌>>=◌
  start-inv s app t' h = elim (Result-cases (load s)) [
    | inl (e, l) ↦ ground arith
    | inr (cfg, l) ↦ elim (Result-cases (load_logger cfg.settings.env)) [
      | inl (e, k) ↦ ground arith
      | inr (logger, k) ↦ (
        cfg,
        logger,
        l,
        k,
        record {
          migrations = ground arith;
          up_to_date = ground arith;
          db = ground arith;
          db_answers = ground arith;
          redis_answers = ground arith;
          auth = ground arith;
          auth_ready = ground arith;
        },
        ground arith,
      )
    ]
  ]

  main-goes :
      (s : Surroundings) (app : Application)
      → start s o t ≡ (goes app, after_start t)
      → o.server_end ≡ none
      → secret_or_error o.decoded_secret ≡ ok tt
      → main s o t ≡ (
        goes tt,
        shutdown_http
            ∷ close_redis
            ∷ close_auth
            ∷ close_db
            ∷ start_worker
            ∷ start_http
            ∷ after_start t,
      )
  unfolding main mount_handlers run_until_signal stop until_signal close_mysql close_auth_app
      close_redis_app shutdown ◌>>=◌
  main-goes s app h e m = ground (arith, h)

abbrev is_start_http : Op → Bool
is_start_http start_http = true
is_start_http _ = false

-- The server has begun to listen.
abbrev pub listens : Trace → Bool
listens [] = false
listens (op ∷ t) = if is_start_http op then true else listens t

start-listens : (s : Surroundings) (o : Outside) (t : Trace) → listens (start s o t).1 ≡ listens t
unfolding start new_app migrate new_mysql connect_mysql connect_redis connect_auth ◌>>=◌
start-listens s o t = ground arith

-- How a start ends, as the only thing that `main` looks at.
bind-listens :
    (s : Surroundings) (o : Outside) (t : Trace)
    → listens (main s o t).1 ≡ true
    → listens (start s o t).1 ≡ false
    → (app : Application) × (start s o t ≡ (goes app, (start s o t).1))
unfolding main mount_handlers ◌>>=◌
bind-listens s o t h k = elim (Outcome-cases (start s o t).0) [
  | inl (app, e) ↦ (app, ap (λ r. (r, (start s o t).1)) e)
  | inr failed ↦ elim failed [ inl (n, e) ↦ ground arith | inr e ↦ ground arith ]
]

-- The handlers are mounted before the server listens.
mount-listens :
    (s : Surroundings) (o : Outside) (app : Application) (t : Trace)
    → listens (main s o []).1 ≡ true
    → start s o [] ≡ (goes app, t)
    → listens t ≡ false
    → secret_or_error o.decoded_secret ≡ ok tt
unfolding main mount_handlers ◌>>=◌
mount-listens s o app t h e k = elim (Result-cases (secret_or_error o.decoded_secret)) [
  | inl (bad, m) ↦ ground (arith, e)
  | inr (tt, m) ↦ m
]

-- The server listens only after a start that went through: the configuration is loaded and its
-- environment known, the migrations have run, MySQL, Redis and the auth service have answered, and
-- the administrators' secret decodes to a text that is not empty.
pub main-listens :
    (s : Surroundings) (o : Outside)
    → listens (main s o []).1 ≡ true
    → (cfg : Config) × (logger : Logger) × (load s ≡ ok cfg)
      × (load_logger cfg.settings.env ≡ ok logger)
      × Connects o
      × (secret_or_error o.decoded_secret ≡ ok tt)
main-listens s o h =
    let (app, e) = bind-listens s o [] h (start-listens s o []) in
    let (cfg, logger, l, k, c, e') = start-inv o [] s app _ e in
    (cfg, logger, l, k, c, mount-listens s o app _ h e (start-listens s o []))

-- The other way round, where ListenAndServe does not end before the signal: a process whose
-- configuration is loaded, whose environment is known, whose connections answer and whose secret of
-- the administrators decodes to a text that is not empty listens, works,
-- and after the signal it closes MySQL, the auth service and Redis and then shuts the server down,
-- whatever of that fails. `main` returns.
pub main_stops :
    (s : Surroundings) (o : Outside) (cfg : Config) (logger : Logger)
    → load s ≡ ok cfg
    → load_logger cfg.settings.env ≡ ok logger
    → Connects o
    → o.server_end ≡ none
    → secret_or_error o.decoded_secret ≡ ok tt
    → main s o [] ≡ (
      goes tt,
      shutdown_http
          ∷ close_redis
          ∷ close_auth
          ∷ close_db
          ∷ start_worker
          ∷ start_http
          ∷ after_start [],
    )
main_stops s o cfg logger l k c e m =
    let (app, h) = start-goes o [] s cfg logger l k c in main-goes o [] s app h e m

-- A start panics in one case only, and always in it: the configuration is loaded and its environment
-- known, the migrations have run, and
-- the data source cannot be opened.
pub start-panics :
    (s : Surroundings) (o : Outside)
    → ((start s o []).0 ≡ panics) ↔ (
        (cfg : Config) × (logger : Logger) × (load s ≡ ok cfg)
        × (load_logger cfg.settings.env ≡ ok logger)
        × (o.fault open_migrations ≡ none)
        × (unless_no_change (o.fault run_migrations) ≡ none)
        × (f : Failure) × (o.fault open_db ≡ some f))
unfolding start new_app migrate new_mysql connect_mysql connect_redis connect_auth ◌>>=◌
start-panics s o = (
  λ h. elim (Result-cases (load s)) [
    | inl (e, l) ↦ ground arith
    | inr (cfg, l) ↦ elim (Result-cases (load_logger cfg.settings.env)) [
      | inl (e, k) ↦ ground arith
      | inr (logger, k) ↦ elim (Option-cases (o.fault open_db)) [
        | inl d ↦ ground arith
        | inr (f, d) ↦ (cfg, logger, l, k, ground arith, ground arith, f, d)
      ]
    ]
  ],
  λ (cfg, logger, l, k, m, r, f, d). ground arith,
)
