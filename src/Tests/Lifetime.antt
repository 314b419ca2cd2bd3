-- ===== src/Tests/Lifetime.antt =====
-- The theorems on the start, the stop and the migration tool, applied to one configuration.
use expire_share_api.Prelude.{
  ◌≡◌, ◌↔◌, refl, true, false, none, some, String, Option, List, [], ◌∷◌, pos, arith, All, map,
}
use expire_share_api.World.{ok}
use expire_share_api.Http.Text.{trim_space}
use expire_share_api.Config.{set_permissions_config}
use expire_share_api.Config.Load.{
  Settings, Config, Surroundings, load, configured, split_commas, cons_first, join_commas,
}
use expire_share_api.Config.Load.Origins.{has_comma, load_origins}
use expire_share_api.Process.{
  Op, Outside, Failure, broken, no_change, connecting, ready, goes, panics, open_db, run_migrations,
  open_migrations, ping_db, close_db, close_auth, close_redis, shutdown_http, start_http,
  start_worker,
}
use expire_share_api.Process.Connections.{unless_no_change, try_to_connect}
use expire_share_api.Process.Startup.{
  Logger, text, debug, load_logger, start, secret_or_error, main,
}
use expire_share_api.Process.Startup.Order.{
  Connects, after_start, listens, main-listens, main_stops, start-panics,
}
use expire_share_api.Process.Migration.{main as migrate_main, Migrates, tool_iff}

abbrev settings : Settings
settings = record {
  env = "local";
  db_host = "db:3306";
  db_password = "secret";
  http_server = record {
    port = 8080;
    write_timeout = pos 5;
    read_timeout = pos 10;
    idle_timeout = pos 60;
  };
  cors = record {
    allowed_origins_env = "a.com, b.com";
    allowed_credentials = true;
    max_age = pos 86400;
  };
  redis = record {
    addr = "redis:6379";
    password = "secret";
    db = pos 0;
    dial_timeout = pos 10;
    timeout = pos 5;
    max_retries = pos 1;
  };
  auth_addr = "auth:5000";
  max_files_size_for_user = "500mb";
  max_files_size_for_vip = "2gb";
}

abbrev surroundings : Surroundings
surroundings = record { config_path = "config.yaml"; missing = false; read = ok settings }

abbrev config : Config
config = record {
  settings = settings;
  allowed_origins = "a.com" ∷ "b.com" ∷ [];
  max_files_size_for_user_in_bytes = pos 524288000;
  max_files_size_for_vip_in_bytes = pos 2147483648;
  db_connection_string = "root:secret@tcp(db:3306)/ExpireShare?charset=utf8&parseTime=True";
}

is_loaded : load surroundings ≡ ok config
unfolding load configured split_commas cons_first set_permissions_config trim_space
is_loaded = refl

abbrev logger : Logger
logger = record { format = text; level = debug }

local : load_logger "local" ≡ ok logger
unfolding load_logger
local = refl

-- The auth service takes two ticks, and nothing is left to migrate.
abbrev nothing_new : Op → Option Failure
nothing_new run_migrations = some no_change
nothing_new close_db = some (broken "bad connection")
nothing_new _ = none

abbrev up : Outside
up = record {
  fault = nothing_new;
  states = connecting ∷ ready ∷ [];
  server_end = none;
  decoded_secret = some "key";
}

connects : Connects up
unfolding try_to_connect
connects = record {
  migrations = refl;
  up_to_date = refl;
  db = refl;
  db_answers = refl;
  redis_answers = refl;
  auth = refl;
  auth_ready = refl;
}

main_stops_example : main surroundings up [] ≡ (
  goes tt,
  shutdown_http ∷ close_redis ∷ close_auth ∷ close_db ∷ start_worker ∷ start_http ∷ after_start [],
)
main_stops_example = main_stops surroundings up config logger is_loaded local connects refl refl

it_listens : listens (main surroundings up []).1 ≡ true
it_listens = ground (arith, main_stops_example)

main-listens_example :
    (cfg : Config) × (l : Logger) × (load surroundings ≡ ok cfg)
    × (load_logger cfg.settings.env ≡ ok l)
    × Connects up
    × (secret_or_error up.decoded_secret ≡ ok tt)
main-listens_example = main-listens surroundings up it_listens

abbrev no_source : Op → Option Failure
no_source open_db = some (broken "invalid DSN")
no_source _ = none

abbrev broken_source : Outside
broken_source = record {
  fault = no_source;
  states = [];
  server_end = none;
  decoded_secret = some "key";
}

start-panics_example : ((start surroundings broken_source []).0 ≡ panics) ↔ (
    (cfg : Config) × (l : Logger) × (load surroundings ≡ ok cfg)
    × (load_logger cfg.settings.env ≡ ok l)
    × (no_source open_migrations ≡ none)
    × (unless_no_change (no_source run_migrations) ≡ none)
    × (f : Failure) × (no_source open_db ≡ some f))
start-panics_example = start-panics surroundings broken_source

tool_iff_example : ((migrate_main ("migrate" ∷ "up" ∷ []) surroundings up []).0 ≡ goes tt) ↔ (
    (m : Migrates "up" surroundings up) × (nothing_new close_db ≡ none)
    × ((migrate_main ("migrate" ∷ "up" ∷ []) surroundings up []).1
        ≡ close_db ∷ m.op ∷ open_migrations ∷ ping_db ∷ open_db ∷ []))
tool_iff_example = tool_iff "migrate" "up" [] surroundings up

load_origins_example :
    (parts : List String) × (join_commas parts ≡ "a.com, b.com")
    × All (λ x. has_comma x ≡ false) parts
    × ("a.com" ∷ "b.com" ∷ [] ≡ map trim_space parts)
load_origins_example = load_origins surroundings config is_loaded
